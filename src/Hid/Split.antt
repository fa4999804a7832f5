-- ===== src/Hid/Split.antt =====
-- mouse_protocol.h: the reports of `split_mouse_command` add up to the command and fit the fields.
use Prim.Native.Nat.{zero}
use usb_proxy_udp.Mouse.{no_command}
use mathlib.Core.Option.{none}
use usb_proxy_udp.Base.{
  ◌≡◌, some, arith, ◌⊎◌, Option-cases, ℕ, inl, inr, List, Option, none, suc, true, ◌<◌, ◌∷◌, ◌≢◌,
  Bool-cases, [], length, ◌≤◌, subst, refl,
}
use usb_proxy_udp.Base.Int.{ℤ, pos, ◌+ℤ◌, ◌-ℤ◌, ◌≤ℤ◌, is_zero, is_zero→eq}
use usb_proxy_udp.Hid.{
  HidField, take_axis, MouseCommand, MouseProfile, take_part, next_parts, no_motion, split_loop,
  split_mouse_command, take_all, and_not, supported_of, max_parts,
}

-- A value that the field can carry: in its range, or 0 for a field that is not declared.
abbrev pub Carries : HidField → ℤ → Type 0
Carries f v = ((f.bits ≡ 0) × (v ≡ pos 0)) ⊎ ((f.minimum ≤ℤ v) × (v ≤ℤ f.maximum))

-- What one call of `take` gives, if it does not refuse.
abbrev Taken : HidField → ℤ → Option (ℤ × ℤ) → Type 0
Taken f remaining none = Unit {0}
Taken f remaining (some (value, left)) = Carries f value × (value +ℤ left ≡ remaining)

take_axis-Taken :
    (f : HidField) (remaining : ℤ)
    → f.minimum ≤ℤ f.maximum
    → Taken f remaining (take_axis f remaining)
unfolding take_axis ◌-ℤ◌ ◌+ℤ◌
take_axis-Taken f remaining range = ground arith

-- The four motion fields have a range each.
pub record HasRanges (m : MouseProfile) : Type 0 where
  pub x_range : m.x.minimum ≤ℤ m.x.maximum
  pub y_range : m.y.minimum ≤ℤ m.y.maximum
  pub wheel_range : m.wheel.minimum ≤ℤ m.wheel.maximum
  pub pan_range : m.pan.minimum ≤ℤ m.pan.maximum

-- A report that the profile can encode, with the buttons of the command.
pub record PartOf (m : MouseProfile) (buttons : ℕ) (part : MouseCommand) : Type 0 where
  pub x_fits : Carries m.x part.x
  pub y_fits : Carries m.y part.y
  pub wheel_fits : Carries m.wheel part.wheel
  pub pan_fits : Carries m.pan part.pan
  pub same_buttons : part.buttons ≡ buttons

-- Componentwise, the motion of `a` is that of `b` and `c` together.
abbrev pub AddsUp : MouseCommand → MouseCommand → MouseCommand → Type 0
AddsUp a b c =
    (b.x +ℤ c.x ≡ a.x)
    × (b.y +ℤ c.y ≡ a.y)
    × (b.wheel +ℤ c.wheel ≡ a.wheel)
    × (b.pan +ℤ c.pan ≡ a.pan)

abbrev PartTaken : MouseProfile → MouseCommand → Option (MouseCommand × MouseCommand) → Type 0
PartTaken m c none = Unit {0}
PartTaken m c (some (part, left)) =
    PartOf m c.buttons part × AddsUp c part left × (left.buttons ≡ c.buttons)

combine :
    (m : MouseProfile) (c : MouseCommand) (ox oy ow op : Option (ℤ × ℤ))
    → Taken m.x c.x ox
    → Taken m.y c.y oy
    → Taken m.wheel c.wheel ow
    → Taken m.pan c.pan op
    → PartTaken m c (take_all c.buttons ox oy ow op)
unfolding take_all
combine m c none oy ow op tx ty tw tp = tt
combine m c (some x) none ow op tx ty tw tp = tt
combine m c (some x) (some y) none op tx ty tw tp = tt
combine m c (some x) (some y) (some w) none tx ty tw tp = tt
combine m c (some x) (some y) (some w) (some p) tx ty tw tp = (
  record { x_fits = tx.0; y_fits = ty.0; wheel_fits = tw.0; pan_fits = tp.0; same_buttons = refl },
  (tx.1, ty.1, tw.1, tp.1),
  refl,
)

take_part-PartTaken :
    (m : MouseProfile) (c : MouseCommand) → HasRanges m → PartTaken m c (take_part m c)
unfolding take_part
take_part-PartTaken m c r =
    combine m c (take_axis m.x c.x) (take_axis m.y c.y) (take_axis m.wheel c.wheel)
      (take_axis m.pan c.pan) (take_axis-Taken m.x c.x r.x_range)
      (take_axis-Taken m.y c.y r.y_range) (take_axis-Taken m.wheel c.wheel r.wheel_range)
      (take_axis-Taken m.pan c.pan r.pan_range)

abbrev pub sum_of : List MouseCommand → MouseCommand
sum_of [] = no_command
sum_of (c ∷ cs) =
    let rest = sum_of cs in
    record {
      x = c.x +ℤ rest.x;
      y = c.y +ℤ rest.y;
      wheel = c.wheel +ℤ rest.wheel;
      pan = c.pan +ℤ rest.pan;
      buttons = c.buttons;
    }

abbrev pub AllParts : MouseProfile → ℕ → List MouseCommand → Type 0
AllParts m buttons [] = Unit {0}
AllParts m buttons (p ∷ ps) = PartOf m buttons p × AllParts m buttons ps

-- The same motion.
abbrev pub SameMotion : MouseCommand → MouseCommand → Type 0
SameMotion a b = (a.x ≡ b.x) × (a.y ≡ b.y) × (a.wheel ≡ b.wheel) × (a.pan ≡ b.pan)

-- What a split into at most `n` reports gives, if it does not refuse.
abbrev Splits : ℕ → MouseProfile → MouseCommand → Option (List MouseCommand) → Type 0
Splits n m c none = Unit {0}
Splits n m c (some parts) =
    AllParts m c.buttons parts
    × SameMotion (sum_of parts) c
    × (0 < length parts)
    × (length parts ≤ n)

last_sum : (v l r : ℤ) → v +ℤ l ≡ r → is_zero l ≡ true → v +ℤ pos 0 ≡ r
last_sum v l r e z = rw (← is_zero→eq l z) e

more_sum : (v l r s : ℤ) → v +ℤ l ≡ r → s ≡ l → v +ℤ s ≡ r
more_sum v l r s e f = rw f e

last-Splits :
    (n : ℕ) (m : MouseProfile) (c part left : MouseCommand)
    → PartTaken m c (some (part, left))
    → no_motion left ≡ true
    → Splits (suc n) m c (some (part ∷ []))
last-Splits n m c part left (fits, adds, same) z = (
  (fits, tt),
  (
    last_sum part.x left.x c.x adds.0 (ground arith),
    last_sum part.y left.y c.y adds.1 (ground arith),
    last_sum part.wheel left.wheel c.wheel adds.2 (ground arith),
    last_sum part.pan left.pan c.pan adds.3 (ground arith),
  ),
  omega arith,
  omega arith,
)

more-Splits :
    (n : ℕ) (m : MouseProfile) (c part left : MouseCommand) (rest : Option (List MouseCommand))
    → PartTaken m c (some (part, left))
    → Splits n m left rest
    → Splits (suc n) m c (elim rest [ none ↦ none | some parts ↦ some (part ∷ parts) ])
more-Splits n m c part left none taken h = tt
more-Splits n m c part left (some parts) (fits, adds, same) (all, sums, some_part, bound) = (
  (fits, subst (λ b. AllParts m b parts) same all),
  (
    more_sum part.x left.x c.x _ adds.0 sums.0,
    more_sum part.y left.y c.y _ adds.1 sums.1,
    more_sum part.wheel left.wheel c.wheel _ adds.2 sums.2,
    more_sum part.pan left.pan c.pan _ adds.3 sums.3,
  ),
  omega arith,
  omega arith,
)

next-Splits :
    (n : ℕ) (m : MouseProfile) (c : MouseCommand) (taken : Option (MouseCommand × MouseCommand))
    → PartTaken m c taken
    → ((left : MouseCommand) → Splits n m left (split_loop n m left))
    → Splits (suc n) m c (next_parts taken (split_loop n m))
unfolding next_parts
next-Splits n m c none taken ih = tt
next-Splits n m c (some (part, left)) taken ih = elim (Bool-cases (no_motion left)) [
  | inl over ↦ rw (over, next_parts) (last-Splits n m c part left taken over)
  | inr more ↦
      rw (more, next_parts) (more-Splits n m c part left (split_loop n m left) taken (ih left))
]

split_loop-Splits :
    (n : ℕ) (m : MouseProfile) (c : MouseCommand) → HasRanges m → Splits n m c (split_loop n m c)
unfolding split_loop
split_loop-Splits zero m c r = tt
split_loop-Splits (suc n) m c r =
    next-Splits n m c (take_part m c) (take_part-PartTaken m c r)
      (λ left. split_loop-Splits n m left r)

-- When the ranges of the four motion fields are not empty, a command that is split becomes at most
-- 32 reports: each carries the command's buttons, which are all declared, and motions within the
-- fields, and together they move exactly as the command says.
pub split_mouse_command_lem :
    (m : MouseProfile) (c : MouseCommand)
    → HasRanges m
    → split_mouse_command m c ≢ []
    → AllParts m c.buttons (split_mouse_command m c)
      × SameMotion (sum_of (split_mouse_command m c)) c
      × (length (split_mouse_command m c) ≤ 32)
      × (and_not c.buttons (supported_of m.buttons) ≡ 0)
unfolding split_mouse_command
split_mouse_command_lem m c r ne = elim (Option-cases (split_loop max_parts m c)) [
  | inl refused ↦ absurd (ne (ground arith))
  | inr (parts, found) ↦
      let h = subst (Splits max_parts m c) found (split_loop-Splits max_parts m c r) in
      ground (arith, h)
]
