-- ===== src/Hid/Parser/Bounds.antt =====
-- mouse_protocol.h: the fields of every profile that the descriptor parser gives lie inside its
-- reports, and have a size and a range that `put` and `get` handle.
use usb_proxy_udp.Base.{
  ℕ, zero, suc, ◌+◌, ◌*◌, ◌≤◌, ◌≡◌, List, [], ◌∷◌, ◌++◌, Bool, true, Option, none, some, arith,
  Bool-cases, ◌%◌, inr, ◌^◌, inl,
}
use usb_proxy_udp.Base.Int.{pos, ◌≤ℤ◌}
use usb_proxy_udp.Hid.{HidField, MouseProfile}
use usb_proxy_udp.Hid.Parser.{
  is_twice, is_button, place, Global, Parser, put_button, is_usable, declare, declare_fields,
  usage_at, fits_bits,
}

-- A field within the first `limit` bits, of at most 16 bits, whose range has 0. A field that is not
-- declared is one of no bits.
pub record FieldIn (limit : ℕ) (f : HidField) : Type 0 where
  pub inside : f.offset + f.bits ≤ limit
  pub small : f.bits ≤ 16
  pub low : f.minimum ≤ℤ pos 0
  pub high : pos 0 ≤ℤ f.maximum

abbrev pub AllIn : ℕ → List HidField → Type 0
AllIn limit [] = Unit {0}
AllIn limit (f ∷ fs) = FieldIn limit f × AllIn limit fs

-- Buttons 1 to 8, of one bit each.
abbrev pub ButtonsIn : ℕ → List (ℕ × HidField) → Type 0
ButtonsIn limit [] = Unit {0}
ButtonsIn limit ((key, f) ∷ bs) =
    (1 ≤ key) × (key ≤ 8) × (f.bits ≡ 1) × FieldIn limit f × ButtonsIn limit bs

pub record ProfileIn (limit : ℕ) (m : MouseProfile) : Type 0 where
  pub x_in : FieldIn limit m.x
  pub y_in : FieldIn limit m.y
  pub wheel_in : FieldIn limit m.wheel
  pub pan_in : FieldIn limit m.pan
  pub buttons_in : ButtonsIn limit m.buttons
  pub relative_in : AllIn limit m.relative

-- What an optional result has, if it is there.
abbrev pub Holds {ℓ} : {A : Type ℓ} → (A → Type 0) → Option A → Type 0
Holds P none = Unit {0}
Holds P (some a) = P a

pub bind-Holds {ℓ} :
    {A B : Type ℓ} (P : A → Type 0) (Q : B → Type 0) (o : Option A) (k : A → Option B)
    → Holds P o
    → ((a : A) → P a → Holds Q (k a))
    → Holds Q (elim o [ none ↦ none | some a ↦ k a ])
bind-Holds P Q none k h step = tt
bind-Holds P Q (some a) k h step = step a h

module _ (l k : ℕ) (wider : l ≤ k) where
  FieldIn-widen : (f : HidField) → FieldIn l f → FieldIn k f
  FieldIn-widen f h = record {
    inside = omega (arith, h.inside, wider);
    small = h.small;
    low = h.low;
    high = h.high;
  }

  AllIn-widen : (fs : List HidField) → AllIn l fs → AllIn k fs
  AllIn-widen [] h = tt
  AllIn-widen (f ∷ fs) (h, hs) = (FieldIn-widen f h, AllIn-widen fs hs)

  ButtonsIn-widen : (bs : List (ℕ × HidField)) → ButtonsIn l bs → ButtonsIn k bs
  ButtonsIn-widen [] h = tt
  ButtonsIn-widen ((key, f) ∷ bs) (a, b, c, h, hs) =
      (a, b, c, FieldIn-widen f h, ButtonsIn-widen bs hs)

  pub ProfileIn-widen : (m : MouseProfile) → ProfileIn l m → ProfileIn k m
  ProfileIn-widen m h = record {
    x_in = FieldIn-widen m.x h.x_in;
    y_in = FieldIn-widen m.y h.y_in;
    wheel_in = FieldIn-widen m.wheel h.wheel_in;
    pan_in = FieldIn-widen m.pan h.pan_in;
    buttons_in = ButtonsIn-widen m.buttons h.buttons_in;
    relative_in = AllIn-widen m.relative h.relative_in;
  }

append-AllIn :
    (l : ℕ) (fs : List HidField) (f : HidField) → AllIn l fs → FieldIn l f → AllIn l (fs ++ f ∷ [])
append-AllIn l [] f h g = (g, tt)
append-AllIn l (e ∷ fs) f (h, hs) g = (h, append-AllIn l fs f hs g)

put_button-ButtonsIn :
    (l key : ℕ) (f : HidField) (bs : List (ℕ × HidField))
    → 1 ≤ key
    → key ≤ 8
    → f.bits ≡ 1
    → FieldIn l f
    → ButtonsIn l bs
    → ButtonsIn l (put_button key f bs)
unfolding put_button
put_button-ButtonsIn l key f [] a b c h hs = (a, b, c, h, tt)
put_button-ButtonsIn l key f ((k, g) ∷ bs) a b c h (ka, kb, kc, kh, ks) =
    ground (arith, put_button-ButtonsIn l key f bs a b c h ks)

place-ProfileIn :
    (l : ℕ) (f : HidField) (u v : ℕ) (r : MouseProfile)
    → FieldIn l f
    → ProfileIn l r
    → ProfileIn l (place f u v r)
unfolding place is_button
place-ProfileIn l f u v r h p = record {
  x_in = ground (arith, h, p.x_in);
  y_in = ground (arith, h, p.y_in);
  wheel_in = ground (arith, h, p.wheel_in);
  pan_in = ground (arith, h, p.pan_in);
  buttons_in = ground (arith, p.buttons_in, put_button-ButtonsIn l (u % 2 ^ 16) f r.buttons);
  relative_in = ground (arith, p.relative_in, append-AllIn l r.relative f);
}

-- The field that the loop makes.
abbrev field_of : Global → ℕ → HidField
field_of g off = record { offset = off; bits = g.size; minimum = g.min; maximum = g.max }

usable-FieldIn :
    (l : ℕ) (s : Parser) (v : ℕ) (mouse : Bool) (off : ℕ)
    → off + s.global.size ≤ l
    → is_usable s.global v mouse ≡ true
    → FieldIn l (field_of s.global off)
unfolding is_usable
usable-FieldIn l s v mouse off room usable = ground (arith, room)

mul-one_more : (a n : ℕ) → a * suc n ≡ a + a * n
mul-one_more a n = omega arith

declare-ProfileIn :
    (l : ℕ) (s : Parser) (v : ℕ) (mouse : Bool) (i off : ℕ) (r : MouseProfile)
    → off + s.global.size ≤ l
    → ProfileIn l r
    → Holds (ProfileIn l) (declare s v mouse i (field_of s.global off) r)
unfolding declare
declare-ProfileIn l s v mouse i off r room p = elim (Bool-cases (is_usable s.global v mouse)) [
  | inr idle ↦ rw (idle, declare) p
  | inl usable ↦ elim (Bool-cases (fits_bits s.global)) [
    | inr wide ↦ rw (usable, declare) (rw (wide, declare) tt)
    | inl fit ↦ elim (Bool-cases (is_twice (usage_at s i) v r)) [
      | inl twice ↦ rw (usable, declare) (rw (fit, declare) (rw (twice, declare) tt))
      | inr once ↦
          rw (usable, declare)
            (rw (fit, declare)
              (rw (once, declare)
                (place-ProfileIn l (field_of s.global off) (usage_at s i) v r
                  (usable-FieldIn l s v mouse off room usable) p)))
    ]
  ]
]

pub declare_fields-ProfileIn :
    (l n : ℕ) (s : Parser) (v : ℕ) (mouse : Bool) (i off : ℕ) (r : MouseProfile)
    → off + s.global.size * n ≤ l
    → ProfileIn l r
    → Holds (ProfileIn l) (declare_fields n s v mouse i off r)
unfolding declare_fields
declare_fields-ProfileIn l zero s v mouse i off r room p = p
declare_fields-ProfileIn l (suc n) s v mouse i off r room p =
    bind-Holds (ProfileIn l) (ProfileIn l) (declare s v mouse i (field_of s.global off) r) _
      (declare-ProfileIn l s v mouse i off r (omega (arith, room, mul-one_more s.global.size n)) p)
      (λ q h.
        declare_fields-ProfileIn l n s v mouse (suc i) (off + s.global.size) q
          (omega (arith, room, mul-one_more s.global.size n)) h)
