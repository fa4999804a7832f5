-- ===== src/Hid/Parser/Sound.antt =====
-- mouse_protocol.h: what holds of every profile that `parse_mouse_descriptor` gives.
use usb_proxy_udp.Base.{
  ℕ, zero, suc, ◌*◌, ◌/◌, ◌≤◌, ◌<◌, ◌≡◌, ◌≢◌, List, [], ◌∷◌, true, false, Option, none, some, arith,
  if_cases, length, ◌==◌, ◌||◌, ◌&&◌,
}
use usb_proxy_udp.Base.Int.{ℤ}
use usb_proxy_udp.Hid.{MouseProfile}
use usb_proxy_udp.Hid.Split.{HasRanges}
use usb_proxy_udp.Hid.Parser.{
  read_item, step, is_too_large, end_of, close_slot, Slot, Parser, slot_of, put_slot,
  declare_fields, input_item, global_item, local_item, main_item, item, run, no_items, forget, mice,
  result_of, parse_mouse_descriptor, is_refused, signed_value, take_value, item_length, in_mouse,
  is_mouse,
}
use usb_proxy_udp.Hid.Parser.Bounds.{
  ProfileIn, Holds, bind-Holds, ProfileIn-widen, declare_fields-ProfileIn,
}

-- An entry after an input item.
record Stored (s : Slot) : Type 0 where
  within : ProfileIn s.offset s.profile
  covered : s.offset ≤ 8 * s.profile.size
  bounded : s.profile.size ≤ 4096

AllStored : List Slot → Type 0
AllStored [] = Unit {0}
AllStored (s ∷ ss) = Stored s × AllStored ss

slot_of-ProfileIn :
    (id : ℕ) (ss : List Slot)
    → AllStored ss
    → ProfileIn (slot_of id ss).offset (slot_of id ss).profile
unfolding slot_of AllStored
slot_of-ProfileIn id [] h = ground arith
slot_of-ProfileIn id (s ∷ ss) (h, hs) = ground (arith, h.within, slot_of-ProfileIn id ss hs)

put_slot-AllStored :
    (s : Slot) (ss : List Slot) → Stored s → AllStored ss → AllStored (put_slot s ss)
unfolding put_slot AllStored
put_slot-AllStored s [] new old = (new, tt)
put_slot-AllStored s (t ∷ ts) new (h, hs) =
    ground (arith, new, h, hs, put_slot-AllStored s ts new hs)

Keeps : Parser → Type 0
Keeps s = AllStored s.slots

close_slot-Stored :
    (s : Parser) (v : ℕ) (r : MouseProfile)
    → is_too_large s ≡ false
    → ProfileIn (end_of s) r
    → Stored (close_slot s v r)
unfolding close_slot is_too_large
close_slot-Stored s v r small h = record {
  within = record {
    x_in = h.x_in;
    y_in = h.y_in;
    wheel_in = h.wheel_in;
    pan_in = h.pan_in;
    buttons_in = h.buttons_in;
    relative_in = h.relative_in;
  };
  covered = omega arith;
  bounded = ground arith;
}

input_item-Keeps : (s : Parser) (v : ℕ) → Keeps s → Holds Keeps (input_item s v)
unfolding input_item Keeps end_of
input_item-Keeps s v h =
    let slot = slot_of s.global.id s.slots in
    let mouse = in_mouse s.collections in
    let old = slot_of-ProfileIn s.global.id s.slots h in
    let wider : slot.offset ≤ end_of s = omega arith in
    if_cases (Holds Keeps) (is_too_large s || is_refused s.global v mouse) none
      (elim (declare_fields s.global.count s v mouse 0 slot.offset slot.profile) [
        | none ↦ none
        | some r ↦ some (record s { slots = put_slot (close_slot s v r) s.slots })
      ])
      (λ _. tt)
      (λ allowed.
        bind-Holds (ProfileIn (end_of s)) Keeps
          (declare_fields s.global.count s v mouse 0 slot.offset slot.profile) _
          (declare_fields-ProfileIn (end_of s) s.global.count s v mouse 0 slot.offset slot.profile
            (omega arith) (ProfileIn-widen slot.offset (end_of s) wider slot.profile old))
          (λ r within.
            put_slot-AllStored (close_slot s v r) s.slots
              (close_slot-Stored s v r (ground (arith, allowed)) within) h))

main_item-Keeps : (s : Parser) (tag v : ℕ) → Keeps s → Holds Keeps (main_item s tag v)
unfolding main_item Keeps
main_item-Keeps s tag v h = ground (arith, h, input_item-Keeps s v h)

global_item-Keeps :
    (s : Parser) (tag v : ℕ) (sv : ℤ) → Keeps s → Holds Keeps (global_item s tag v sv)
unfolding global_item Keeps
global_item-Keeps s tag v sv h = ground (arith, h)

local_item-Keeps : (s : Parser) (tag len v : ℕ) → Keeps s → Keeps (local_item s tag len v)
unfolding local_item Keeps
local_item-Keeps s tag len v h = ground (arith, h)

forget-Keeps : (o : Option Parser) → Holds Keeps o → Holds Keeps (forget o)
unfolding Keeps
forget-Keeps none h = tt
forget-Keeps (some s) h = h

item-Keeps : (s : Parser) (prefix len v : ℕ) → Keeps s → Holds Keeps (item s prefix len v)
unfolding item
item-Keeps s prefix len v h = ground (
  arith,
  h,
  global_item-Keeps s (prefix / 16) v (signed_value len v) h,
  local_item-Keeps s (prefix / 16) len v h,
  forget-Keeps (main_item s (prefix / 16) v) (main_item-Keeps s (prefix / 16) v h),
)

any-Holds {ℓ} : {A : Type ℓ} (o : Option A) → Holds (λ _. Unit {0}) o
any-Holds none = tt
any-Holds (some a) = tt

read_item-Keeps :
    (s : Parser) (prefix : ℕ) (p : List ℕ)
    → Keeps s
    → Holds (λ (r : Parser × List ℕ). Keeps r.0) (read_item s prefix p)
unfolding read_item
read_item-Keeps s prefix p h =
    bind-Holds (λ _. Unit {0}) (λ (r : Parser × List ℕ). Keeps r.0)
      (take_value (item_length prefix) p) _ (any-Holds (take_value (item_length prefix) p))
      (λ taken _.
        bind-Holds Keeps (λ (r : Parser × List ℕ). Keeps r.0)
          (item s prefix (item_length prefix) taken.0) _
          (item-Keeps s prefix (item_length prefix) taken.0 h) (λ t kept. kept))

step-Keeps :
    (s : Parser) (prefix : ℕ) (p : List ℕ)
    → Keeps s
    → Holds (λ (r : Parser × List ℕ). Keeps r.0) (step s prefix p)
unfolding step
step-Keeps s prefix p h =
    if_cases (Holds (λ (r : Parser × List ℕ). Keeps r.0)) (prefix == 0xfe) none
      (read_item s prefix p) (λ _. tt) (λ _. read_item-Keeps s prefix p h)

run-Keeps : (fuel : ℕ) (s : Parser) (p : List ℕ) → Keeps s → Holds Keeps (run fuel s p)
unfolding run
run-Keeps fuel s [] h = h
run-Keeps zero s (prefix ∷ p) h = tt
run-Keeps (suc fuel) s (prefix ∷ p) h =
    bind-Holds (λ r. Keeps r.0) Keeps (step s prefix p) _ (step-Keeps s prefix p h)
      (λ r kept. run-Keeps fuel r.0 r.1 kept)

-- A profile that the mixer can use: its fields lie inside the report, which is at most 4096 bytes long,
-- have at most 16 bits and a range around 0; X, Y and a button are declared.
pub record IsSound (m : MouseProfile) : Type 0 where
  pub within : ProfileIn (8 * m.size) m
  pub bounded : m.size ≤ 4096
  pub has_x : 0 < m.x.bits
  pub has_y : 0 < m.y.bits
  pub has_button : m.buttons ≢ []

abbrev pub AllSound : List MouseProfile → Type 0
AllSound [] = Unit {0}
AllSound (m ∷ ms) = IsSound m × AllSound ms

mouse-IsSound : (s : Slot) → Stored s → is_mouse s ≡ true → IsSound s.profile
mouse-IsSound s h mouse = record {
  within = ProfileIn-widen s.offset (8 * s.profile.size) h.covered s.profile h.within;
  bounded = h.bounded;
  has_x = ground (arith, mouse);
  has_y = ground (arith, mouse);
  has_button = ground (arith, mouse);
}

mice-AllSound : (ss : List Slot) → AllStored ss → AllSound (mice ss)
unfolding mice AllStored
mice-AllSound [] h = tt
mice-AllSound (s ∷ ss) (h, hs) =
    if_cases AllSound (is_mouse s) (s.profile ∷ mice ss) (mice ss)
      (λ mouse. (mouse-IsSound s h mouse, mice-AllSound ss hs)) (λ _. mice-AllSound ss hs)

result_of-AllSound : (o : Option Parser) → Holds Keeps o → AllSound (result_of o)
unfolding result_of Keeps
result_of-AllSound none h = tt
result_of-AllSound (some s) h =
    if_cases AllSound (length s.collections == 0 && length s.stack == 0) (mice s.slots) []
      (λ _. mice-AllSound s.slots h) (λ _. tt)

-- Whatever bytes a device sends as its descriptor, every profile read from them has its fields inside
-- its report, of at most 16 bits and with a range around 0, and has X, Y and a button.
pub parse_mouse_descriptor-AllSound : (p : List ℕ) → AllSound (parse_mouse_descriptor p)
unfolding parse_mouse_descriptor Keeps AllStored
parse_mouse_descriptor-AllSound p =
    result_of-AllSound (run (length p) no_items p) (run-Keeps (length p) no_items p tt)

-- The ranges that the split of a motion relies on.
pub IsSound-HasRanges : (m : MouseProfile) → IsSound m → HasRanges m
IsSound-HasRanges m h =
    let w = h.within in
    ground (
      arith, w.x_in.low, w.x_in.high, w.y_in.low, w.y_in.high, w.wheel_in.low, w.wheel_in.high,
      w.pan_in.low, w.pan_in.high,
    )
