-- ===== src/Hid/Parser.antt =====
-- mouse_protocol.h: `parse_mouse_descriptor`, the parser of HID report descriptors. `none` is its
-- `return {}` in the middle, which gives no profile.
pub mod Bounds
pub mod Sound
pub mod Items
use usb_proxy_udp.Base.{
  ℕ, zero, suc, ◌+◌, ◌*◌, ◌-◌, ◌/◌, ◌%◌, ◌^◌, List, [], ◌∷◌, ◌++◌, Bool, true, false, not, ◌&&◌,
  ◌||◌, Option, none, some, ◌==◌, leb, ltb, if◌then◌else◌, bit_or, length,
}
use usb_proxy_udp.Base.Int.{ℤ, pos, negsuc, sub_ℕ, neg, ltb_ℤ, leb_ℤ}
use usb_proxy_udp.Wire.{signed32}
use usb_proxy_udp.Hid.{HidField, MouseProfile}

-- `Global`. `page`, `size` and `count` are `int(v)` in the source; here they are `v`, so that a
-- negative one is one above every limit it is compared with.
pub record Global : Type 0 where
  pub page : ℕ
  pub size : ℕ
  pub count : ℕ
  pub id : ℕ
  pub min : ℤ
  pub max : ℤ

-- What the maps `profiles`, `offsets` and `shared_report` hold for one report ID.
pub record Slot : Type 0 where
  pub profile : MouseProfile
  pub offset : ℕ
  pub shared : Bool

-- The variables of the loop. `collections` and `stack` have the back of the vector first; `slots` is
-- in the order of the report IDs.
pub record Parser : Type 0 where
  pub global : Global
  pub stack : List Global
  pub collections : List Bool
  pub slots : List Slot
  pub usages : List ℕ
  pub umin : ℕ
  pub umax : ℕ
  pub range : Bool

abbrev pub blank_field : HidField
blank_field = record { offset = 0; bits = 0; minimum = pos 0; maximum = pos 0 }

abbrev pub blank_profile : ℕ → MouseProfile
blank_profile id = record {
  id = id;
  size = 0;
  x = blank_field;
  y = blank_field;
  wheel = blank_field;
  pan = blank_field;
  buttons = [];
  relative = [];
}

-- The entry of an ID, as `operator[]` gives it, with `if(!off&&g.id)off=8;`.
unfoldable pub slot_of : ℕ → List Slot → Slot
slot_of id [] = record {
  profile = blank_profile id;
  offset = if id == 0 then 0 else 8;
  shared = false;
}
slot_of id (s ∷ ss) = if s.profile.id == id then s else slot_of id ss

unfoldable pub put_slot : Slot → List Slot → List Slot
put_slot s [] = s ∷ []
put_slot s (t ∷ ts) =
    let rest = put_slot s ts in
    if t.profile.id == s.profile.id
    then s ∷ ts
    else if ltb s.profile.id t.profile.id
    then s ∷ t ∷ ts
    else t ∷ rest

-- r.buttons[key] = f
unfoldable pub put_button : ℕ → HidField → List (ℕ × HidField) → List (ℕ × HidField)
put_button key f [] = (key, f) ∷ []
put_button key f ((k, g) ∷ bs) =
    let rest = put_button key f bs in
    if k == key then (key, f) ∷ bs else if ltb key k then (key, f) ∷ (k, g) ∷ bs else (k, g) ∷ rest

-- The bytes of an item, the low one first, and the rest; `none` if there are too few.
unfoldable pub take_value : ℕ → List ℕ → Option (ℕ × List ℕ)
take_value zero p = some (0, p)
take_value (suc k) [] = none
take_value (suc k) (b ∷ p) = elim (take_value k p) [
  | none ↦ none
  | some (v, rest) ↦ some (b + 256 * v, rest)
]

-- `sv`, for an item of `len` bytes.
unfoldable pub signed_value : ℕ → ℕ → ℤ
signed_value len v =
    if not (len == 0) && ltb len 4 && leb (2 ^ (len * 8 - 1)) v
    then sub_ℕ v (2 ^ (len * 8))
    else signed32 v

unfoldable pub global_item : Parser → ℕ → ℕ → ℤ → Option Parser
global_item s tag v sv =
    let g = s.global in
    if tag == 0
    then some (record s { global = record g { page = v } })
    else if tag == 1
    then some (record s { global = record g { min = sv } })
    else if tag == 2
    then some
        (record s { global = record g { max = if ltb_ℤ g.min (pos 0) then sv else signed32 v } })
    else if tag == 7
    then some (record s { global = record g { size = v } })
    else if tag == 8
    then (if v == 0 || ltb 255 v then none else some (record s { global = record g { id = v } }))
    else if tag == 9
    then some (record s { global = record g { count = v } })
    else if tag == 10
    then some (record s { stack = g ∷ s.stack })
    else if tag == 11
    then elim s.stack [ [] ↦ none | top ∷ below ↦ some (record s { global = top; stack = below }) ]
    else some s

-- The usage has the page of the global state, unless the item has four bytes.
unfoldable pub local_item : Parser → ℕ → ℕ → ℕ → Parser
local_item s tag len v =
    let u = if len == 4 then v else bit_or (s.global.page * 2 ^ 16 % 2 ^ 32) v in
    if tag == 0
    then record s { usages = s.usages ++ u ∷ [] }
    else if tag == 1
    then record s { umin = u; range = true }
    else if tag == 2
    then record s { umax = u }
    else s

abbrev nth : List ℕ → ℕ → Option ℕ
nth [] i = none
nth (u ∷ us) zero = some u
nth (u ∷ us) (suc i) = nth us i

unfoldable pub usage_at : Parser → ℕ → ℕ
usage_at s i = elim (nth s.usages i) [
  | some u ↦ u
  | none ↦ if s.range && leb ((s.umin + i) % 2 ^ 32) s.umax then (s.umin + i) % 2 ^ 32 else 0
]

-- v & 1, v & 2, v & 4
abbrev pub is_constant : ℕ → Bool
is_constant v = v % 2 == 1

abbrev pub is_variable : ℕ → Bool
is_variable v = v / 2 % 2 == 1

abbrev pub is_relative : ℕ → Bool
is_relative v = v / 4 % 2 == 1

abbrev pub in_mouse : List Bool → Bool
in_mouse [] = false
in_mouse (mouse ∷ outer) = mouse

-- The field can be read and written: its size and its range are ones that `HidField` handles.
unfoldable pub is_usable : Global → ℕ → Bool → Bool
is_usable g v mouse =
    mouse
    && not (is_constant v)
    && is_variable v
    && ltb 0 g.size
    && leb g.size 16
    && leb_ℤ g.min (pos 0)
    && leb_ℤ (pos 0) g.max
    && ltb_ℤ g.min g.max

-- The range fits the bits.
unfoldable pub fits_bits : Global → Bool
fits_bits g =
    let signed = ltb_ℤ g.min (pos 0) in
    let lower = if signed then neg (pos (2 ^ (g.size - 1))) else pos 0 in
    let upper = if signed then sub_ℕ (2 ^ (g.size - 1)) 1 else sub_ℕ (2 ^ g.size) 1 in
    not (ltb_ℤ g.min lower) && not (ltb_ℤ upper g.max)

abbrev is_axis : ℕ → ℕ → ℕ → Bool
is_axis axis u v = u == axis && is_relative v

-- A second relative X or Y.
unfoldable pub is_twice : ℕ → ℕ → MouseProfile → Bool
is_twice u v r =
    (is_axis 0x10030 u v && not (r.x.bits == 0)) || (is_axis 0x10031 u v && not (r.y.bits == 0))

-- A usage of the button page, for a field of one bit.
unfoldable pub is_button : HidField → ℕ → Bool
is_button f u = u / 2 ^ 16 == 9 && leb 1 (u % 2 ^ 16) && leb (u % 2 ^ 16) 8 && f.bits == 1

-- The field's part in the profile, by its usage.
unfoldable pub place : HidField → ℕ → ℕ → MouseProfile → MouseProfile
place f u v r = record r {
  relative = if is_relative v then r.relative ++ f ∷ [] else r.relative;
  x = if is_axis 0x10030 u v then f else r.x;
  y = if is_axis 0x10031 u v then f else r.y;
  wheel = if is_axis 0x10038 u v then f else r.wheel;
  pan = if is_axis 0xc0238 u v then f else r.pan;
  buttons = if is_button f u then put_button (u % 2 ^ 16) f r.buttons else r.buttons;
}

-- What one field does to the profile, where it is a usable one.
unfoldable pub declare : Parser → ℕ → Bool → ℕ → HidField → MouseProfile → Option MouseProfile
declare s v mouse i f r =
    if not (is_usable s.global v mouse)
    then some r
    else if not (fits_bits s.global)
    then none
    else if is_twice (usage_at s i) v r
    then none
    else some (place f (usage_at s i) v r)

-- The loop over the fields, with `n` left and the next one at `off`.
unfoldable pub declare_fields : ℕ → Parser → ℕ → Bool → ℕ → ℕ → MouseProfile → Option MouseProfile
declare_fields zero s v mouse i off r = some r
declare_fields (suc n) s v mouse i off r =
    let g = s.global in
    let f : HidField = record { offset = off; bits = g.size; minimum = g.min; maximum = g.max } in
    elim (declare s v mouse i f r) [
      | none ↦ none
      | some q ↦ declare_fields n s v mouse (suc i) (off + g.size) q
    ]

-- A relative field that the mixer could not write.
unfoldable pub is_refused : Global → ℕ → Bool → Bool
is_refused g v mouse =
    mouse
    && not (is_constant v)
    && is_relative v
    && (not (is_variable v)
        || ltb g.size 1
        || ltb 16 g.size
        || ltb_ℤ (pos 0) g.min
        || ltb_ℤ g.max (pos 0)
        || leb_ℤ g.max g.min)

-- The report's bits up to the end of the item's fields.
unfoldable pub end_of : Parser → ℕ
end_of s = (slot_of s.global.id s.slots).offset + s.global.size * s.global.count

unfoldable pub is_too_large : Parser → Bool
is_too_large s = ltb 32 s.global.size || ltb 4096 s.global.count || ltb 32768 (end_of s)

-- The entry after the fields are declared.
unfoldable pub close_slot : Parser → ℕ → MouseProfile → Slot
close_slot s v r = record {
  profile = record r { size = (end_of s + 7) / 8 };
  offset = end_of s;
  shared =
      (slot_of s.global.id s.slots).shared || (not (in_mouse s.collections) && not (is_constant v));
}

-- Input: `count` fields at the report's offset.
unfoldable pub input_item : Parser → ℕ → Option Parser
input_item s v =
    let slot = slot_of s.global.id s.slots in
    let mouse = in_mouse s.collections in
    if is_too_large s || is_refused s.global v mouse
    then none
    else elim (declare_fields s.global.count s v mouse 0 slot.offset slot.profile) [
      | none ↦ none
      | some r ↦ some (record s { slots = put_slot (close_slot s v r) s.slots })
    ]

abbrev first_is : List ℕ → ℕ → Bool
first_is [] u = false
first_is (x ∷ xs) u = x == u

unfoldable pub main_item : Parser → ℕ → ℕ → Option Parser
main_item s tag v =
    if tag == 10
    then some (record s {
      collections =
          (if v == 1 then first_is s.usages 0x10002 else in_mouse s.collections) ∷ s.collections;
    })
    else if tag == 12
    then elim s.collections [ [] ↦ none | inner ∷ outer ↦ some (record s { collections = outer }) ]
    else if tag == 8
    then input_item s v
    else some s

-- usages.clear(); range = false; umin = umax = 0;
abbrev pub forget : Option Parser → Option Parser
forget none = none
forget (some s) = some (record s { usages = []; umin = 0; umax = 0; range = false })

-- One item, with its prefix, its length and its value.
unfoldable pub item : Parser → ℕ → ℕ → ℕ → Option Parser
item s prefix len v =
    let type = prefix / 4 % 4 in
    let tag = prefix / 16 in
    if type == 1
    then global_item s tag v (signed_value len v)
    else if type == 2
    then some (local_item s tag len v)
    else if type == 0
    then forget (main_item s tag v)
    else some s

abbrev pub item_length : ℕ → ℕ
item_length prefix = if prefix % 4 == 3 then 4 else prefix % 4

-- The value of an item, and what the item does.
unfoldable pub read_item : Parser → ℕ → List ℕ → Option (Parser × List ℕ)
read_item s prefix p = elim (take_value (item_length prefix) p) [
  | none ↦ none
  | some (v, rest) ↦ elim (item s prefix (item_length prefix) v) [
    | none ↦ none
    | some t ↦ some (t, rest)
  ]
]

-- One round of the loop, which takes a prefix and the bytes of its value.
unfoldable pub step : Parser → ℕ → List ℕ → Option (Parser × List ℕ)
step s prefix p = if prefix == 0xfe then none else read_item s prefix p

-- The loop over the items, with `fuel` rounds left.
unfoldable pub run : ℕ → Parser → List ℕ → Option Parser
run fuel s [] = some s
run zero s (prefix ∷ p) = none
run (suc fuel) s (prefix ∷ p) = elim (step s prefix p) [
  | none ↦ none
  | some (t, rest) ↦ run fuel t rest
]

abbrev pub no_items : Parser
no_items = record {
  global = record { page = 0; size = 0; count = 0; id = 0; min = pos 0; max = pos 0 };
  stack = [];
  collections = [];
  slots = [];
  usages = [];
  umin = 0;
  umax = 0;
  range = false;
}

abbrev pub is_mouse : Slot → Bool
is_mouse s =
    not s.shared
    && not (s.profile.x.bits == 0)
    && not (s.profile.y.bits == 0)
    && not (length s.profile.buttons == 0)

unfoldable pub mice : List Slot → List MouseProfile
mice [] = []
mice (s ∷ ss) = let rest = mice ss in if is_mouse s then s.profile ∷ rest else rest

unfoldable pub result_of : Option Parser → List MouseProfile
result_of none = []
result_of (some s) = if length s.collections == 0 && length s.stack == 0 then mice s.slots else []

unfoldable pub parse_mouse_descriptor : List ℕ → List MouseProfile
parse_mouse_descriptor p = result_of (run (length p) no_items p)
