-- ===== src/Hid.antt =====
-- mouse_protocol.h: HID report fields, the mouse profile that the descriptor parser builds, and the
-- split of a movement into reports. A report is a list of bytes.
pub mod Split
pub mod Buttons
pub mod Parser
mod Tests
use usb_proxy_udp.Base.{
  ℕ, zero, suc, ◌+◌, ◌-◌, ◌*◌, ◌/◌, ◌%◌, ◌^◌, List, [], ◌∷◌, Bool, true, false, not, ◌&&◌, ◌||◌,
  Option, none, some, length, set, ◌==◌, leb, ltb, if◌then◌else◌, bit_and, bit_or,
}
use usb_proxy_udp.Base.Int.{ℤ, pos, ◌-ℤ◌, sub_ℕ, is_zero, ltb_ℤ, min_ℤ, max_ℤ, to_u32}
use usb_proxy_udp.Wire.{byte_at}
use usb_proxy_udp.Mouse.{MouseCommand}

pub record HidField : Type 0 where
  pub offset : ℕ
  pub bits : ℕ
  pub minimum : ℤ
  pub maximum : ℤ

-- (p[k / 8] >> (k % 8)) & 1
unfoldable pub bit_at : List ℕ → ℕ → ℕ
bit_at p k = byte_at p (k / 8) / 2 ^ (k % 8) % 2

-- p[k / 8] = (p[k / 8] & ~mask) | (bit ? mask : 0) with mask = 1 << (k % 8)
unfoldable pub set_bit : List ℕ → ℕ → ℕ → List ℕ
set_bit p k bit =
    set p (k / 8) (bit_or (bit_and (byte_at p (k / 8)) (255 - 2 ^ (k % 8))) (bit * 2 ^ (k % 8)))

-- The loop of `get`, the first `n` bits: v |= bit << i for the highest of them.
unfoldable pub get_bits : List ℕ → ℕ → ℕ → ℕ
get_bits p offset zero = 0
get_bits p offset (suc i) = bit_or (bit_at p (offset + i) * 2 ^ i) (get_bits p offset i)

unfoldable pub get : HidField → List ℕ → ℤ
get f p =
    let v = get_bits p f.offset f.bits in
    if f.bits == 0
    then pos 0
    else if ltb_ℤ f.minimum (pos 0) && v / 2 ^ (f.bits - 1) % 2 == 1
    then sub_ℕ v (2 ^ f.bits)
    else pos v

-- The loop of `put`, its first `n` rounds.
unfoldable pub put_bits : List ℕ → ℕ → ℕ → ℕ → List ℕ
put_bits p offset v zero = p
put_bits p offset v (suc i) = set_bit (put_bits p offset v i) (offset + i) (v / 2 ^ i % 2)

unfoldable pub put : HidField → List ℕ → ℤ → List ℕ × Bool
put f p value =
    if f.bits == 0
    then (p, is_zero value)
    else if ltb_ℤ value f.minimum || ltb_ℤ f.maximum value
    then (p, false)
    else (put_bits p f.offset (to_u32 value) f.bits, true)

pub record MouseProfile : Type 0 where
  pub id : ℕ
  pub size : ℕ
  pub x : HidField
  pub y : HidField
  pub wheel : HidField
  pub pan : HidField
  -- std::map<int, HidField>, by increasing key
  pub buttons : List (ℕ × HidField)
  pub relative : List HidField

unfoldable pub matches : MouseProfile → List ℕ → Bool
matches m p = length p == m.size && (m.id == 0 || byte_at p 0 == m.id)

-- The bit of button `b`, as a `uint8_t`.
abbrev pub button_bit : ℕ → ℕ
button_bit b = 2 ^ (b - 1) % 256

unfoldable pub mask_of : List (ℕ × HidField) → List ℕ → ℕ
mask_of [] p = 0
mask_of ((b, f) ∷ bs) p =
    if is_zero (get f p) then mask_of bs p else bit_or (button_bit b) (mask_of bs p)

unfoldable pub button_mask : MouseProfile → List ℕ → ℕ
button_mask m p = mask_of m.buttons p

unfoldable pub put_mask : List (ℕ × HidField) → List ℕ → ℕ → List ℕ
put_mask [] p mask = p
put_mask ((b, f) ∷ bs) p mask = put_mask bs (put f p (pos (mask / 2 ^ (b - 1) % 2))).0 mask

unfoldable pub put_buttons : MouseProfile → List ℕ → ℕ → List ℕ
put_buttons m p mask = put_mask m.buttons p mask

-- for (auto& f : relative) f.put(p, 0);
unfoldable pub clear_fields : List HidField → List ℕ → List ℕ
clear_fields [] p = p
clear_fields (f ∷ fs) p = clear_fields fs (put f p (pos 0)).0

-- The `&&` of `encode` stops at the first field that refuses.
unfoldable pub put_motion : MouseProfile → MouseCommand → List ℕ → List ℕ × Bool
put_motion m c p =
    let (px, okx) = put m.x p c.x in
    let (py, oky) = put m.y px c.y in
    let (pw, okw) = put m.wheel py c.wheel in
    if not okx
    then (px, false)
    else if not oky
    then (py, false)
    else if not okw
    then (pw, false)
    else put m.pan pw c.pan

unfoldable pub encode : MouseProfile → MouseCommand → List ℕ → List ℕ × Bool
encode m c p = put_motion m c (put_buttons m (clear_fields m.relative p) c.buttons)

-- The mask of the declared buttons.
unfoldable pub supported_of : List (ℕ × HidField) → ℕ
supported_of [] = 0
supported_of ((b, f) ∷ bs) = bit_or (button_bit b) (supported_of bs)

-- a & ~b for two `uint8_t`s
abbrev pub and_not : ℕ → ℕ → ℕ
and_not a b = bit_and a (255 - b)

-- The lambda `take`: the value for this report and what remains.
unfoldable pub take_axis : HidField → ℤ → Option (ℤ × ℤ)
take_axis f remaining =
    let value = max_ℤ f.minimum (min_ℤ f.maximum remaining) in
    if f.bits == 0
    then (if is_zero remaining then some (pos 0, remaining) else none)
    else if not (is_zero remaining) && is_zero value
    then none
    else some (value, remaining -ℤ value)

abbrev pub no_motion : MouseCommand → Bool
no_motion c = is_zero c.x && is_zero c.y && is_zero c.wheel && is_zero c.pan

infixl 5 ◌>>=◌
abbrev ◌>>=◌ {ℓ κ} : {A : Type ℓ} {B : Type κ} → Option A → (A → Option B) → Option B
none >>= f = none
some a >>= f = f a

-- `take(p.x, …) && take(p.y, …) && …`: the report and the remaining command.
unfoldable pub take_all :
    ℕ
    → Option (ℤ × ℤ)
    → Option (ℤ × ℤ)
    → Option (ℤ × ℤ)
    → Option (ℤ × ℤ)
    → Option (MouseCommand × MouseCommand)
take_all buttons ox oy owheel opan = do
  x ← ox
  y ← oy
  wheel ← owheel
  pan ← opan
  some (
    record { x = x.0; y = y.0; wheel = wheel.0; pan = pan.0; buttons = buttons },
    record { x = x.1; y = y.1; wheel = wheel.1; pan = pan.1; buttons = buttons },
  )

unfoldable pub take_part : MouseProfile → MouseCommand → Option (MouseCommand × MouseCommand)
take_part m c =
    take_all c.buttons (take_axis m.x c.x) (take_axis m.y c.y) (take_axis m.wheel c.wheel)
      (take_axis m.pan c.pan)

abbrev pub max_parts : ℕ
max_parts = 32

-- The end of a round of the do-while loop, with `split` for the rounds that follow.
unfoldable pub next_parts :
    Option (MouseCommand × MouseCommand)
    → (MouseCommand → Option (List MouseCommand))
    → Option (List MouseCommand)
next_parts none split = none
next_parts (some (part, left)) split =
    let rest = split left in
    if no_motion left
    then some (part ∷ [])
    else elim rest [ none ↦ none | some parts ↦ some (part ∷ parts) ]

-- The loop with room for `n` more reports; `none` is its `return {}`, also where the room is used up
-- and motion remains.
unfoldable pub split_loop : ℕ → MouseProfile → MouseCommand → Option (List MouseCommand)
split_loop zero m c = none
split_loop (suc n) m c = next_parts (take_part m c) (split_loop n m)

abbrev or_empty : Option (List MouseCommand) → List MouseCommand
or_empty none = []
or_empty (some parts) = parts

unfoldable pub split_mouse_command : MouseProfile → MouseCommand → List MouseCommand
split_mouse_command m c =
    if not (and_not c.buttons (supported_of m.buttons) == 0)
    then []
    else or_empty (split_loop max_parts m c)
