-- ===== src/Hid/Buttons.antt =====
-- mouse_protocol.h: the bits of a report that `put_buttons` writes, read again by `get`.
use usb_proxy_udp.Base.{
  ℕ, ◌+◌, ◌*◌, ◌/◌, ◌%◌, ◌^◌, ◌<◌, ◌≡◌, ◌≢◌, List, [], ◌∷◌, false, arith, length, set, ltb, ◌⊎◌,
  inl, inr, ap, ◌∙◌, sym, subst, get_or, Bool-cases, get_or-set_self, length-set, ◌==◌,
  get_or-set_ne, set_outside, bit_or, ◌||◌, ◌-◌, refl,
}
use usb_proxy_udp.Base.Digits.{digit, digit_shifted, written_self, written_other}
use usb_proxy_udp.Base.Int.{pos, ltb_ℤ, to_u32}
use usb_proxy_udp.Hid.{HidField, bit_at, set_bit, get_bits, get, put, put_bits, put_mask}

-- The bit of a report is written and read.
bit_at-digit : (p : List ℕ) (k : ℕ) → bit_at p k ≡ digit (get_or p (k / 8) 0) (k % 8)
unfolding bit_at
bit_at-digit p k = digit_shifted (k % 8) (get_or p (k / 8) 0)

length-set_bit : (p : List ℕ) (k v : ℕ) → length (set_bit p k v) ≡ length p
unfolding set_bit
length-set_bit p k v = length-set p (k / 8) _

set_bit_self : (p : List ℕ) (k : ℕ) → k < 8 * length p → bit_at (set_bit p k 1) k ≡ 1
unfolding set_bit
set_bit_self p k inside =
    bit_at-digit (set_bit p k 1) k
    ∙ ap (λ (b : ℕ). digit b (k % 8)) (get_or-set_self p (k / 8) _ 0 (omega arith))
    ∙ written_self (get_or p (k / 8) 0) (k % 8) (omega arith)

set_bit_byte :
    (p : List ℕ) (k j v : ℕ)
    → k ≢ j
    → v < 2
    → digit (get_or (set_bit p k v) (j / 8) 0) (j % 8) ≡ digit (get_or p (j / 8) 0) (j % 8)
unfolding set_bit
set_bit_byte p k j v other bit = elim (Bool-cases (k / 8 == j / 8)) [
  | inr apart ↦
      ap (λ (b : ℕ). digit b (j % 8)) (get_or-set_ne p (k / 8) (j / 8) _ 0 (ground (arith, apart)))
  | inl same ↦ elim (Bool-cases (ltb (k / 8) (length p))) [
    | inr outside ↦
        ap (λ (q : List ℕ). digit (get_or q (j / 8) 0) (j % 8))
          (set_outside p (k / 8) _ (ground (arith, outside)))
    | inl inside ↦
        let here : k / 8 ≡ j / 8 = ground (arith, same) in
        subst (λ (n : ℕ). digit (get_or (set_bit p k v) n 0) (j % 8) ≡ digit (get_or p n 0) (j % 8))
          here
          (ap (λ (b : ℕ). digit b (j % 8)) (get_or-set_self p (k / 8) _ 0 (ground (arith, inside)))
            ∙ written_other (get_or p (k / 8) 0) (k % 8) (j % 8) v (omega arith) (omega arith)
                (λ e. other (omega (arith, here, e))) bit)
  ]
]

set_bit_other : (p : List ℕ) (k j v : ℕ) → k ≢ j → v < 2 → bit_at (set_bit p k v) j ≡ bit_at p j
set_bit_other p k j v other bit =
    bit_at-digit (set_bit p k v) j ∙ set_bit_byte p k j v other bit ∙ sym (bit_at-digit p j)

-- The field of a button is one bit that can be set; `put` writes it or, beyond its range, nothing.
module _ (f : HidField) (p : List ℕ) (bits : f.bits ≡ 1) where
  one_round : (v : ℕ) → v < 2 → put_bits p f.offset (to_u32 (pos v)) f.bits ≡ set_bit p f.offset v
  unfolding put_bits
  one_round v small =
      let here : f.offset + 0 ≡ f.offset = omega arith in
      let low : v % 2 ^ 32 / 2 ^ 0 % 2 ≡ v = omega arith in
      ap (λ (n : ℕ). put_bits p f.offset (to_u32 (pos v)) n) bits
      ∙ ap (λ (k : ℕ). set_bit p k (v % 2 ^ 32 / 2 ^ 0 % 2)) here
      ∙ ap (λ (b : ℕ). set_bit p f.offset b) low

  one_bit : bit_at p f.offset ≡ 1 → get_bits p f.offset f.bits ≡ 1
  unfolding get_bits
  one_bit one =
      let here : f.offset + 0 ≡ f.offset = omega arith in
      ap (λ (n : ℕ). get_bits p f.offset n) bits
      ∙ ap (λ (k : ℕ). bit_or (bit_at p k * 2 ^ 0) 0) here
      ∙ ap (λ (b : ℕ). bit_or (b * 2 ^ 0) 0) one

  put_bit :
      (v : ℕ) → v < 2 → ((put f p (pos v)).0 ≡ set_bit p f.offset v) ⊎ ((put f p (pos v)).0 ≡ p)
  unfolding put
  put_bit v small = elim (Bool-cases (ltb_ℤ (pos v) f.minimum || ltb_ℤ f.maximum (pos v))) [
    | inl refused ↦ inr (ground (arith, bits, refused))
    | inr taken ↦ inl (ground (arith, bits, taken, one_round v small))
  ]

  length-put_bit : (v : ℕ) → v < 2 → length (put f p (pos v)).0 ≡ length p
  length-put_bit v small = elim (put_bit v small) [
    | inl set ↦ ap length set ∙ length-set_bit p f.offset v
    | inr kept ↦ ap length kept
  ]

  put_bit_other : (j v : ℕ) → v < 2 → f.offset ≢ j → bit_at (put f p (pos v)).0 j ≡ bit_at p j
  put_bit_other j v small other = elim (put_bit v small) [
    | inl set ↦ ap (λ (q : List ℕ). bit_at q j) set ∙ set_bit_other p f.offset j v other small
    | inr kept ↦ ap (λ (q : List ℕ). bit_at q j) kept
  ]

  put_bit_self :
      ltb_ℤ (pos 1) f.minimum ≡ false
      → ltb_ℤ f.maximum (pos 1) ≡ false
      → f.offset < 8 * length p
      → bit_at (put f p (pos 1)).0 f.offset ≡ 1
  unfolding put
  put_bit_self low high inside =
      let set : (put f p (pos 1)).0 ≡ set_bit p f.offset 1 =
        ground (arith, bits, low, high, one_round 1 (omega arith)) in
      ap (λ (q : List ℕ). bit_at q f.offset) set ∙ set_bit_self p f.offset inside

  pub get_bit : bit_at p f.offset ≡ 1 → get f p ≢ pos 0
  unfolding get
  get_bit one same = ground (arith, bits, one_bit one, same)

-- No field starts at bit `k`.
abbrev NoneAt : ℕ → List (ℕ × HidField) → Type 0
NoneAt k [] = Unit {0}
NoneAt k ((b, f) ∷ bs) = (f.offset ≢ k) × NoneAt k bs

-- Each button is a bit of its own, within `limit` bits.
abbrev pub AreBits : ℕ → List (ℕ × HidField) → Type 0
AreBits limit [] = Unit {0}
AreBits limit ((b, f) ∷ bs) =
    (f.bits ≡ 1) × (f.offset < limit) × NoneAt f.offset bs × AreBits limit bs

-- The field is the one of button `b`.
abbrev pub IsFieldOf : ℕ → HidField → List (ℕ × HidField) → Type 0
IsFieldOf b f [] = ⊥
IsFieldOf b f ((key, field) ∷ bs) = ((key ≡ b) × (field ≡ f)) ⊎ IsFieldOf b f bs

put_mask_other :
    (limit mask k : ℕ) (bs : List (ℕ × HidField)) (p : List ℕ)
    → AreBits limit bs
    → NoneAt k bs
    → bit_at (put_mask bs p mask) k ≡ bit_at p k
unfolding put_mask
put_mask_other limit mask k [] p h none_here = refl
put_mask_other limit mask k ((b, f) ∷ bs) p (one, _, _, more) (other, others) =
    let v = mask / 2 ^ (b - 1) % 2 in
    put_mask_other limit mask k bs (put f p (pos v)).0 more others
    ∙ put_bit_other f p one k v (omega arith) other

pub length-put_mask :
    (limit mask : ℕ) (bs : List (ℕ × HidField)) (p : List ℕ)
    → AreBits limit bs
    → length (put_mask bs p mask) ≡ length p
unfolding put_mask
length-put_mask limit mask [] p h = refl
length-put_mask limit mask ((b, f) ∷ bs) p (one, _, _, more) =
    let v = mask / 2 ^ (b - 1) % 2 in
    length-put_mask limit mask bs (put f p (pos v)).0 more ∙ length-put_bit f p one v (omega arith)

-- A button of the mask can be read from the report that `put_buttons` leaves.
pub put_mask_shows :
    (mask b : ℕ) (f : HidField) (bs : List (ℕ × HidField)) (p : List ℕ)
    → AreBits (8 * length p) bs
    → IsFieldOf b f bs
    → ltb_ℤ (pos 1) f.minimum ≡ false
    → ltb_ℤ f.maximum (pos 1) ≡ false
    → mask / 2 ^ (b - 1) % 2 ≡ 1
    → (bit_at (put_mask bs p mask) f.offset ≡ 1) × (f.bits ≡ 1)
unfolding put_mask
put_mask_shows mask b f [] p h found low high held = absurd found
put_mask_shows mask b f ((key, field) ∷ bs) p (one, inside, apart, more) (inr later) low high held =
    let v = mask / 2 ^ (key - 1) % 2 in
    let q = (put field p (pos v)).0 in
    let same : length q ≡ length p = length-put_bit field p one v (omega arith) in
    put_mask_shows mask b f bs q (subst (λ (n : ℕ). AreBits (8 * n) bs) (sym same) more) later low
      high held
put_mask_shows mask b f ((key, field) ∷ bs) p (one, inside, apart, more) (inl (here, at)) low high
      held =
    let v = mask / 2 ^ (key - 1) % 2 in
    let set : v ≡ 1 = ap (λ (k : ℕ). mask / 2 ^ (k - 1) % 2) here ∙ held in
    let accepts_low : ltb_ℤ (pos 1) field.minimum ≡ false = cc (at, low) in
    let accepts_high : ltb_ℤ field.maximum (pos 1) ≡ false = cc (at, high) in
    subst
      (λ (g : HidField).
        (bit_at (put_mask bs (put field p (pos v)).0 mask) g.offset ≡ 1) × (g.bits ≡ 1))
      at
      (
        put_mask_other (8 * length p) mask field.offset bs (put field p (pos v)).0 more apart
            ∙ ap (λ (n : ℕ). bit_at (put field p (pos n)).0 field.offset) set
            ∙ put_bit_self field p one accepts_low accepts_high inside,
        one,
      )
