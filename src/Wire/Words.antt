-- ===== src/Wire/Words.antt =====
-- Laws of the big-endian words: the digits that the writers store are put together again by the
-- readers, and the other way round.
use usb_proxy_udp.Base.{ℕ, ◌+◌, ◌*◌, ◌/◌, ◌%◌, ◌^◌, ◌<◌, ◌≡◌, arith, bit_or}
use usb_proxy_udp.Base.Int.{ℤ, pos, negsuc, ◌≤ℤ◌, to_u32}
use usb_proxy_udp.Base.Bits.{bit_or_fields}
use usb_proxy_udp.Wire.{word16, word32, word64, signed32}

abbrev pub IsByte : ℕ → Type 0
IsByte b = b < 256

-- An `|` onto a word whose low `k` bits are clear.
bit_or_clear : (k s q r : ℕ) → s ≡ q * 2 ^ k → r < 2 ^ k → bit_or s r ≡ s + r
bit_or_clear k s q r e fits = rw e (bit_or_fields k q r fits)

pub word16-eq_sum : (a b : ℕ) → IsByte b → word16 a b ≡ a * 256 + b
unfolding word16
word16-eq_sum a b hb = omega (arith, bit_or_fields 8 a b)

pub word32-eq_sum :
    (a b c d : ℕ)
    → IsByte b
    → IsByte c
    → IsByte d
    → word32 a b c d ≡ a * 16_777_216 + b * 65536 + c * 256 + d
unfolding word32
word32-eq_sum a b c d hb hc hd =
    rw (bit_or_clear 24 (a * 16_777_216) a (b * 65536) (omega arith) (omega arith)) (
      rw
        (bit_or_clear 16 (a * 16_777_216 + b * 65536) (a * 256 + b) (c * 256) (omega arith)
          (omega arith))
        (bit_or_clear 8 (a * 16_777_216 + b * 65536 + c * 256) (a * 65536 + b * 256 + c) d
          (omega arith) hd))

pub word64-eq_sum : (hi lo : ℕ) → lo < 2 ^ 32 → word64 hi lo ≡ hi * 4_294_967_296 + lo
unfolding word64
word64-eq_sum hi lo h = bit_or_fields 32 hi lo h

-- The readers undo the writers.
pub word16_digits : (v : ℕ) → v < 2 ^ 16 → word16 (v / 256 % 256) (v % 256) ≡ v
word16_digits v h = omega (arith, word16-eq_sum (v / 256 % 256) (v % 256))

pub word32_digits :
    (v : ℕ)
    → v < 2 ^ 32
    → word32 (v / 256 / 256 / 256 % 256) (v / 256 / 256 % 256) (v / 256 % 256) (v % 256) ≡ v
word32_digits v h = omega (
  arith,
  word32-eq_sum (v / 256 / 256 / 256 % 256) (v / 256 / 256 % 256) (v / 256 % 256) (v % 256),
)

-- A 64-bit value goes out as two words; each comes back as its 32-bit half.
pub word64_digits :
    (v hi lo : ℕ) → v < 2 ^ 64 → hi ≡ v / 2 ^ 32 % 2 ^ 32 → lo ≡ v % 2 ^ 32 → word64 hi lo ≡ v
word64_digits v hi lo h p q = omega (arith, word64-eq_sum hi lo)

-- The writers undo the readers, digit by digit.
pub digits_word32 :
    (a b c d : ℕ)
    → IsByte a
    → IsByte b
    → IsByte c
    → IsByte d
    → (word32 a b c d / 256 / 256 / 256 % 256 ≡ a)
      × (word32 a b c d / 256 / 256 % 256 ≡ b)
      × (word32 a b c d / 256 % 256 ≡ c)
      × (word32 a b c d % 256 ≡ d)
digits_word32 a b c d ha hb hc hd = omega (arith, word32-eq_sum a b c d)

pub word32-lt :
    (a b c d : ℕ) → IsByte a → IsByte b → IsByte c → IsByte d → word32 a b c d < 4_294_967_296
word32-lt a b c d ha hb hc hd = omega (arith, word32-eq_sum a b c d)

pub digits_word64 :
    (hi lo : ℕ)
    → hi < 2 ^ 32
    → lo < 2 ^ 32
    → (word64 hi lo / 2 ^ 32 % 2 ^ 32 ≡ hi) × (word64 hi lo % 2 ^ 32 ≡ lo) × (word64 hi lo < 2 ^ 64)
digits_word64 hi lo hh hl = omega (arith, word64-eq_sum hi lo)

-- An `int32_t` survives the cast to `uint32_t` and back.
pub signed32-to_u32 :
    (n : ℤ) → negsuc 0x7fff_ffff ≤ℤ n → n ≤ℤ pos 0x7fff_ffff → signed32 (to_u32 n) ≡ n
unfolding signed32
signed32-to_u32 n lo hi = ground arith

pub to_u32-lt : (n : ℤ) → to_u32 n < 4_294_967_296
to_u32-lt (pos n) = omega arith
to_u32-lt (negsuc n) = omega arith

-- The eight bytes of `put64` put together again.
pub word64_bytes :
    (v : ℕ)
    → v < 2 ^ 64
    → word64
        (word32
          (v / 2 ^ 32 % 2 ^ 32 / 256 / 256 / 256 % 256)
          (v / 2 ^ 32 % 2 ^ 32 / 256 / 256 % 256)
          (v / 2 ^ 32 % 2 ^ 32 / 256 % 256)
          (v / 2 ^ 32 % 2 ^ 32 % 256))
        (word32
          (v % 2 ^ 32 / 256 / 256 / 256 % 256)
          (v % 2 ^ 32 / 256 / 256 % 256)
          (v % 2 ^ 32 / 256 % 256)
          (v % 2 ^ 32 % 256))
      ≡ v
word64_bytes v h =
    word64_digits v _ _ h (word32_digits _ (omega arith)) (word32_digits _ (omega arith))

-- The eight bytes that `get64` has read, written again by `put64`.
pub bytes_word64 :
    (a b c d e f g h : ℕ)
    → IsByte a
    → IsByte b
    → IsByte c
    → IsByte d
    → IsByte e
    → IsByte f
    → IsByte g
    → IsByte h
    → let v = word64 (word32 a b c d) (word32 e f g h) in
      (v / 2 ^ 32 % 2 ^ 32 / 256 / 256 / 256 % 256 ≡ a)
      × (v / 2 ^ 32 % 2 ^ 32 / 256 / 256 % 256 ≡ b)
      × (v / 2 ^ 32 % 2 ^ 32 / 256 % 256 ≡ c)
      × (v / 2 ^ 32 % 2 ^ 32 % 256 ≡ d)
      × (v % 2 ^ 32 / 256 / 256 / 256 % 256 ≡ e)
      × (v % 2 ^ 32 / 256 / 256 % 256 ≡ f)
      × (v % 2 ^ 32 / 256 % 256 ≡ g)
      × (v % 2 ^ 32 % 256 ≡ h)
bytes_word64 a b c d e f g h ha hb hc hd he hf hg hh = omega (
  arith,
  digits_word64 (word32 a b c d) (word32 e f g h) (word32-lt a b c d ha hb hc hd)
      (word32-lt e f g h he hf hg hh),
  digits_word32 a b c d ha hb hc hd,
  digits_word32 e f g h he hf hg hh,
)
