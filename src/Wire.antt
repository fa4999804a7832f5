-- ===== src/Wire.antt =====
-- The byte buffers of the wire formats (click_protocol.h, move_protocol.h): big-endian words written
-- into and read from a `uint8_t` buffer, which is a list of numbers. A read past the end gives 0 and
-- a write past the end changes nothing; the parsers check the length first, so neither happens.
pub mod Words
pub mod Cells
use usb_proxy_udp.Base.{
  ℕ, zero, suc, ◌+◌, ◌*◌, ◌/◌, ◌%◌, ◌^◌, List, [], ◌∷◌, Bool, true, ◌&&◌, bit_or, get_or, set, ◌==◌,
}
use usb_proxy_udp.Base.Int.{ℤ, pos, sub_ℕ}
use usb_proxy_udp.Base.{leb, if◌then◌else◌}

abbrev pub byte_at : List ℕ → ℕ → ℕ
byte_at p i = get_or p i 0

-- for (i = n - 1; i >= 0; --i) { p[at + i] = uint8_t(v); v >>= 8; }
unfoldable pub put_bytes : List ℕ → ℕ → ℕ → ℕ → List ℕ
put_bytes p at zero v = p
put_bytes p at (suc i) v = put_bytes (set p (at + i) (v % 256)) at i (v / 256)

unfoldable pub put16 : List ℕ → ℕ → ℕ → List ℕ
put16 p at v = set (set p at (v / 256 % 256)) (at + 1) (v % 256)

unfoldable pub put32 : List ℕ → ℕ → ℕ → List ℕ
unfolding put_bytes
put32 p at v = put_bytes p at 4 v

unfoldable pub put64 : List ℕ → ℕ → ℕ → List ℕ
unfolding put32
put64 p at v = put32 (put32 p at (v / 2 ^ 32 % 2 ^ 32)) (at + 4) (v % 2 ^ 32)

-- uint16_t(a) << 8 | b
unfoldable pub word16 : ℕ → ℕ → ℕ
word16 a b = bit_or (a * 2 ^ 8) b

-- uint32_t(a) << 24 | uint32_t(b) << 16 | uint32_t(c) << 8 | d
unfoldable pub word32 : ℕ → ℕ → ℕ → ℕ → ℕ
word32 a b c d = bit_or (bit_or (bit_or (a * 2 ^ 24) (b * 2 ^ 16)) (c * 2 ^ 8)) d

-- uint64_t(hi) << 32 | lo
unfoldable pub word64 : ℕ → ℕ → ℕ
word64 hi lo = bit_or (hi * 2 ^ 32) lo

abbrev pub get16 : List ℕ → ℕ → ℕ
get16 p at = word16 (byte_at p at) (byte_at p (at + 1))

abbrev pub get32 : List ℕ → ℕ → ℕ
get32 p at = word32 (byte_at p at) (byte_at p (at + 1)) (byte_at p (at + 2)) (byte_at p (at + 3))

abbrev pub get64 : List ℕ → ℕ → ℕ
get64 p at = word64 (get32 p at) (get32 p (at + 4))

-- int32_t from its two's complement pattern.
unfoldable pub signed32 : ℕ → ℤ
signed32 n = if leb n 0x7fff_ffff then pos n else sub_ℕ n (2 ^ 32)

-- std::memcmp(p, magic, magic.size()) == 0
abbrev pub has_magic : List ℕ → List ℕ → Bool
has_magic p [] = true
has_magic [] (m ∷ ms) = 0 == 1
has_magic (x ∷ p) (m ∷ ms) = x == m && has_magic p ms

-- Every byte of p[at .. at + n) is 0.
abbrev pub zero_bytes : List ℕ → ℕ → ℕ → Bool
zero_bytes p at zero = true
zero_bytes p at (suc n) = byte_at p at == 0 && zero_bytes p (at + 1) n

-- std::memcpy(p, bytes, bytes.size()) at the start of the buffer.
abbrev pub copy_into : List ℕ → List ℕ → List ℕ
copy_into p [] = p
copy_into [] (b ∷ bytes) = []
copy_into (x ∷ p) (b ∷ bytes) = b ∷ copy_into p bytes
