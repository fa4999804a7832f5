-- ===== src/Base/Digits.antt =====
-- The binary digits of `bit_and` and `bit_or`, and those of the byte in which one bit is written.
use Prim.Native.Nat.{
  ℕ, zero, suc, ◌+◌, ◌*◌, ◌-◌, ◌/◌, ◌%◌, ◌^◌, ◌≤◌, ◌<◌, min, max, bit_and, bit_or, digits,
  bit_and-bitwise,
}
use mathlib.Core.Path.{◌≡◌, refl, sym, ap, ◌∙◌}
use mathlib.Core.Logic.{◌≢◌}
use mathlib.Core.Bool.{true, ◌&&◌}
use native.Mathlib.Omega.{arith}
use native.Mathlib.Nat.{pow-suc, div-div-eq-div-mul}
use usb_proxy_udp.Base.Tests.{◌==◌, if◌then◌else◌}
use usb_proxy_udp.Base.Bits.{bit_or_halves, every, every_sound}

-- The recursion that `bit_and` stands for, with its fuel.
abbrev and_digits : ℕ → ℕ → ℕ → ℕ
and_digits fuel a b = digits (λ t. zero) min fuel a b

and_digits_enough : (n m a b : ℕ) → a ≤ n → a ≤ m → and_digits n a b ≡ and_digits m a b
and_digits_enough zero zero a b p q = refl
and_digits_enough zero (suc m) zero b p q = refl
and_digits_enough zero (suc m) (suc a) b p q = absurd (omega arith)
and_digits_enough (suc n) zero zero b p q = refl
and_digits_enough (suc n) zero (suc a) b p q = absurd (omega arith)
and_digits_enough (suc n) (suc m) zero b p q = refl
and_digits_enough (suc n) (suc m) (suc a) b p q =
    omega (arith, and_digits_enough n m (suc a / 2) (b / 2) (omega arith) (omega arith))

bit_and_halves : (a b : ℕ) → bit_and a b ≡ 2 * bit_and (a / 2) (b / 2) + min (a % 2) (b % 2)
bit_and_halves zero b = omega (arith, bit_and-bitwise 0 b, bit_and-bitwise 0 (b / 2))
bit_and_halves (suc a) b = omega (
  arith,
  bit_and-bitwise (suc a) b,
  bit_and-bitwise (suc a / 2) (b / 2),
  and_digits_enough a (suc a / 2) (suc a / 2) (b / 2) (omega arith) (omega arith),
)

-- Digit `k` of a number.
unfoldable pub digit : ℕ → ℕ → ℕ
digit x zero = x % 2
digit x (suc k) = digit (x / 2) k

pub digit_shifted : (k x : ℕ) → x / 2 ^ k % 2 ≡ digit x k
unfolding digit
digit_shifted zero x = omega arith
digit_shifted (suc k) x =
    let doubled : 2 ^ suc k ≡ 2 * 2 ^ k = omega (arith, pow-suc 2 k) in
    ap (λ (p : ℕ). x / p % 2) doubled
    ∙ ap (λ (q : ℕ). q % 2) (sym (div-div-eq-div-mul x 2 (2 ^ k)))
    ∙ digit_shifted k (x / 2)

pub digit-bit_or : (k a b : ℕ) → digit (bit_or a b) k ≡ max (digit a k) (digit b k)
unfolding digit
digit-bit_or zero a b = omega (arith, bit_or_halves a b)
digit-bit_or (suc k) a b =
    let half : bit_or a b / 2 ≡ bit_or (a / 2) (b / 2) = omega (arith, bit_or_halves a b) in
    ap (λ (t : ℕ). digit t k) half ∙ digit-bit_or k (a / 2) (b / 2)

digit-bit_and : (k a b : ℕ) → digit (bit_and a b) k ≡ min (digit a k) (digit b k)
unfolding digit
digit-bit_and zero a b = omega (arith, bit_and_halves a b)
digit-bit_and (suc k) a b =
    let half : bit_and a b / 2 ≡ bit_and (a / 2) (b / 2) = omega (arith, bit_and_halves a b) in
    ap (λ (t : ℕ). digit t k) half ∙ digit-bit_and k (a / 2) (b / 2)

-- A byte with bit `i` written.
abbrev written : ℕ → ℕ → ℕ → ℕ
written x i v = bit_or (bit_and x (255 - 2 ^ i)) (v * 2 ^ i)

table :
    every
      (λ i.
        every
          (λ j.
            digit (255 - 2 ^ i) j == (if i == j then 0 else 1)
            && digit (0 * 2 ^ i) j == 0
            && digit (1 * 2 ^ i) j == (if i == j then 1 else 0))
          8)
      8
    ≡ true
unfolding every digit
table = refl

at_table :
    (i j : ℕ)
    → i < 8
    → j < 8
    → (digit (255 - 2 ^ i) j ≡ (if i == j then 0 else 1))
      × (digit (0 * 2 ^ i) j ≡ 0)
      × (digit (1 * 2 ^ i) j ≡ (if i == j then 1 else 0))
at_table i j small_i small_j =
    let row = every_sound _ 8 i small_i table in
    let entry = every_sound _ 8 j small_j row in ground (arith, entry)

-- The bit that is written as 1 is 1, and the other bits stay.
pub written_self : (x i : ℕ) → i < 8 → digit (written x i 1) i ≡ 1
written_self x i small = ground (
  arith,
  digit-bit_or i (bit_and x (255 - 2 ^ i)) (1 * 2 ^ i),
  digit-bit_and i x (255 - 2 ^ i),
  at_table i i small small,
)

digit-IsSmall : (x k : ℕ) → digit x k ≤ 1
unfolding digit
digit-IsSmall x zero = omega arith
digit-IsSmall x (suc k) = digit-IsSmall (x / 2) k

pub written_other :
    (x i j v : ℕ) → i < 8 → j < 8 → i ≢ j → v < 2 → digit (written x i v) j ≡ digit x j
written_other x i j zero small_i small_j other bit = ground (
  arith,
  digit-bit_or j (bit_and x (255 - 2 ^ i)) (0 * 2 ^ i),
  digit-bit_and j x (255 - 2 ^ i),
  at_table i j small_i small_j,
  digit-IsSmall x j,
)
written_other x i j (suc zero) small_i small_j other bit = ground (
  arith,
  digit-bit_or j (bit_and x (255 - 2 ^ i)) (1 * 2 ^ i),
  digit-bit_and j x (255 - 2 ^ i),
  at_table i j small_i small_j,
  digit-IsSmall x j,
)
written_other x i j (suc (suc v)) small_i small_j other bit = absurd (omega arith)
