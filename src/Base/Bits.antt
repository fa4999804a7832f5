-- ===== src/Base/Bits.antt =====
-- The bit operations of the source on native numbers: `bit_or` by its lowest digit, and of fields that
-- do not overlap as a sum; tables over all values of a small range.
use Prim.Native.Nat.{
  ℕ, zero, suc, ◌+◌, ◌*◌, ◌-◌, ◌/◌, ◌%◌, ◌^◌, ◌≤◌, ◌<◌, max, bit_or, digits, bit_or-bitwise,
}
use mathlib.Core.Path.{◌≡◌, refl, ap, ◌∙◌}
use mathlib.Core.Bool.{Bool, true, ◌&&◌}
use native.Mathlib.Omega.{arith}
use native.Mathlib.Nat.{pow-suc}

-- The recursion that `bit_or` stands for, which takes its first number as fuel.
abbrev or_digits : ℕ → ℕ → ℕ → ℕ
or_digits fuel x y = digits (λ t. t) max fuel x y

-- Fuel beyond the number is not used.
or_digits_spare : (fuel x y : ℕ) → x ≤ fuel → or_digits (suc fuel) x y ≡ or_digits fuel x y
or_digits_spare fuel zero y enough = by_fuel fuel
  where
    by_fuel : (n : ℕ) → or_digits (suc n) zero y ≡ or_digits n zero y
    by_fuel zero = refl
    by_fuel (suc n) = refl
or_digits_spare zero (suc x) y enough = absurd (omega arith)
or_digits_spare (suc fuel) (suc x) y enough =
    ap (λ (t : ℕ). t * 2 + max (suc x % 2) (y % 2))
      (or_digits_spare fuel (suc x / 2) (y / 2) (omega arith))

or_digits_more : (more x y : ℕ) → or_digits (more + x) x y ≡ or_digits x x y
or_digits_more zero x y = ap (λ (n : ℕ). or_digits n x y) (omega arith)
or_digits_more (suc more) x y =
    let move : suc more + x ≡ suc (more + x) = omega arith in
    ap (λ (n : ℕ). or_digits n x y) move
    ∙ or_digits_spare (more + x) x y (omega arith)
    ∙ or_digits_more more x y

or_digits_half : (x y : ℕ) → or_digits x (suc x / 2) y ≡ or_digits (suc x / 2) (suc x / 2) y
or_digits_half x y =
    let split : x ≡ x - suc x / 2 + suc x / 2 = omega arith in
    ap (λ (n : ℕ). or_digits n (suc x / 2) y) split ∙ or_digits_more (x - suc x / 2) (suc x / 2) y

pub bit_or_halves : (x y : ℕ) → bit_or x y ≡ 2 * bit_or (x / 2) (y / 2) + max (x % 2) (y % 2)
bit_or_halves zero y = omega (arith, bit_or-bitwise 0 y, bit_or-bitwise 0 (y / 2))
bit_or_halves (suc x) y =
    omega (
      arith,
      bit_or-bitwise (suc x) y,
      bit_or-bitwise (suc x / 2) (y / 2),
      or_digits_half x (y / 2),
    )

-- No field below: by recursion on a bound of the number.
bit_or_nothing : (bound x : ℕ) → x < bound → bit_or x 0 ≡ x
bit_or_nothing zero x small = absurd (omega arith)
bit_or_nothing (suc bound) zero small = bit_or-bitwise 0 0
bit_or_nothing (suc bound) (suc x) small =
    omega (arith, bit_or_halves (suc x) 0, bit_or_nothing bound (suc x / 2) (omega arith))

-- `(high << k) | low` is a sum when `low` fits `k` bits.
pub bit_or_fields : (k high low : ℕ) → low < 2 ^ k → bit_or (high * 2 ^ k) low ≡ high * 2 ^ k + low
bit_or_fields zero high low fits = ground (arith, bit_or_nothing (suc high) high)
bit_or_fields (suc k) high low fits =
    let shifted : high * 2 ^ suc k ≡ 2 * (high * 2 ^ k) =
      omega (arith, ap (λ (t : ℕ). high * t) (pow-suc 2 k)) in
    ground (
      arith,
      bit_or_halves (high * 2 ^ suc k) low,
      shifted,
      bit_or_fields k high (low / 2) (omega arith),
    )

-- A test that holds of all numbers below a bound.
unfoldable pub every : (ℕ → Bool) → ℕ → Bool
every test zero = true
every test (suc k) = every test k && test k

pub every_sound :
    (test : ℕ → Bool) (bound x : ℕ) → x < bound → every test bound ≡ true → test x ≡ true
unfolding every
every_sound test zero x small all = absurd (omega arith)
every_sound test (suc k) x small all = ground (arith, every_sound test k x)
