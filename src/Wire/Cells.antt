-- ===== src/Wire/Cells.antt =====
-- A buffer of a known length as its bytes one by one, for the proofs that a packet is determined by
-- what a parser reads from it.
use usb_proxy_udp.Base.{
  ℕ, zero, suc, ◌≡◌, refl, ap, List, [], ◌∷◌, length, arith, ◌+◌, ◌/◌, ◌%◌, ◌^◌, ◌<◌,
}
use usb_proxy_udp.Wire.{byte_at, word16, word32, word64, get16, get32, get64}
use usb_proxy_udp.Wire.Words.{
  IsByte, word16-eq_sum, bytes_word64, digits_word32, digits_word64, word32-lt,
}

-- b i, b (i + 1), … for n cells.
abbrev pub cells_from : ℕ → ℕ → (ℕ → ℕ) → List ℕ
cells_from zero i b = []
cells_from (suc n) i b = b i ∷ cells_from n (suc i) b

cells_from-suc :
    (n i : ℕ) (b c : ℕ → ℕ)
    → ((j : ℕ) → b (suc j) ≡ c j)
    → cells_from n (suc i) b ≡ cells_from n i c
cells_from-suc zero i b c h = refl
cells_from-suc (suc n) i b c h = λ k. h i k ∷ cells_from-suc n (suc i) b c h k

pub eq-cells : (p : List ℕ) → p ≡ cells_from (length p) 0 (byte_at p)
eq-cells [] = refl
eq-cells (x ∷ p) =
    rw (cells_from-suc (length p) 0 (byte_at (x ∷ p)) (byte_at p) (λ j. refl))
      (ap (◌∷◌ x) (eq-cells p))

-- All elements of the buffer are bytes.
abbrev pub AllBytes : List ℕ → Type 0
AllBytes [] = Unit
AllBytes (x ∷ p) = IsByte x × AllBytes p

pub byte_at-IsByte : (p : List ℕ) → AllBytes p → (i : ℕ) → IsByte (byte_at p i)
byte_at-IsByte [] h i = omega arith
byte_at-IsByte (x ∷ p) h zero = h.0
byte_at-IsByte (x ∷ p) h (suc i) = byte_at-IsByte p h.1 i

-- The bytes of `put64` and of `put32` at `at`, for what `get64` and `get32` have read there.
module _ (b : ℕ → ℕ) (h : (i : ℕ) → IsByte (b i)) (at : ℕ) where
  pub rewrite64 :
      let v =
        word64
          (word32 (b at) (b (at + 1)) (b (at + 2)) (b (at + 3)))
          (word32 (b (at + 4)) (b (at + 5)) (b (at + 6)) (b (at + 7))) in
      (v / 2 ^ 32 % 2 ^ 32 / 256 / 256 / 256 % 256 ≡ b at)
      × (v / 2 ^ 32 % 2 ^ 32 / 256 / 256 % 256 ≡ b (at + 1))
      × (v / 2 ^ 32 % 2 ^ 32 / 256 % 256 ≡ b (at + 2))
      × (v / 2 ^ 32 % 2 ^ 32 % 256 ≡ b (at + 3))
      × (v % 2 ^ 32 / 256 / 256 / 256 % 256 ≡ b (at + 4))
      × (v % 2 ^ 32 / 256 / 256 % 256 ≡ b (at + 5))
      × (v % 2 ^ 32 / 256 % 256 ≡ b (at + 6))
      × (v % 2 ^ 32 % 256 ≡ b (at + 7))
  rewrite64 =
      bytes_word64 (b at) (b (at + 1)) (b (at + 2)) (b (at + 3)) (b (at + 4)) (b (at + 5))
        (b (at + 6)) (b (at + 7)) (h _) (h _) (h _) (h _) (h _) (h _) (h _) (h _)

  pub rewrite32 :
      let v = word32 (b at) (b (at + 1)) (b (at + 2)) (b (at + 3)) in
      (v / 256 / 256 / 256 % 256 ≡ b at)
      × (v / 256 / 256 % 256 ≡ b (at + 1))
      × (v / 256 % 256 ≡ b (at + 2))
      × (v % 256 ≡ b (at + 3))
  rewrite32 = digits_word32 (b at) (b (at + 1)) (b (at + 2)) (b (at + 3)) (h _) (h _) (h _) (h _)

  -- A word that is 0 has no byte but 0.
  pub word32-zero :
      word32 (b at) (b (at + 1)) (b (at + 2)) (b (at + 3)) ≡ 0
      → (0 ≡ b at) × (0 ≡ b (at + 1)) × (0 ≡ b (at + 2)) × (0 ≡ b (at + 3))
  word32-zero e = omega (arith, rewrite32)

  pub word16-zero : word16 (b at) (b (at + 1)) ≡ 0 → (0 ≡ b at) × (0 ≡ b (at + 1))
  word16-zero e = omega (arith, word16-eq_sum (b at) (b (at + 1)) (h _))

  pub rewrite16 :
      let v = word16 (b at) (b (at + 1)) in (v / 256 % 256 ≡ b at) × (v % 256 ≡ b (at + 1))
  rewrite16 = omega (arith, word16-eq_sum (b at) (b (at + 1)) (h _), h at)

pub get32-lt : (p : List ℕ) (at : ℕ) → AllBytes p → get32 p at < 2 ^ 32
get32-lt p at h =
    word32-lt (byte_at p at) (byte_at p (at + 1)) (byte_at p (at + 2)) (byte_at p (at + 3))
      (byte_at-IsByte p h _) (byte_at-IsByte p h _) (byte_at-IsByte p h _) (byte_at-IsByte p h _)

pub get64-lt : (p : List ℕ) (at : ℕ) → AllBytes p → get64 p at < 2 ^ 64
get64-lt p at h =
    (digits_word64 (get32 p at) (get32 p (at + 4)) (get32-lt p at h) (get32-lt p (at + 4) h)).2

pub get16-lt : (p : List ℕ) (at : ℕ) → AllBytes p → get16 p at < 2 ^ 16
get16-lt p at h = omega (
  arith,
  word16-eq_sum (byte_at p at) (byte_at p (at + 1)) (byte_at-IsByte p h _),
  byte_at-IsByte p h at,
  byte_at-IsByte p h (at + 1),
)
