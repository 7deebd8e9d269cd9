-- ===== src/Prelude/Int.antt =====
-- Signed integers over the native numbers, under the library's names (its ℤ stands on the unary ℕ).
use kubehealth.Prelude.{
  ℕ, suc, ◌+◌, ◌-◌, ◌%◌, ◌^◌, ◌≤◌, ◌<◌, ◌≡◌, Bool, arith, ltb, leb, if◌then◌else◌,
}

-- `negsuc n` is -(n + 1).
pub data ℤ : Type 0 where
  pos : ℕ → ℤ
  negsuc : ℕ → ℤ

abbrev pub pos_part : ℤ → ℕ
pos_part (pos n) = n
pos_part (negsuc n) = 0

abbrev pub neg_part : ℤ → ℕ
neg_part (pos n) = 0
neg_part (negsuc n) = suc n

-- a - b, as an integer.
abbrev pub sub_ℕ : ℕ → ℕ → ℤ
sub_ℕ a b = if leb b a then pos (a - b) else negsuc (b - a - 1)

abbrev pub ltb_ℤ : ℤ → ℤ → Bool
ltb_ℤ a b = ltb (pos_part a + neg_part b) (pos_part b + neg_part a)

abbrev pub leb_ℤ : ℤ → ℤ → Bool
leb_ℤ a b = leb (pos_part a + neg_part b) (pos_part b + neg_part a)

abbrev pub abs : ℤ → ℕ
abs (pos n) = n
abs (negsuc n) = suc n

-- Go's int64: a sum that leaves the range comes back at its other end.
abbrev pub bits64 : ℤ → ℕ
bits64 z = (pos_part z + (2 ^ 64 - neg_part z % 2 ^ 64)) % 2 ^ 64

abbrev pub wrap64 : ℤ → ℤ
wrap64 z = let b = bits64 z in if ltb b (2 ^ 63) then pos b else negsuc (2 ^ 64 - b - 1)

unfoldable pub add_int64 : ℤ → ℤ → ℤ
add_int64 a b = wrap64 (sub_ℕ (pos_part a + pos_part b) (neg_part a + neg_part b))

-- A sum of two numbers that stays below 2^63 is exact.
pub add_int64_exact : (a b : ℕ) → a + b < 2 ^ 63 → add_int64 (pos a) (pos b) ≡ pos (a + b)
unfolding add_int64
add_int64_exact a b h = ground arith

-- Whatever the summands, the result is an int64.
pub add_int64_range :
    (a b : ℤ) → (pos_part (add_int64 a b) < 2 ^ 63) × (neg_part (add_int64 a b) ≤ 2 ^ 63)
unfolding add_int64
add_int64_range a b = ground arith
