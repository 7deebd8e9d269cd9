-- ===== src/Tokens.antt =====
-- The rough token count of a prompt: `estimateTokens` (brief.go). Parameters: `unicode.IsLetter`,
-- `unicode.IsDigit`, and the weighted sum, which the program computes in floating point and cuts off.
use Prim.Native.Char.{code}
use Prim.Native.String.{[], ◌∷◌}
use kubehealth.Prelude.{
  ◌≡◌, refl, ◌⊎◌, inl, inr, ℕ, suc, ◌+◌, ◌≤◌, Bool, true, ◌||◌, String, arith, leb, ◌==◌,
  Bool-cases, if◌then◌else◌,
}
use kubehealth.Problems.Words.{is_space}

pub record Estimate : Type 0 where
  pub is_letter : ℕ → Bool
  pub is_digit : ℕ → Bool
  pub weigh : ℕ → ℕ → ℕ → ℕ → ℕ

-- `letters, digits, spaces, other`
pub record Runes : Type 0 where
  pub letters : ℕ
  pub digits : ℕ
  pub spaces : ℕ
  pub other : ℕ

abbrev count_rune : Estimate → ℕ → Runes → Runes
count_rune e c n =
    if e.is_letter c
    then record n { letters = suc n.letters }
    else if e.is_digit c
    then record n { digits = suc n.digits }
    else if is_space c
    then record n { spaces = suc n.spaces }
    else record n { other = suc n.other }

count_runes : Estimate → String → Runes → Runes
unfolding is_space
count_runes e [] n = n
count_runes e (c ∷ s) n = count_runes e s (count_rune e (code c) n)

abbrev no_runes : Runes
no_runes = record { letters = 0; digits = 0; spaces = 0; other = 0 }

-- `estimateTokens`
unfoldable pub estimate_tokens : Estimate → String → ℕ
unfolding count_runes
estimate_tokens e s =
    let n = count_runes e s no_runes in e.weigh n.letters n.digits n.other n.spaces + 1

-- The test of a budget, where 0 is none.
pub fits_or {ℓ} :
    {R : Type ℓ} (budget n : ℕ)
    → ((budget == 0) || leb n budget) ≡ true
    → (budget ≡ 0) ⊎ ((n ≤ budget) ⊎ R)
fits_or budget n f = elim (Bool-cases (budget == 0)) [
  | inl z ↦ inl (ground (arith, z))
  | inr z ↦ inr (inl (ground (arith, z, f)))
]

pub or_fits : (budget n : ℕ) → (budget ≡ 0) ⊎ (n ≤ budget) → ((budget == 0) || leb n budget) ≡ true
or_fits budget n (inl z) = rw z refl
or_fits budget n (inr le) = elim (Bool-cases (budget == 0)) [
  | inl z ↦ rw z refl
  | inr z ↦ rw z (ground (arith, le))
]
