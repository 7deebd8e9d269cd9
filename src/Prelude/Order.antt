-- ===== src/Prelude/Order.antt =====
-- Comparison functions of Go's `sort`: `less a b` says that `a` stands before `b`.
use Prim.Native.Char.{Char, code}
use Prim.Native.Nat.{compare as compare_ℕ}
use Prim.Native.String.compare
use Prim.Native.String.{[], ◌∷◌, compare, then as first_of_two}
use text.Mathlib.Text.{is_lt}
use kubehealth.Prelude.{
  ◌≡◌, refl, Ordering, ◌↔◌, Bool, true, false, not, String, arith, ltb, ◌==◌, str_eq, str_ltb,
  if◌then◌else◌,
}

-- A strict weak order: what `sort` asks of `less`.
pub record IsOrder {ℓ} {A : Type ℓ} (less : A → A → Bool) : Type ℓ where
  pub asym : (a b : A) → less a b ≡ true → less b a ≡ false
  pub neg_trans : (a b c : A) → less b a ≡ false → less c b ≡ false → less c a ≡ false

-- `same` holds of the pairs that `less` does not tell apart.
abbrev pub IsTie {ℓ} : {A : Type ℓ} → (A → A → Bool) → (A → A → Bool) → Type ℓ
IsTie {A = A} same less = (a b : A) → (same a b ≡ true) ↔ ((less a b ≡ false) × (less b a ≡ false))

pub IsOrder-ltb : IsOrder ltb
IsOrder-ltb = record { asym = λ a b h. ground arith; neg_trans = λ a b c h k. ground arith }

pub IsTie-ltb : IsTie ◌==◌ ltb
IsTie-ltb a b = ground arith

module _ {ℓ κ} {A : Type ℓ} {B : Type κ} (f : B → A) where
  pub IsOrder-on : {less : A → A → Bool} → IsOrder less → IsOrder (λ a b. less (f a) (f b))
  IsOrder-on o = record {
    asym = λ a b. o.asym (f a) (f b);
    neg_trans = λ a b c. o.neg_trans (f a) (f b) (f c);
  }

module _ {ℓ} {A : Type ℓ} where
  pub IsOrder-flip : {less : A → A → Bool} → IsOrder less → IsOrder (λ a b. less b a)
  IsOrder-flip o = record {
    asym = λ a b. o.asym b a;
    neg_trans = λ a b c h k. o.neg_trans c b a k h;
  }

  pub IsOrder-ext :
      {less less' : A → A → Bool}
      → ((a b : A) → less a b ≡ less' a b)
      → IsOrder less
      → IsOrder less'
  IsOrder-ext e o = record {
    asym = λ a b h. ground (arith, e a b, e b a, o.asym a b);
    neg_trans = λ a b c h k. ground (arith, e b a, e c b, e c a, o.neg_trans a b c);
  }

-- The idiom of a chain of keys: `if key(a) != key(b) { return first(a, b) }; return second(a, b)`.
abbrev pub lex {ℓ} : {A : Type ℓ} → (A → A → Bool) → (A → A → Bool) → (A → A → Bool) → A → A → Bool
lex same first second a b = if not (same a b) then first a b else second a b

module _ {ℓ} {A : Type ℓ} {same first second : A → A → Bool} where
  pub IsOrder-lex :
      IsTie same first → IsOrder first → IsOrder second → IsOrder (lex same first second)
  IsOrder-lex t o p = record {
    asym = λ a b h. ground (arith, t a b, t b a, o.asym a b, p.asym a b);
    neg_trans = λ a b c h k. ground (
      arith,
      t a b,
      t b a,
      t b c,
      t c b,
      t a c,
      t c a,
      o.asym a b,
      o.asym b c,
      o.asym a c,
      o.asym b a,
      o.asym c b,
      o.asym c a,
      o.neg_trans a b c,
      o.neg_trans b a c,
      o.neg_trans a c b,
      o.neg_trans c b a,
      o.neg_trans b c a,
      o.neg_trans c a b,
      p.neg_trans a b c,
    );
  }

  pub IsTie-lex :
      {same' : A → A → Bool}
      → IsTie same first
      → IsTie same' second
      → IsTie (λ a b. if same a b then same' a b else false) (lex same first second)
  IsTie-lex t u a b = ground (arith, t a b, t b a, u a b, u b a)

mirror : Ordering → Ordering
mirror Ordering.lt = Ordering.gt
mirror Ordering.eq = Ordering.eq
mirror Ordering.gt = Ordering.lt

compare-mirror : (s t : String) → compare t s ≡ mirror (compare s t)
unfolding mirror
compare-mirror [] [] = rw compare.nil-nil
compare-mirror [] (d ∷ t) = rw (compare.nil-cons d t, compare.cons-nil d t)
compare-mirror (c ∷ s) [] = rw (compare.nil-cons c s, compare.cons-nil c s)
compare-mirror (c ∷ s) (d ∷ t) =
    rw (compare.cons-cons c d s t, compare.cons-cons d c t s) (ground (arith, compare-mirror s t))

then_trans :
    (c d e : Char) (o p q : Ordering)
    → is_lt (first_of_two (compare_ℕ (code d) (code c)) o) ≡ false
    → is_lt (first_of_two (compare_ℕ (code e) (code d)) p) ≡ false
    → (is_lt o ≡ false → is_lt p ≡ false → is_lt q ≡ false)
    → is_lt (first_of_two (compare_ℕ (code e) (code c)) q) ≡ false
then_trans c d e o p q h k ih = ground arith

-- not above, one after the other
compare_trans :
    (s t u : String)
    → is_lt (compare t s) ≡ false
    → is_lt (compare u t) ≡ false
    → is_lt (compare u s) ≡ false
compare_trans [] t [] h k = refl
compare_trans [] t (e ∷ u) h k = rw (compare.cons-nil e u)
compare_trans (c ∷ s) [] u h k = cc (compare.nil-cons c s)
compare_trans (c ∷ s) (d ∷ t) [] h k = cc (compare.nil-cons d t)
compare_trans (c ∷ s) (d ∷ t) (e ∷ u) h k = rw (compare.cons-cons e c u s) (
    then_trans c d e (compare t s) (compare u t) (compare u s) (rw (compare.cons-cons d c t s) at h)
      (rw (compare.cons-cons e d u t) at k) (compare_trans s t u))

pub IsOrder-str_ltb : IsOrder str_ltb
unfolding mirror
IsOrder-str_ltb = record {
  asym = λ a b h. ground (arith, compare-mirror a b);
  neg_trans = compare_trans;
}

pub IsTie-str_ltb : IsTie str_eq str_ltb
unfolding mirror
IsTie-str_ltb a b = ground (arith, compare-mirror a b)
