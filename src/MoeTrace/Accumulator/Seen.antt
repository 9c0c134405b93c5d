-- ===== src/MoeTrace/Accumulator/Seen.antt =====
-- Counting the flags of pkg/moetrace/accumulator.go.
use llm_d_inference_sim.MoeTrace.Accumulator.{first_unseen}
use llm_d_inference_sim.Common.{
  ℕ, zero, suc, ◌≤◌, ◌<◌, ◌≡◌, refl, ap, Bool, true, false, List, [], ◌∷◌, none, some, length,
  get_elem?, set, replicate, arith,
}

abbrev pub trues : List Bool → ℕ
trues [] = 0
trues (true ∷ xs) = suc (trues xs)
trues (false ∷ xs) = trues xs

pub trues-le-length : (xs : List Bool) → trues xs ≤ length xs
trues-le-length [] = omega arith
trues-le-length (true ∷ xs) = omega (arith, trues-le-length xs)
trues-le-length (false ∷ xs) = omega (arith, trues-le-length xs)

pub trues-set :
    (xs : List Bool) (i : ℕ) → get_elem? xs i ≡ some false → trues (set xs i true) ≡ suc (trues xs)
trues-set [] i e = cc
trues-set (true ∷ xs) zero e = cc
trues-set (false ∷ xs) zero e = refl
trues-set (true ∷ xs) (suc i) e = ap suc (trues-set xs i e)
trues-set (false ∷ xs) (suc i) e = trues-set xs i e

pub trues-replicate : (n : ℕ) → trues (replicate n false) ≡ 0
trues-replicate zero = refl
trues-replicate (suc n) = trues-replicate n

pub get_elem?-trues :
    (xs : List Bool) (i : ℕ) → trues xs ≡ length xs → i < length xs → get_elem? xs i ≡ some true
get_elem?-trues [] i e h = absurd (omega (arith, h))
get_elem?-trues (false ∷ xs) i e h = absurd (omega (arith, e, trues-le-length xs))
get_elem?-trues (true ∷ xs) zero e h = refl
get_elem?-trues (true ∷ xs) (suc i) e h = get_elem?-trues xs i (omega (arith, e)) (omega (arith, h))

pub trues_all :
    (xs : List Bool) → ((i : ℕ) → i < length xs → get_elem? xs i ≡ some true) → trues xs ≡ length xs
trues_all [] h = refl
trues_all (true ∷ xs) h = ap suc (trues_all xs (λ i l. h (suc i) (omega (arith, l))))
trues_all (false ∷ xs) h = let e = h 0 (omega arith) in cc

pub get_elem?-lt {ℓ} :
    {A : Type ℓ} (xs : List A) (i : ℕ) {a : A} → get_elem? xs i ≡ some a → i < length xs
get_elem?-lt [] i e = cc
get_elem?-lt (x ∷ xs) zero e = omega arith
get_elem?-lt (x ∷ xs) (suc i) e = omega (arith, get_elem?-lt xs i e)

-- No flag is missing exactly when all are set.
pub first_unseen-none : (i : ℕ) (xs : List Bool) → first_unseen i xs ≡ none → trues xs ≡ length xs
unfolding first_unseen
first_unseen-none i [] e = refl
first_unseen-none i (true ∷ xs) e = ap suc (first_unseen-none (suc i) xs e)
first_unseen-none i (false ∷ xs) e = cc

pub trues-first_unseen : (i : ℕ) (xs : List Bool) → trues xs ≡ length xs → first_unseen i xs ≡ none
unfolding first_unseen
trues-first_unseen i [] e = refl
trues-first_unseen i (true ∷ xs) e = trues-first_unseen (suc i) xs (omega (arith, e))
trues-first_unseen i (false ∷ xs) e = absurd (omega (arith, e, trues-le-length xs))

pub get_elem?-within {ℓ} :
    {A : Type ℓ} (xs : List A) (i : ℕ) → i < length xs → (a : A) × (get_elem? xs i ≡ some a)
get_elem?-within [] i h = absurd (omega (arith, h))
get_elem?-within (x ∷ xs) zero h = (x, refl)
get_elem?-within (x ∷ xs) (suc i) h = get_elem?-within xs i (omega (arith, h))
