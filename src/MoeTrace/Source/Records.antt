-- ===== src/MoeTrace/Source/Records.antt =====
-- The records of one prompt among those of convertTraceArray of pkg/moetrace/source.go, and what they
-- add up to.
use llm_d_inference_sim.MoeTrace.Accumulator.{
  PromptMetadata, PromptAccumulator, SourceTraceRecord, in_range, add, new_prompt_accumulator,
}
use llm_d_inference_sim.MoeTrace.Accumulator.Complete.{add_records}
use llm_d_inference_sim.MoeTrace.Accumulator.Sized.{
  Built, add_records-Built, new_prompt_accumulator-Built,
}
use llm_d_inference_sim.MoeTrace.Writer.{SourceMetadata}
use llm_d_inference_sim.MoeTrace.Source.{ConvertError, prompt_accumulator}
use llm_d_inference_sim.Common.Int.{ℤ, pos, negsuc}
use llm_d_inference_sim.Common.Maps.{Map}
use llm_d_inference_sim.Common.{
  ℕ, ◌≡◌, refl, sym, ap, subst, ◌∙◌, List, [], ◌∷◌, ◌++◌, none, some, Bool, false, ◌==◌,
  nat_comparable, nat_beq_iff, if◌then◌else◌, get_elem?, Result, ok, Option-cases, Bool-cases, inl,
  inr, arith,
}

abbrev pub is_of : ℕ → ℤ → Bool
is_of n (pos m) = m == n
is_of n (negsuc m) = false

-- The records of prompt `n`, in turn.
pub records_of : ℕ → List SourceTraceRecord → List SourceTraceRecord
records_of n [] = []
records_of n (r ∷ rs) = let rest = records_of n rs in if is_of n r.prompt then r ∷ rest else rest

pub records_of-nil : (n : ℕ) → records_of n [] ≡ []
unfolding records_of
records_of-nil n = refl

records_of-append :
    (n : ℕ) (rs : List SourceTraceRecord) (r : SourceTraceRecord)
    → records_of n (rs ++ r ∷ [])
      ≡ (if is_of n r.prompt then records_of n rs ++ r ∷ [] else records_of n rs)
unfolding records_of
records_of-append n [] r = refl
records_of-append n (q ∷ rs) r = elim (Bool-cases (is_of n q.prompt)) [
  | inl e ↦
      rw (e, records_of-append n rs r)
        (elim (Bool-cases (is_of n r.prompt)) [ inl f ↦ rw f refl | inr f ↦ rw f refl ])
  | inr e ↦ rw e (records_of-append n rs r)
]

in_range-is_of : (z : ℤ) (limit m n : ℕ) → in_range z limit ≡ some m → is_of n z ≡ (m == n)
in_range-is_of (pos k) limit m n e = ground arith
in_range-is_of (negsuc k) limit m n e = cc

pub records_of-same :
    (limit n : ℕ) (rs : List SourceTraceRecord) (r : SourceTraceRecord)
    → in_range r.prompt limit ≡ some n
    → records_of n (rs ++ r ∷ []) ≡ records_of n rs ++ r ∷ []
records_of-same limit n rs r e =
    records_of-append n rs r
    ∙ rw (in_range-is_of r.prompt limit n n e, (nat_beq_iff n n).1 refl) refl

pub records_of-other :
    (limit m n : ℕ) (rs : List SourceTraceRecord) (r : SourceTraceRecord)
    → in_range r.prompt limit ≡ some m
    → (m == n) ≡ false
    → records_of n (rs ++ r ∷ []) ≡ records_of n rs
records_of-other limit m n rs r e d =
    records_of-append n rs r ∙ rw (in_range-is_of r.prompt limit m n e, d) refl

add_records-append :
    (p q : PromptAccumulator) (rs : List SourceTraceRecord) (r : SourceTraceRecord)
    → add_records p rs ≡ (q, none)
    → (add q r).1 ≡ none
    → add_records p (rs ++ r ∷ []) ≡ ((add q r).0, none)
unfolding add_records
add_records-append p q [] r e taken =
    let same : p ≡ q = ap (λ x. x.0) e in
    subst (λ x. add_records x (r ∷ []) ≡ ((add q r).0, none)) (sym same)
      (rw (taken, add_records) refl)
add_records-append p q (x ∷ rs) r e taken = elim (Option-cases (add p x).1) [
  | inr (why, refused) ↦ let e' = rw (refused, add_records) at e in cc
  | inl one ↦
      rw (one, add_records)
        (add_records-append (add p x).0 q rs r (rw (one, add_records) at e) taken)
]

module _ (source : SourceMetadata) (slots : Map ℕ ℕ) where
  -- The accumulator of prompt `n` after its records among these: each was taken.
  abbrev pub Collected : List SourceTraceRecord → ℕ → PromptAccumulator → Type 0
  Collected done n p =
      (new : PromptAccumulator) × (prompt_accumulator source slots n ≡ ok new)
      × (add_records new (records_of n done) ≡ (p, none))

  same_ok :
      (p q : PromptAccumulator)
      → ◌≡◌ {A = Result ConvertError PromptAccumulator} (ok p) (ok q)
      → p ≡ q
  same_ok p q e = cc

  prompt_accumulator-Built :
      (n : ℕ) (new : PromptAccumulator)
      → prompt_accumulator source slots n ≡ ok new
      → (q : PromptMetadata) × (get_elem? source.prompts n ≡ some q)
        × Built q source.num_sparse_layers source.num_experts source.top_k new
  unfolding prompt_accumulator new_prompt_accumulator
  prompt_accumulator-Built n new e = elim (Option-cases (get_elem? source.prompts n)) [
    | inl missing ↦ let e' = rw (missing, prompt_accumulator) at e in cc
    | inr (q, found) ↦
        let made = rw (found, prompt_accumulator) at e in
        (
          q,
          found,
          new_prompt_accumulator-Built q source.num_sparse_layers source.num_experts source.top_k
              slots new (ap ok (same_ok _ new made)),
        )
  ]

  pub Collected-Built :
      (done : List SourceTraceRecord) (n : ℕ) (p : PromptAccumulator)
      → Collected done n p
      → (get_elem? source.prompts n ≡ some p.meta)
        × Built p.meta source.num_sparse_layers source.num_experts source.top_k p
  Collected-Built done n p (new, made, taken) =
      let (q, found, b) = prompt_accumulator-Built n new made in
      let built : Built q source.num_sparse_layers source.num_experts source.top_k p =
        subst (Built q source.num_sparse_layers source.num_experts source.top_k)
          (ap (λ x. x.0) taken)
          (add_records-Built q source.num_sparse_layers source.num_experts source.top_k new
            (records_of n done) b) in
      (
        found ∙ ap some (sym built.meta_is),
        subst (λ x. Built x source.num_sparse_layers source.num_experts source.top_k p)
            (sym built.meta_is) built,
      )

  pub Collected-new :
      (done : List SourceTraceRecord) (n : ℕ) (new : PromptAccumulator)
      → prompt_accumulator source slots n ≡ ok new
      → records_of n done ≡ []
      → Collected done n new
  Collected-new done n new made quiet =
      (new, made, ap (add_records new) quiet ∙ (unfold add_records in refl))

  pub Collected-add :
      (limit n : ℕ) (done : List SourceTraceRecord) (p : PromptAccumulator) (r : SourceTraceRecord)
      → in_range r.prompt limit ≡ some n
      → (add p r).1 ≡ none
      → Collected done n p
      → Collected (done ++ r ∷ []) n (add p r).0
  Collected-add limit n done p r e taken (new, made, all) = (
    new,
    made,
    ap (add_records new) (records_of-same limit n done r e)
        ∙ add_records-append new p (records_of n done) r all taken,
  )

  pub Collected-other :
      (limit m n : ℕ) (done : List SourceTraceRecord) (p : PromptAccumulator)
      (r : SourceTraceRecord)
      → in_range r.prompt limit ≡ some m
      → (m == n) ≡ false
      → Collected done n p
      → Collected (done ++ r ∷ []) n p
  Collected-other limit m n done p r e d (new, made, all) =
      (new, made, ap (add_records new) (records_of-other limit m n done r e d) ∙ all)
