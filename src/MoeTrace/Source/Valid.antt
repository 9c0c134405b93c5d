-- ===== src/MoeTrace/Source/Valid.antt =====
-- What a source has that validateSourceMetadata of pkg/moetrace/source.go accepts.
use llm_d_inference_sim.MoeTrace.Accumulator.{PromptMetadata}
use llm_d_inference_sim.MoeTrace.Writer.{SourceMetadata}
use llm_d_inference_sim.MoeTrace.Source.{check_prompts, validate_source_metadata}
use llm_d_inference_sim.Common.{
  ℕ, zero, suc, ◌+◌, ◌≤◌, ◌<◌, ◌≡◌, subst, List, [], ◌∷◌, none, some, not, ◌||◌, ltb, ◌==◌,
  nat_comparable, string_comparable, length, get_elem?, Bool-cases, inl, inr, arith,
}

-- A prompt with its number, whose counts of tokens fit 32 bits.
abbrev pub Numbered : ℕ → PromptMetadata → Type 0
Numbered i p = (p.index ≡ i) × (p.input_tokens < 4294967296) × (p.decode_tokens < 4294967296)

pub check_prompts-none :
    (i : ℕ) (ps : List PromptMetadata)
    → check_prompts i ps ≡ none
    → (n : ℕ) (p : PromptMetadata) → get_elem? ps n ≡ some p
    → Numbered (i + n) p
unfolding check_prompts
check_prompts-none i [] e n p at = cc
check_prompts-none i (q ∷ qs) e n p at = elim (Bool-cases (not (q.index == i))) [
  | inl wrong ↦ let e' = rw (wrong, check_prompts) at e in cc
  | inr right ↦
      elim (Bool-cases (ltb 4294967295 q.input_tokens || ltb 4294967295 q.decode_tokens)) [
        | inl many ↦ let e' = rw (right, many, check_prompts) at e in cc
        | inr few ↦
            at_place n at
              (λ k. check_prompts-none (suc i) qs (rw (right, few, check_prompts) at e) k p)
              (ground (arith, right), ground (arith, few), ground (arith, few))
      ]
]
  where
    at_place :
        (n : ℕ)
        → get_elem? (q ∷ qs) n ≡ some p
        → ((k : ℕ) → get_elem? qs k ≡ some p → Numbered (suc i + k) p)
        → Numbered i q
        → Numbered (i + n) p
    at_place zero at rest first =
        let same : q ≡ p = cc in
        let here : Numbered i p = subst (Numbered i) same first in
        (omega (arith, here.0), here.1, here.2)
    at_place (suc n) at rest first =
        let there = rest n at in (omega (arith, there.0), there.1, there.2)

-- The prompts are numbered in turn, and there are as many as the source says.
pub validate_source_metadata-none :
    (source : SourceMetadata)
    → validate_source_metadata source ≡ none
    → (length source.prompts ≡ source.num_prompts) × (check_prompts 0 source.prompts ≡ none)
unfolding validate_source_metadata
validate_source_metadata-none source e = ground arith

-- There is a layer, and the other numbers are in their bounds.
pub validate_source_metadata_numbers :
    (source : SourceMetadata)
    → validate_source_metadata source ≡ none
    → (source.num_sparse_layers ≡ length source.sparse_layers)
      × (0 < source.num_sparse_layers)
      × (source.num_experts ≤ 65536)
      × (source.top_k ≤ source.num_experts)
unfolding validate_source_metadata
validate_source_metadata_numbers source e = (ground arith, ground arith, ground arith, ground arith)
