-- ===== src/MoeTrace/Source/Chain.antt =====
-- The prompts that convertTraceArray of pkg/moetrace/source.go has written so far.
use llm_d_inference_sim.MoeTrace.Accumulator.{
  PromptAccumulator, SourceTraceRecord, in_range, validate_complete,
}
use llm_d_inference_sim.MoeTrace.Source.Records.{Collected, Collected-Built, Collected-other}
use llm_d_inference_sim.MoeTrace.Accumulator.Seen.{get_elem?-lt, get_elem?-within}
use llm_d_inference_sim.MoeTrace.Writer.{SourceMetadata, TraceWriter, WriteError, write_prompt}
use llm_d_inference_sim.MoeTrace.Open.Layout.{write_prompts}
use llm_d_inference_sim.MoeTrace.Source.{written}
use llm_d_inference_sim.Common.Maps.{Map}
use llm_d_inference_sim.Common.{
  ℕ, zero, suc, ◌≤◌, ◌≡◌, ◌⊎◌, refl, sym, ap, subst, ◌∙◌, List, [], ◌∷◌, ◌++◌, none, some,
  nat_comparable, string_comparable, length, get_elem?, Result, ok, err, ◌>>=◌, >>=-eq-ok,
  Option-cases, inl, inr, arith,
}

write_prompts-append :
    (w w' w'' : TraceWriter) (ps : List PromptAccumulator) (p : PromptAccumulator)
    → write_prompts w ps ≡ ok w'
    → write_prompt w' p ≡ ok w''
    → write_prompts w (ps ++ p ∷ []) ≡ ok w''
unfolding write_prompts
write_prompts-append w w' w'' [] p e f =
    let same : w ≡ w' = cc e in
    ap (λ v. write_prompt v p >>= λ x. ok x) same
    ∙ ap (λ (m : Result WriteError TraceWriter). m >>= λ x. ok x) f
write_prompts-append w w' w'' (q ∷ ps) p e f =
    let split = >>=-eq-ok (write_prompt w q) _ e in
    ap (λ m. m >>= λ v. write_prompts v (ps ++ p ∷ [])) split.1
    ∙ write_prompts-append split.0 w' w'' ps p split.2 f

-- What is written is complete.
write_prompt_complete :
    (w w' : TraceWriter) (p : PromptAccumulator)
    → write_prompt w p ≡ ok w'
    → validate_complete p ≡ none
unfolding write_prompt
write_prompt_complete w w' p e = elim (Option-cases (validate_complete p)) [
  | inl complete ↦ complete
  | inr (missing, found) ↦ let e' = rw (found, write_prompt) at e in cc
]

get_elem?-append_last {ℓ} :
    {A : Type ℓ} (xs : List A) (x y : A) (i : ℕ)
    → get_elem? (xs ++ x ∷ []) i ≡ some y
    → (get_elem? xs i ≡ some y) ⊎ ((i ≡ length xs) × (x ≡ y))
get_elem?-append_last [] x y zero e = inr (refl, cc e)
get_elem?-append_last [] x y (suc i) e = cc
get_elem?-append_last (z ∷ xs) x y zero e = inl e
get_elem?-append_last (z ∷ xs) x y (suc i) e = elim (get_elem?-append_last xs x y i e) [
  | inl old ↦ inl old
  | inr (last, same) ↦ inr (ap suc last, same)
]

-- The prompts that were written so far: those of the source, in turn, each of them complete and with all
-- of its records.
pub record Chain (source : SourceMetadata) (slots : Map ℕ ℕ) (start : TraceWriter)
    (done : List SourceTraceRecord) (ps : List PromptAccumulator) (w : TraceWriter) : Type 0 where
  pub chain : write_prompts start ps ≡ ok w
  pub sourced :
      (i : ℕ) (p : PromptAccumulator)
      → get_elem? ps i ≡ some p
      → Collected source slots done i p × (validate_complete p ≡ none)

-- No more prompts are written than the source has.
pub Chain-le :
    (source : SourceMetadata) (slots : Map ℕ ℕ) (start : TraceWriter)
    (done : List SourceTraceRecord) (ps : List PromptAccumulator) (w : TraceWriter)
    → Chain source slots start done ps w
    → length ps ≤ length source.prompts
Chain-le source slots start done [] w c = omega arith
Chain-le source slots start done (p ∷ ps) w c =
    let last = get_elem?-within (p ∷ ps) (length ps) (omega arith) in
    omega (
      arith,
      get_elem?-lt source.prompts (length ps)
          (Collected-Built source slots done (length ps) last.0
            (c.sourced (length ps) last.0 last.1).0).0,
    )

pub Chain-append :
    (source : SourceMetadata) (slots : Map ℕ ℕ) (start w w' : TraceWriter)
    (done : List SourceTraceRecord) (ps : List PromptAccumulator) (p : PromptAccumulator)
    → Chain source slots start done ps w
    → Collected source slots done (length ps) p
    → write_prompt w p ≡ ok w'
    → Chain source slots start done (ps ++ p ∷ []) w'
Chain-append source slots start w w' done ps p c found e = record {
  chain = write_prompts-append start w w' ps p c.chain e;
  sourced = λ i q at. elim (get_elem?-append_last ps p q i at) [
    | inl old ↦ c.sourced i q old
    | inr (last, same) ↦
        subst (λ x. Collected source slots done i x × (validate_complete x ≡ none)) same
          (
            subst (λ j. Collected source slots done j p) (sym last) found,
            write_prompt_complete w w' p e,
          )
  ];
}

-- A record of a later prompt changes none of the prompts that were written.
pub Chain-later :
    (source : SourceMetadata) (slots : Map ℕ ℕ) (start w : TraceWriter)
    (done : List SourceTraceRecord) (ps : List PromptAccumulator) (r : SourceTraceRecord)
    (limit n : ℕ)
    → in_range r.prompt limit ≡ some n
    → length ps ≤ n
    → Chain source slots start done ps w
    → Chain source slots start (done ++ r ∷ []) ps w
Chain-later source slots start w done ps r limit n e l c = record {
  chain = c.chain;
  sourced = λ i p at.
      let below = get_elem?-lt ps i at in
      let (collected, complete) = c.sourced i p at in
      (
        Collected-other source slots limit n i done p r e (ground (arith, below, l)) collected,
        complete,
      );
}

pub written-ok : (r : Result WriteError TraceWriter) (w : TraceWriter) → written r ≡ ok w → r ≡ ok w
unfolding written
written-ok (ok v) w e = cc
written-ok (err f) w e = cc
