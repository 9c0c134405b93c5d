-- ===== src/MoeTrace/Accumulator/Sized.antt =====
-- The sizes of the slices of an accumulator of pkg/moetrace/accumulator.go, and their entries.
use llm_d_inference_sim.MoeTrace.Accumulator.{
  PromptMetadata, PromptAccumulator, SourceTraceRecord, is_inconsistent, write_slice, count_experts,
  enter_prefill, enter_decode, add, new_prompt_accumulator, AddError,
}
use llm_d_inference_sim.MoeTrace.Accumulator.Kept.{add_cases}
use llm_d_inference_sim.MoeTrace.Accumulator.Complete.{add_records}
use llm_d_inference_sim.MoeTrace.Reader.Blocks.{IsSized}
use llm_d_inference_sim.Common.Int.{pos}
use llm_d_inference_sim.Common.Maps.{Map}
use llm_d_inference_sim.Common.{
  ℕ, zero, suc, ◌+◌, ◌*◌, ◌%◌, ◌<◌, ◌≡◌, refl, subst, ◌∙◌, List, [], ◌∷◌, some, length, get_elem?,
  set, map, replicate, length-set, length-replicate, All, ◌==◌, nat_comparable, Bool-cases,
  Option-cases, inl, inr, Result, ok, err, arith,
}

All-set :
    (limit : ℕ) (xs : List ℕ) (i v : ℕ)
    → v < limit
    → All (λ x. x < limit) xs
    → All (λ x. x < limit) (set xs i v)
All-set limit [] i v l h = tt
All-set limit (x ∷ xs) zero v l h = (l, h.1)
All-set limit (x ∷ xs) (suc i) v l h = (h.0, All-set limit xs i v l h.1)

All-get_elem? :
    (limit : ℕ) (xs : List ℕ) (i v : ℕ)
    → All (λ x. x < limit) xs
    → get_elem? xs i ≡ some v
    → v < limit
All-get_elem? limit [] i v h e = cc
All-get_elem? limit (x ∷ xs) zero v h e = let same : x ≡ v = cc in omega (arith, h.0, same)
All-get_elem? limit (x ∷ xs) (suc i) v h e = All-get_elem? limit xs i v h.1 e

All-replicate : (limit n : ℕ) → 0 < limit → All (λ x. x < limit) (replicate n 0)
All-replicate limit zero l = tt
All-replicate limit (suc n) l = (l, All-replicate limit n l)

length-write_slice :
    (routes : List ℕ) (base : ℕ) (es : List ℕ) → length (write_slice routes base es) ≡ length routes
unfolding write_slice
length-write_slice routes base [] = refl
length-write_slice routes base (e ∷ es) =
    length-write_slice (set routes base e) (suc base) es ∙ length-set routes base e

write_slice-All :
    (routes : List ℕ) (base : ℕ) (experts : List ℕ)
    → All (λ x. x < 65536) routes
    → All (λ x. x < 65536) (write_slice routes base (map (λ x. x % 65536) experts))
unfolding write_slice
write_slice-All routes base [] h = h
write_slice-All routes base (e ∷ es) h =
    write_slice-All (set routes base (e % 65536)) (suc base) es
      (All-set 65536 routes base (e % 65536) (omega arith) h)

-- The counts keep their number and fit 32 bits, also when the counting stops.
abbrev Counted : List ℕ → List ℕ → Type 0
Counted counts counts' = (length counts' ≡ length counts) × All (λ x. x < 4294967296) counts'

count_experts-Counted :
    (counts : List ℕ) (base : ℕ) (es : List ℕ)
    → All (λ x. x < 4294967296) counts
    → Counted counts (count_experts counts base es).0
unfolding count_experts
count_experts-Counted counts base [] h = (refl, h)
count_experts-Counted counts base (e ∷ es) h = elim (Option-cases (get_elem? counts (base + e))) [
  | inl missing ↦ rw (missing, count_experts) (refl, h)
  | inr (n, found) ↦ elim (Bool-cases (n == 4294967295)) [
    | inl full ↦ rw (found, full, count_experts) (refl, h)
    | inr more ↦
        let below = All-get_elem? 4294967296 counts (base + e) n h found in
        let rest =
          count_experts-Counted (set counts (base + e) (n + 1)) base es
            (All-set 4294967296 counts (base + e) (n + 1) (ground (arith, below, more)) h) in
        rw (found, more, count_experts) (rest.0 ∙ length-set counts (base + e) (n + 1), rest.1)
  ]
]

-- An accumulator of a prompt, of this number of layers, of experts and of experts of a token.
pub record Built (meta : PromptMetadata) (layers experts top : ℕ) (p : PromptAccumulator)
    : Type 0 where
  pub meta_is : p.meta ≡ meta
  pub layers_is : p.num_layers ≡ layers
  pub experts_is : p.num_experts ≡ experts
  pub top_is : p.top_k ≡ top
  pub sized : IsSized p

module _ (meta : PromptMetadata) (layers experts top : ℕ) where
  enter_prefill-Built :
      (p : PromptAccumulator) (slot position seen token : ℕ) (es : List ℕ)
      → Built meta layers experts top p
      → token < 4294967296
      → Built meta layers experts top (enter_prefill p slot position seen token es).0
  unfolding enter_prefill
  enter_prefill-Built p slot position seen token es b l =
      elim (Bool-cases (is_inconsistent p.input_token_seen p.input_token_ids position token)) [
        | inl e ↦ rw e (record {
          meta_is = b.meta_is;
          layers_is = b.layers_is;
          experts_is = b.experts_is;
          top_is = b.top_is;
          sized = record {
            input_size = b.sized.input_size;
            decode_size = b.sized.decode_size;
            counts_size = b.sized.counts_size;
            prefill_size = b.sized.prefill_size;
            routes_size = b.sized.routes_size;
            input_fits = b.sized.input_fits;
            decode_fits = b.sized.decode_fits;
            counts_fit = b.sized.counts_fit;
            prefill_fits = b.sized.prefill_fits;
            routes_fit = b.sized.routes_fit;
          };
        })
        | inr e ↦
            let counted =
              count_experts-Counted p.prefill_counts (slot * p.num_experts) es b.sized.counts_fit in
            rw e (record {
              meta_is = b.meta_is;
              layers_is = b.layers_is;
              experts_is = b.experts_is;
              top_is = b.top_is;
              sized = record {
                input_size = length-set p.input_token_ids position token ∙ b.sized.input_size;
                decode_size = b.sized.decode_size;
                counts_size = counted.0 ∙ b.sized.counts_size;
                prefill_size =
                    length-write_slice p.prefill_routes (seen * p.top_k) (map (λ x. x % 65536) es)
                    ∙ b.sized.prefill_size;
                routes_size = b.sized.routes_size;
                input_fits =
                    All-set 4294967296 p.input_token_ids position token l b.sized.input_fits;
                decode_fits = b.sized.decode_fits;
                counts_fit = counted.1;
                prefill_fits =
                    write_slice-All p.prefill_routes (seen * p.top_k) es b.sized.prefill_fits;
                routes_fit = b.sized.routes_fit;
              };
            })
      ]

  enter_decode-Built :
      (p : PromptAccumulator) (position seen token : ℕ) (es : List ℕ)
      → Built meta layers experts top p
      → token < 4294967296
      → Built meta layers experts top (enter_decode p position seen token es).0
  unfolding enter_decode
  enter_decode-Built p position seen token es b l =
      elim (Bool-cases (is_inconsistent p.decode_token_seen p.decode_token_ids position token)) [
        | inl e ↦ rw e (record {
          meta_is = b.meta_is;
          layers_is = b.layers_is;
          experts_is = b.experts_is;
          top_is = b.top_is;
          sized = record {
            input_size = b.sized.input_size;
            decode_size = b.sized.decode_size;
            counts_size = b.sized.counts_size;
            prefill_size = b.sized.prefill_size;
            routes_size = b.sized.routes_size;
            input_fits = b.sized.input_fits;
            decode_fits = b.sized.decode_fits;
            counts_fit = b.sized.counts_fit;
            prefill_fits = b.sized.prefill_fits;
            routes_fit = b.sized.routes_fit;
          };
        })
        | inr e ↦ rw e (record {
          meta_is = b.meta_is;
          layers_is = b.layers_is;
          experts_is = b.experts_is;
          top_is = b.top_is;
          sized = record {
            input_size = b.sized.input_size;
            decode_size = length-set p.decode_token_ids position token ∙ b.sized.decode_size;
            counts_size = b.sized.counts_size;
            prefill_size = b.sized.prefill_size;
            routes_size =
                length-write_slice p.decode_routes (seen * p.top_k) (map (λ x. x % 65536) es)
                ∙ b.sized.routes_size;
            input_fits = b.sized.input_fits;
            decode_fits =
                All-set 4294967296 p.decode_token_ids position token l b.sized.decode_fits;
            counts_fit = b.sized.counts_fit;
            prefill_fits = b.sized.prefill_fits;
            routes_fit = write_slice-All p.decode_routes (seen * p.top_k) es b.sized.routes_fit;
          };
        })
      ]

  -- A record keeps the prompt, the sizes of the slices and the bounds of their entries, with an error too.
  pub add-Built :
      (p : PromptAccumulator) (r : SourceTraceRecord)
      → Built meta layers experts top p
      → Built meta layers experts top (add p r).0
  add-Built p r b =
      add_cases p (Built meta layers experts top) b
        (λ slot position seen token es l. enter_prefill-Built p slot position seen token es b l)
        (λ position seen token es l. enter_decode-Built p position seen token es b l) r

  pub add_records-Built :
      (p : PromptAccumulator) (rs : List SourceTraceRecord)
      → Built meta layers experts top p
      → Built meta layers experts top (add_records p rs).0
  unfolding add_records
  add_records-Built p [] b = b
  add_records-Built p (r ∷ rs) b = elim (Option-cases (add p r).1) [
    | inr (why, refused) ↦ rw (refused, add_records) (add-Built p r b)
    | inl taken ↦ rw (taken, add_records) (add_records-Built (add p r).0 rs (add-Built p r b))
  ]

abbrev BuiltOk : PromptMetadata → ℕ → ℕ → ℕ → Result AddError PromptAccumulator → Type 0
BuiltOk meta layers experts top (err e) = Unit
BuiltOk meta layers experts top (ok p) = Built meta layers experts top p

pub new_prompt_accumulator-Built :
    (q : PromptMetadata) (l e k : ℕ) (slots : Map ℕ ℕ) (p : PromptAccumulator)
    → new_prompt_accumulator q.index q.prompt
        (pos q.input_tokens)
        (pos q.decode_tokens)
        q.generated_text
        l
        e
        k
        slots
      ≡ ok p
    → Built q l e k p
unfolding new_prompt_accumulator
new_prompt_accumulator-Built q l e k slots p made = subst (BuiltOk q l e k) made (record {
  meta_is = refl;
  layers_is = refl;
  experts_is = refl;
  top_is = refl;
  sized = record {
    input_size = length-replicate q.input_tokens 0;
    decode_size = length-replicate q.decode_tokens 0;
    counts_size = length-replicate (l * e) 0;
    prefill_size = length-replicate (l * q.input_tokens * k) 0;
    routes_size = length-replicate (q.decode_tokens * l * k) 0;
    input_fits = All-replicate 4294967296 q.input_tokens (omega arith);
    decode_fits = All-replicate 4294967296 q.decode_tokens (omega arith);
    counts_fit = All-replicate 4294967296 (l * e) (omega arith);
    prefill_fits = All-replicate 65536 (l * q.input_tokens * k) (omega arith);
    routes_fit = All-replicate 65536 (q.decode_tokens * l * k) (omega arith);
  };
})
