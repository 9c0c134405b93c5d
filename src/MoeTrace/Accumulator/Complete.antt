-- ===== src/MoeTrace/Accumulator/Complete.antt =====
-- The records of a prompt of pkg/moetrace/accumulator.go, taken in turn: when the prompt is complete.
use llm_d_inference_sim.MoeTrace.Accumulator.{
  PromptAccumulator, SourceTraceRecord, AddError, new_prompt_accumulator, expected_records, add,
  validate_complete, first_unseen,
}
use llm_d_inference_sim.MoeTrace.Accumulator.Seen.{
  trues, trues-replicate, trues-le-length, get_elem?-trues, trues_all, first_unseen-none,
  trues-first_unseen,
}
use llm_d_inference_sim.MoeTrace.Accumulator.Shape.{
  Shape, Settled, recorded, SlotsWithin, add-Taken,
}
use llm_d_inference_sim.Common.Int.{pos}
use llm_d_inference_sim.Common.Maps.{Map, lookup}
use llm_d_inference_sim.Common.{
  ℕ, zero, suc, ◌+◌, ◌*◌, ◌<◌, ◌≡◌, ◌≢◌, ◌↔◌, nat_comparable, refl, ap, subst, ◌∙◌, true, false,
  List, [], ◌∷◌, Option, none, some, String, length, get_elem?, replicate, length-replicate, Result,
  ok, err, arith, le-mul, Option-cases, inl, inr,
}

-- The records in turn, up to the first that is refused.
unfoldable pub add_records :
    PromptAccumulator → List SourceTraceRecord → PromptAccumulator × Option AddError
unfolding add
add_records p [] = (p, none)
add_records p (r ∷ rs) = elim (add p r).1 [
  | some e ↦ ((add p r).0, some e)
  | none ↦ add_records (add p r).0 rs
]

none_true : (n i : ℕ) → get_elem? (replicate n false) i ≢ some true
none_true zero i e = cc
none_true (suc n) zero e = cc
none_true (suc n) (suc i) e = none_true n i e

-- A new accumulator is well formed and empty.
abbrev Made : ℕ → Map ℕ ℕ → Result AddError PromptAccumulator → Type 0
Made l slots (err e) = Unit
Made l slots (ok p) = Shape p × (recorded p ≡ 0) × (p.num_layers ≡ l) × (p.layer_slots ≡ slots)

pub new_prompt_accumulator-Shape :
    (index : ℕ) (prompt : String) (i d : ℕ) (text : String) (l e k : ℕ) (slots : Map ℕ ℕ)
    (p : PromptAccumulator)
    → new_prompt_accumulator index prompt (pos i) (pos d) text l e k slots ≡ ok p
    → Shape p × (recorded p ≡ 0) × (p.num_layers ≡ l) × (p.layer_slots ≡ slots)
unfolding new_prompt_accumulator
new_prompt_accumulator-Shape index prompt i d text l e k slots p made = subst (Made l slots) made (
  record {
    input_size = length-replicate i false;
    decode_size = length-replicate d false;
    prefill_size = length-replicate (i * l) false;
    decode_seen_size = length-replicate (d * l) false;
    prefill_tokens = λ s q k seen. absurd (none_true (i * l) (s * i + q) seen);
    decode_tokens_seen = λ q s k seen. absurd (none_true (d * l) (q * l + s) seen);
  },
  omega (arith, trues-replicate (i * l), trues-replicate (d * l)),
  refl,
  refl,
)

-- The tokens of the routes that were seen, if all were.
all_tokens :
    (p : PromptAccumulator)
    → Shape p
    → 0 < p.num_layers
    → trues p.prefill_seen ≡ length p.prefill_seen
    → trues p.decode_seen ≡ length p.decode_seen
    → (trues p.input_token_seen ≡ length p.input_token_seen)
      × (trues p.decode_token_seen ≡ length p.decode_token_seen)
all_tokens p h layers prefill decode = (
  trues_all p.input_token_seen (λ i l. h.prefill_tokens 0 i (omega (arith, l)) (
      get_elem?-trues p.prefill_seen (0 * p.meta.input_tokens + i) prefill
        (omega (arith, l, le-mul p.meta.input_tokens p.num_layers layers)))),
  trues_all p.decode_token_seen (λ i l. h.decode_tokens_seen i 0 layers (
      get_elem?-trues p.decode_seen (i * p.num_layers + 0) decode
        (grind (arith, h.decode_seen_size, l, layers)))),
)

validate_complete-none :
    (p : PromptAccumulator)
    → validate_complete p ≡ none
    → (first_unseen 0 p.prefill_seen ≡ none) × (first_unseen 0 p.decode_seen ≡ none)
unfolding validate_complete
validate_complete-none p e = ground arith

-- A complete prompt has as many routes as records are expected, and the other way round.
pub recorded-validate_complete :
    (p : PromptAccumulator)
    → Shape p
    → 0 < p.num_layers
    → (validate_complete p ≡ none) ↔ (recorded p ≡ expected_records p)
unfolding validate_complete
recorded-validate_complete p h layers = (
  λ complete. omega (
    arith,
    first_unseen-none 0 p.prefill_seen (validate_complete-none p complete).0,
    first_unseen-none 0 p.decode_seen (validate_complete-none p complete).1,
  ),
  λ all.
      let prefill : trues p.prefill_seen ≡ length p.prefill_seen =
        omega (arith, all, trues-le-length p.prefill_seen, trues-le-length p.decode_seen) in
      let decode : trues p.decode_seen ≡ length p.decode_seen =
        omega (arith, all, trues-le-length p.prefill_seen, trues-le-length p.decode_seen) in
      let tokens = all_tokens p h layers prefill decode in
      rw
        (
          trues-first_unseen 0 _ tokens.0,
          trues-first_unseen 0 _ tokens.1,
          trues-first_unseen 0 _ prefill,
          trues-first_unseen 0 _ decode,
          validate_complete,
        )
        refl,
)

pub add_records-Shape :
    (p p' : PromptAccumulator) (rs : List SourceTraceRecord)
    → Shape p
    → SlotsWithin p
    → add_records p rs ≡ (p', none)
    → Shape p' × Settled p p' × (recorded p' ≡ recorded p + length rs)
unfolding add_records
add_records-Shape p p' [] h within e =
    subst (λ q. Shape q × Settled p q × (recorded q ≡ recorded p + 0)) (ap (λ x. x.0) e)
      (h, record { meta_same = refl; layers_same = refl; slots_same = refl }, omega arith)
add_records-Shape p p' (r ∷ rs) h within e = elim (Option-cases (add p r).1) [
  | inr (why, refused) ↦ let e' = rw (refused, add_records) at e in cc
  | inl taken ↦
      let one = add-Taken p (add p r).0 r h within (λ i. ((add p r).0, taken i)) in
      let rest =
        add_records-Shape (add p r).0 p' rs one.shape
          (λ layer slot found.
            rw one.settled.layers_same (within layer slot (rw (← one.settled.slots_same) found)))
          (rw (taken, add_records) at e) in
      (
        rest.0,
        record {
          meta_same = rest.1.meta_same ∙ one.settled.meta_same;
          layers_same = rest.1.layers_same ∙ one.settled.layers_same;
          slots_same = rest.1.slots_same ∙ one.settled.slots_same;
        },
        omega (arith, rest.2, one.one_more),
      )
]

module _ (index : ℕ) (prompt : String) (i d : ℕ) (text : String) (l e k : ℕ) (slots : Map ℕ ℕ) where
  -- If a new accumulator has taken every record of a list without an error, then it is complete exactly
  -- when the list has as many records as are expected, provided that there is a layer and that the slots
  -- of the layers are below their number.
  pub validate_complete-add_records :
      (rs : List SourceTraceRecord) (p p' : PromptAccumulator)
      → 0 < l
      → ((layer slot : ℕ) → lookup layer slots ≡ some slot → slot < l)
      → new_prompt_accumulator index prompt (pos i) (pos d) text l e k slots ≡ ok p
      → add_records p rs ≡ (p', none)
      → (validate_complete p' ≡ none) ↔ (length rs ≡ expected_records p')
  validate_complete-add_records rs p p' layers within made taken =
      let new = new_prompt_accumulator-Shape index prompt i d text l e k slots p made in
      let all =
        add_records-Shape p p' rs new.0
          (λ layer slot found. rw new.2 (within layer slot (rw (← new.3) found))) taken in
      let full = recorded-validate_complete p' all.0 (rw (all.1.layers_same, new.2) layers) in
      (
        λ complete. omega (arith, full.0 complete, all.2, new.1),
        λ count. full.1 (omega (arith, count, all.2, new.1)),
      )
