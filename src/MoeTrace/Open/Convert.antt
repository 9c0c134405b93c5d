-- ===== src/MoeTrace/Open/Convert.antt =====
-- The conversion of pkg/moetrace/converter.go: the case of the trace field, whose records encoding/json
-- has decoded, and the end of Convert. The source's size and its hash are arguments.
use llm_d_inference_sim.MoeTrace.Length.{u64_mod, expert_id_bytes}
use llm_d_inference_sim.MoeTrace.Accumulator.{PromptAccumulator, SourceTraceRecord}
use llm_d_inference_sim.MoeTrace.Writer.{
  Metadata, SourceMetadata, TraceWriter, metadata_of, new_trace_writer, finish,
}
use llm_d_inference_sim.MoeTrace.Writer.Grown.{IsPlaced, OnOk}
use llm_d_inference_sim.MoeTrace.Reader.Blocks.{IsSized}
use llm_d_inference_sim.MoeTrace.Source.{
  ConvertError, invalid_source, written, validate_source_metadata, convert_trace_array,
}
use llm_d_inference_sim.Common.{
  ℕ, suc, none, err, ◌%◌, ◌<◌, ◌≡◌, ◌⊎◌, refl, sym, ap, subst, List, [], ◌∷◌, ◌++◌, Option, some,
  nat_comparable, length, get_elem?, replicate, Result, ok, ◌>>=◌, arith, length-append,
  Option-cases, Result-cases, inl, inr,
}

-- The case of the trace field.
unfoldable pub convert_trace :
    (Metadata → Option (List ℕ))
    → SourceMetadata
    → List SourceTraceRecord
    → Result ConvertError TraceWriter
unfolding validate_source_metadata new_trace_writer convert_trace_array written
convert_trace marshal source rs = elim (validate_source_metadata source) [
  | some e ↦ err (invalid_source e)
  | none ↦ written (new_trace_writer marshal source) >>= λ w. convert_trace_array source rs w
]

-- The end of Convert: the file that is published.
unfoldable pub convert :
    (Metadata → Option (List ℕ))
    → SourceMetadata
    → List SourceTraceRecord
    → ℕ
    → List ℕ
    → Result ConvertError (List ℕ)
unfolding convert_trace finish written
convert marshal source rs source_size hash = convert_trace marshal source rs >>= λ w.
    written (finish w source_size hash) >>= λ w'. ok w'.file

-- A source that is valid, as far as it concerns the file.
pub record IsSound (source : SourceMetadata) : Type 0 where
  pub has_layers : 0 < length source.sparse_layers
  pub counted : length source.prompts ≡ source.num_prompts
  pub count_fits : source.num_prompts < 4294967296

-- A prompt that was collected for the source; its numbers fit 32 bits.
pub record IsCollected (source : SourceMetadata) (p : PromptAccumulator) : Type 0 where
  pub layers : length source.sparse_layers ≡ p.num_layers
  pub experts : source.num_experts ≡ p.num_experts
  pub top : source.top_k ≡ p.top_k
  pub index_fits : p.meta.index < 4294967296
  pub input_fits : p.meta.input_tokens < 4294967296
  pub decode_fits : p.meta.decode_tokens < 4294967296
  pub layers_fit : p.num_layers < 4294967296
  pub experts_fit : p.num_experts < 4294967296
  pub top_fits : p.top_k < 4294967296
  pub sized : IsSized p

-- The prompts of the source, in turn, from number `n` on.
abbrev pub AllCollected : SourceMetadata → ℕ → List PromptAccumulator → Type 0
AllCollected source n [] = Unit
AllCollected source n (p ∷ ps) =
    IsCollected source p
    × (get_elem? source.prompts n ≡ some p.meta)
    × AllCollected source (suc n) ps

-- The writer after its start.
pub record Started (marshal : Metadata → Option (List ℕ)) (source : SourceMetadata)
    (w : TraceWriter) : Type 0 where
  pub width_is : expert_id_bytes source.num_experts ≡ ok w.expert_bytes
  pub encoded : marshal (metadata_of source w.expert_bytes) ≡ some w.metadata_bytes
  pub file_is : w.file ≡ replicate 112 0 ++ w.metadata_bytes
  pub placed : IsPlaced w
  pub metadata_is : w.metadata ≡ metadata_of source w.expert_bytes
  pub index_is : w.index ≡ []

pub new_trace_writer-Started :
    (marshal : Metadata → Option (List ℕ)) (source : SourceMetadata) (w : TraceWriter)
    → new_trace_writer marshal source ≡ ok w
    → Started marshal source w
unfolding new_trace_writer
new_trace_writer-Started marshal source w e =
    elim (Result-cases (expert_id_bytes source.num_experts)) [
      | inl (why, refused) ↦ let e' = rw (refused, new_trace_writer) at e in cc
      | inr (bytes, width) ↦ elim (Option-cases (marshal (metadata_of source bytes))) [
        | inl missing ↦ let e' = rw (width, missing, new_trace_writer) at e in cc
        | inr (encoded, found) ↦
            subst (OnOk (Started marshal source)) (rw (width, found, new_trace_writer) at e)
              (record {
                width_is = width;
                encoded = found;
                file_is = refl;
                placed = ap (λ n. n % u64_mod) (sym (length-append (replicate 112 0) encoded));
                metadata_is = refl;
                index_is = refl;
              })
      ]
    ]

pub expert_id_bytes_cases : (n w : ℕ) → expert_id_bytes n ≡ ok w → (w ≡ 1) ⊎ (w ≡ 2)
unfolding expert_id_bytes
expert_id_bytes_cases n w e = ground arith
