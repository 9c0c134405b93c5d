-- ===== src/MoeTrace/Open/RoundTrip.antt =====
-- A trace of pkg/moetrace, from its source's records over converter.go and writer.go to reader.go.
use llm_d_inference_sim.MoeTrace.Length.{u64_mod}
use llm_d_inference_sim.MoeTrace.Accumulator.{
  PromptAccumulator, SourceTraceRecord, validate_complete,
}
use llm_d_inference_sim.MoeTrace.Accumulator.Seen.{get_elem?-lt, get_elem?-within}
use llm_d_inference_sim.MoeTrace.Source.{
  written, validate_source_metadata, convert_trace_array, layer_slots,
}
use llm_d_inference_sim.MoeTrace.Source.Records.{Collected, Collected-Built}
use llm_d_inference_sim.MoeTrace.Source.Chain.{Chain, written-ok}
use llm_d_inference_sim.MoeTrace.Source.Grouped.{convert_trace_array-Chain}
use llm_d_inference_sim.MoeTrace.Source.Valid.{
  check_prompts-none, validate_source_metadata-none, validate_source_metadata_numbers,
}
use llm_d_inference_sim.MoeTrace.Writer.{
  Metadata, SourceMetadata, TraceWriter, new_trace_writer, finish,
}
use llm_d_inference_sim.MoeTrace.Reader.{Reader, read_prompt}
use llm_d_inference_sim.MoeTrace.Reader.Blocks.{data_of}
use llm_d_inference_sim.MoeTrace.Open.{open_trace}
use llm_d_inference_sim.MoeTrace.Open.Convert.{
  convert, convert_trace, IsSound, IsCollected, AllCollected, new_trace_writer-Started,
}
use llm_d_inference_sim.MoeTrace.Open.Parts.{file, h}
use llm_d_inference_sim.Common.Int.{pos}
use llm_d_inference_sim.Common.{
  ℕ, suc, [], ◌∷◌, none, Option-cases, ◌+◌, ◌<◌, ◌≡◌, refl, sym, ap, ◌∙◌, List, Option, some,
  nat_comparable, length, get_elem?, ok, >>=-eq-ok, arith, inl, inr,
}
use llm_d_inference_sim.MoeTrace.Open.Written.{written_parts}

-- The prompts that were written, as the reader is to find them.
all_collected :
    (source : SourceMetadata) (n : ℕ) (ps : List PromptAccumulator)
    → ((i : ℕ) (p : PromptAccumulator)
        → get_elem? ps i ≡ some p
        → IsCollected source p × (get_elem? source.prompts (n + i) ≡ some p.meta))
    → AllCollected source n ps
all_collected source n [] h = tt
all_collected source n (p ∷ ps) h =
    let (here, found) = h 0 p refl in
    (
      here,
      ap (λ k. get_elem? source.prompts k) (omega arith) ∙ found,
      all_collected source (suc n) ps (λ i q at.
          let (known, there) = h (suc i) q at in
          (known, ap (λ k. get_elem? source.prompts k) (omega arith) ∙ there)),
    )

module _ (source : SourceMetadata) (valid : validate_source_metadata source ≡ none)
    (prompts_fit : source.num_prompts < 4294967296)
    (layers_fit : source.num_sparse_layers < 4294967296) where
  valid-IsSound : IsSound source
  valid-IsSound =
      let numbers = validate_source_metadata_numbers source valid in
      record {
        has_layers = omega (arith, numbers);
        counted = (validate_source_metadata-none source valid).0;
        count_fits = prompts_fit;
      }

  Collected-IsCollected :
      (rs : List SourceTraceRecord) (n : ℕ) (p : PromptAccumulator)
      → n < source.num_prompts
      → Collected source (layer_slots 0 source.sparse_layers []) rs n p
      → IsCollected source p × (get_elem? source.prompts n ≡ some p.meta)
  Collected-IsCollected rs n p l c =
      let (found, b) = Collected-Built source (layer_slots 0 source.sparse_layers []) rs n p c in
      let numbers = validate_source_metadata_numbers source valid in
      let checked =
        check_prompts-none 0 source.prompts (validate_source_metadata-none source valid).1 n p.meta
          found in
      (
        record {
          layers = omega (arith, numbers.0, b.layers_is);
          experts = sym b.experts_is;
          top = sym b.top_is;
          index_fits = omega (arith, checked.0, l, prompts_fit);
          input_fits = checked.1;
          decode_fits = checked.2;
          layers_fit = omega (arith, b.layers_is, layers_fit);
          experts_fit = omega (arith, b.experts_is, numbers.2);
          top_fits = omega (arith, b.top_is, numbers.2, numbers.3);
          sized = b.sized;
        },
        found,
      )

  Chain-AllCollected :
      (rs : List SourceTraceRecord) (w w' : TraceWriter) (ps : List PromptAccumulator)
      → Chain source (layer_slots 0 source.sparse_layers []) w rs ps w'
      → length ps ≡ source.num_prompts
      → AllCollected source 0 ps
  Chain-AllCollected rs w w' ps c size = all_collected source 0 ps (λ i p at.
      let (known, found) =
        Collected-IsCollected rs i p (omega (arith, get_elem?-lt ps i at, size))
          (c.sourced i p at).0 in
      (known, ap (λ k. get_elem? source.prompts k) (omega arith) ∙ found))

-- What `convert` has gone through.
convert_trace-steps :
    (marshal : Metadata → Option (List ℕ)) (source : SourceMetadata) (rs : List SourceTraceRecord)
    (w' : TraceWriter)
    → convert_trace marshal source rs ≡ ok w'
    → (validate_source_metadata source ≡ none)
      × ((w : TraceWriter) × (new_trace_writer marshal source ≡ ok w)
          × (convert_trace_array source rs w ≡ ok w'))
unfolding convert_trace
convert_trace-steps marshal source rs w' e = elim (Option-cases (validate_source_metadata source)) [
  | inr (why, refused) ↦ let e' = rw (refused, convert_trace) at e in cc
  | inl valid ↦
      let start =
        >>=-eq-ok (written (new_trace_writer marshal source)) _ (rw (valid, convert_trace) at e) in
      (valid, (start.0, written-ok (new_trace_writer marshal source) start.0 start.1, start.2))
]

-- The prompt `n` is read from the file as its records among `rs` have added up: each of them was taken by
-- the prompt's new accumulator, and none is missing.
abbrev pub ReadBack : SourceMetadata → List SourceTraceRecord → Reader → ℕ → Type 0
ReadBack source rs r n =
    (p : PromptAccumulator) × Collected source (layer_slots 0 source.sparse_layers []) rs n p
    × (validate_complete p ≡ none)
    × (read_prompt r (pos n) ≡ ok (data_of p 0))

-- If a source and its records are converted to a file without an error, then the file is opened, and each
-- prompt of the source is read with the tokens, the counts and the routes that its records, taken in turn
-- by a new accumulator, have added up to, and that accumulator is complete. `unmarshal` decodes the
-- metadata that `marshal` encodes; the numbers of prompts and of layers are below 2 ^ 32, the file's and
-- the source's sizes below 2 ^ 64, and the hash has 32 bytes.
pub open_trace-convert :
    (marshal : Metadata → Option (List ℕ)) (unmarshal : List ℕ → Option Metadata)
    (source : SourceMetadata) (rs : List SourceTraceRecord) (source_size : ℕ) (hash file : List ℕ)
    → ((m : Metadata) (bs : List ℕ) → marshal m ≡ some bs → unmarshal bs ≡ some m)
    → source.num_prompts < 4294967296
    → source.num_sparse_layers < 4294967296
    → source_size < u64_mod
    → length hash ≡ 32
    → length file < u64_mod
    → convert marshal source rs source_size hash ≡ ok file
    → (r : Reader) × (open_trace unmarshal file ≡ ok r)
      × ((n : ℕ) → n < source.num_prompts → ReadBack source rs r n)
unfolding convert
open_trace-convert marshal unmarshal source rs source_size hash file decodes prompts_fit layers_fit
      source_fits hashed small e =
    let converted = >>=-eq-ok (convert_trace marshal source rs) _ e in
    let w' = converted.0 in
    let end = >>=-eq-ok (written (finish w' source_size hash)) _ converted.2 in
    let (valid, (w, began, grouped)) = convert_trace-steps marshal source rs w' converted.1 in
    let (ps, c, size) = convert_trace_array-Chain source rs w w' valid grouped in
    let (r, opened, reads) =
      written_parts marshal unmarshal source ps source_size hash file decodes
        (valid-IsSound source valid prompts_fit layers_fit)
        (Chain-AllCollected source valid prompts_fit layers_fit rs w w' ps c size) source_fits
        hashed small w w' end.0 (new_trace_writer-Started marshal source w began) c.chain
        (written-ok (finish w' source_size hash) end.0 end.1) (cc end.2) in
    (
      r,
      opened,
      λ n l.
          let (p, at) = get_elem?-within ps n (omega (arith, l, size)) in
          let (collected, complete) = c.sourced n p at in (p, collected, complete, reads n p at),
    )
