-- ===== src/MoeTrace/Source/Grouped.antt =====
-- What convertTraceArray of pkg/moetrace/source.go has written.
use llm_d_inference_sim.MoeTrace.Accumulator.{
  PromptMetadata, PromptAccumulator, SourceTraceRecord, validate_complete,
}
use llm_d_inference_sim.MoeTrace.Source.Records.{records_of-nil, Collected-Built}
use llm_d_inference_sim.MoeTrace.Writer.{SourceMetadata, TraceWriter}
use llm_d_inference_sim.MoeTrace.Open.Layout.{write_prompts}
use llm_d_inference_sim.MoeTrace.Source.{
  Conversion, convert_records, close_all, convert_trace_array, layer_slots,
  validate_source_metadata, record_count,
}
use llm_d_inference_sim.MoeTrace.Source.Valid.{check_prompts-none, validate_source_metadata-none}
use llm_d_inference_sim.MoeTrace.Source.Chain.{Chain}
use llm_d_inference_sim.Common.{
  ℕ, ◌≡◌, refl, ap, ◌∙◌, List, [], none, some, Bool, true, false, if◌then◌else◌, nat_comparable,
  string_comparable, length, get_elem?, ok, err, >>=-eq-ok, arith,
}
use llm_d_inference_sim.MoeTrace.Source.Standing.{convert_records-Standing, close_all-Longer}

-- What passes the last test is the result.
passed : (b : Bool) (v w : TraceWriter) → (if b then ok v else err record_count) ≡ ok w → v ≡ w
passed true v w e = cc e
passed false v w e = cc

-- What convertTraceArray has written: the prompts of the source, in turn, each with all of its records.
pub convert_trace_array-Chain :
    (source : SourceMetadata) (rs : List SourceTraceRecord) (w w' : TraceWriter)
    → validate_source_metadata source ≡ none
    → convert_trace_array source rs w ≡ ok w'
    → (ps : List PromptAccumulator) × Chain source
        (layer_slots 0 source.sparse_layers [])
        w
        rs
        ps
        w'
      × (length ps ≡ source.num_prompts)
unfolding convert_trace_array
convert_trace_array-Chain source rs w w' v e =
    let valid = validate_source_metadata-none source v in
    let slots = layer_slots 0 source.sparse_layers [] in
    let begin : Conversion = record {
      writer = w;
      next_prompt = 0;
      current = none;
      trace_records = 0;
    } in
    let collected = >>=-eq-ok (convert_records source slots rs begin) _ e in
    let c = collected.0 in
    let closed = >>=-eq-ok (close_all source slots c) _ collected.2 in
    let indexed : (n : ℕ) (p : PromptMetadata) → get_elem? source.prompts n ≡ some p → p.index ≡ n =
      λ n p at. omega (arith, (check_prompts-none 0 source.prompts valid.1 n p at).0) in
    let nothing : Chain source slots w [] [] w = record {
      chain = unfold write_prompts in refl;
      sourced = λ i p at. absurd (cc at);
    } in
    let s =
      convert_records-Standing source slots w indexed [] rs begin c
        (([], nothing, refl), λ j l. records_of-nil j) collected.1 in
    let all = close_all-Longer source slots w indexed rs c closed.0 valid.0 s closed.1 in
    (
      all.0,
      record {
        chain = all.1.chain ∙ ap ok (passed _ closed.0 w' closed.2);
        sourced = all.1.sourced;
      },
      all.2,
    )

-- If a source is valid and its records are converted without an error, then the prompts of the source were
-- written, each once and in turn, every one of them complete.
pub convert_trace_array-write_prompts :
    (source : SourceMetadata) (rs : List SourceTraceRecord) (w w' : TraceWriter)
    → validate_source_metadata source ≡ none
    → convert_trace_array source rs w ≡ ok w'
    → (ps : List PromptAccumulator) × (write_prompts w ps ≡ ok w')
      × (length ps ≡ source.num_prompts)
      × ((i : ℕ) (p : PromptAccumulator)
          → get_elem? ps i ≡ some p
          → (get_elem? source.prompts i ≡ some p.meta) × (validate_complete p ≡ none))
convert_trace_array-write_prompts source rs w w' v e =
    let slots = layer_slots 0 source.sparse_layers [] in
    let (ps, c, size) = convert_trace_array-Chain source rs w w' v e in
    (
      ps,
      c.chain,
      size,
      λ i p at.
          let (collected, complete) = c.sourced i p at in
          ((Collected-Built source slots rs i p collected).0, complete),
    )
