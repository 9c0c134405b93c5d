-- ===== src/MoeTrace/Source.antt =====
-- The conversion of the records of pkg/moetrace/source.go: validateSourceMetadata and convertTraceArray.
-- encoding/json has decoded the records. The numbers of the metadata are natural, so that the tests for
-- negative ones fall away. Progress reports are left out.
pub mod Records
pub mod Valid
pub mod Chain
pub mod Standing
pub mod Grouped
use llm_d_inference_sim.MoeTrace.Accumulator.{
  PromptMetadata, PromptAccumulator, SourceTraceRecord, AddError, new_prompt_accumulator,
  expected_records, in_range, add,
}
use llm_d_inference_sim.MoeTrace.Writer.{SourceMetadata, TraceWriter, WriteError, write_prompt}
use llm_d_inference_sim.Common.Int.{ℤ, pos, negsuc}
use llm_d_inference_sim.Common.Maps.{Map, lookup, insert}
use llm_d_inference_sim.Common.{
  ℕ, zero, suc, ◌+◌, ◌-◌, ◌*◌, List, [], ◌∷◌, Option, none, some, String, Bool, true, false, not,
  ◌&&◌, ◌||◌, if◌then◌else◌, ltb, leb, ◌==◌, nat_comparable, string_comparable, length, get_elem?,
  contains, Result, ok, err, ◌>>=◌,
}

pub data SourceError : Type 0 where
  no_model invalid_experts invalid_top_k layer_count prompt_count : SourceError
  duplicate_layer prompt_index too_many_tokens : ℕ → SourceError

-- The loop over the layers.
pub repeated_layer : List ℕ → List ℕ → Option ℕ
repeated_layer seen [] = none
repeated_layer seen (layer ∷ layers) =
    let rest = repeated_layer (layer ∷ seen) layers in
    if contains layer seen then some layer else rest

-- The loop over the prompts, from number `i` on.
unfoldable pub check_prompts : ℕ → List PromptMetadata → Option SourceError
check_prompts i [] = none
check_prompts i (p ∷ ps) =
    let rest = check_prompts (suc i) ps in
    if not (p.index == i)
    then some (prompt_index i)
    else if ltb 4294967295 p.input_tokens || ltb 4294967295 p.decode_tokens
    then some (too_many_tokens i)
    else rest

unfoldable pub validate_source_metadata : SourceMetadata → Option SourceError
unfolding repeated_layer check_prompts
validate_source_metadata source =
    if source.model == ""
    then some no_model
    else if ltb source.num_experts 1 || ltb 65536 source.num_experts
    then some invalid_experts
    else if ltb source.top_k 1 || ltb source.num_experts source.top_k
    then some invalid_top_k
    else if not (source.num_sparse_layers == length source.sparse_layers)
        || ltb source.num_sparse_layers 1
    then some layer_count
    else elim (repeated_layer [] source.sparse_layers) [
      | some layer ↦ some (duplicate_layer layer)
      | none ↦
          if not (source.num_prompts == length source.prompts) || ltb source.num_prompts 1
          then some prompt_count
          else check_prompts 0 source.prompts
    ]

-- Each layer with its slot, from slot `i` on.
pub layer_slots : ℕ → List ℕ → Map ℕ ℕ → Map ℕ ℕ
layer_slots i [] slots = slots
layer_slots i (layer ∷ layers) slots = layer_slots (suc i) layers (insert layer i slots)

-- `out_of_range` is the panic of an index.
pub data ConvertError : Type 0 where
  out_of_range invalid_prompt not_grouped missing_records record_count : ConvertError
  invalid_source : SourceError → ConvertError
  not_added : AddError → ConvertError
  not_written : WriteError → ConvertError

-- The variables of convertTraceArray.
pub record Conversion : Type 0 where
  pub writer : TraceWriter
  pub next_prompt : ℕ
  pub current : Option PromptAccumulator
  pub trace_records : ℕ

unfoldable pub written : Result WriteError TraceWriter → Result ConvertError TraceWriter
written (ok w) = ok w
written (err e) = err (not_written e)

-- newPromptAccumulator for prompt `n` of the source.
pub prompt_accumulator : SourceMetadata → Map ℕ ℕ → ℕ → Result ConvertError PromptAccumulator
unfolding new_prompt_accumulator
prompt_accumulator source slots n = elim (get_elem? source.prompts n) [
  | none ↦ err out_of_range
  | some p ↦
      elim (new_prompt_accumulator p.index p.prompt (pos p.input_tokens) (pos p.decode_tokens)
        p.generated_text source.num_sparse_layers source.num_experts source.top_k slots) [
          | err e ↦ err (not_added e)
          | ok acc ↦ ok acc
        ]
]

-- The prompts without records, `k` of them from prompt `n` on.
pub write_empty : SourceMetadata → Map ℕ ℕ → ℕ → ℕ → TraceWriter → Result ConvertError TraceWriter
unfolding written prompt_accumulator
write_empty source slots zero n w = ok w
write_empty source slots (suc k) n w = prompt_accumulator source slots n >>= λ empty.
    if not (expected_records empty == 0)
    then err missing_records
    else written (write_prompt w empty) >>= λ w'. write_empty source slots k (suc n) w'

-- The prompt that was collected is written when another begins.
pub close_current : Conversion → ℕ → Result ConvertError Conversion
unfolding written
close_current c n = elim c.current [
  | none ↦ ok c
  | some p ↦
      if ltb n p.meta.index
      then err not_grouped
      else written (write_prompt c.writer p) >>= λ w.
          ok (record c { writer = w; next_prompt = p.meta.index + 1; current = none })
]

-- Prompt `n` begins, after those before it that have no records.
pub begin_prompt : SourceMetadata → Map ℕ ℕ → ℕ → Conversion → Result ConvertError Conversion
unfolding write_empty prompt_accumulator
begin_prompt source slots n c =
    write_empty source slots (n - c.next_prompt) c.next_prompt c.writer >>= λ w.
    if ltb n c.next_prompt
    then err not_grouped
    else prompt_accumulator source slots n >>= λ p.
        ok (record c { writer = w; next_prompt = n; current = some p })

-- The record's prompt is the current one, or becomes it.
pub turn_to : SourceMetadata → Map ℕ ℕ → ℕ → Conversion → Result ConvertError Conversion
unfolding close_current begin_prompt
turn_to source slots n c = elim c.current [
  | none ↦ begin_prompt source slots n c
  | some p ↦ if n == p.meta.index then ok c else close_current c n >>= begin_prompt source slots n
]

-- A record is added to the current prompt.
pub add_current : SourceTraceRecord → Conversion → Result ConvertError Conversion
unfolding add
add_current r c = elim c.current [
  | none ↦ err out_of_range
  | some p ↦ elim (add p r).1 [
    | some e ↦ err (not_added e)
    | none ↦ ok (record c { current = some (add p r).0; trace_records = c.trace_records + 1 })
  ]
]

-- The loop over the records.
pub convert_records :
    SourceMetadata → Map ℕ ℕ → List SourceTraceRecord → Conversion → Result ConvertError Conversion
unfolding turn_to add_current
convert_records source slots [] c = ok c
convert_records source slots (r ∷ rs) c = elim (in_range r.prompt source.num_prompts) [
  | none ↦ err invalid_prompt
  | some n ↦ turn_to source slots n c >>= add_current r >>= λ c'. convert_records source slots rs c'
]

-- After the last record: the current prompt and the empty ones that follow.
pub close_all : SourceMetadata → Map ℕ ℕ → Conversion → Result ConvertError TraceWriter
unfolding close_current write_empty
close_all source slots c =
    let n : ℕ = elim c.current [ none ↦ 0 | some p ↦ p.meta.index ] in
    close_current c n >>= λ c'.
    write_empty source slots (source.num_prompts - c'.next_prompt) c'.next_prompt c'.writer

pub expected_trace_records : ℕ → List PromptMetadata → ℕ
expected_trace_records layers [] = 0
expected_trace_records layers (p ∷ ps) =
    (p.input_tokens + p.decode_tokens) * layers + expected_trace_records layers ps

unfoldable pub convert_trace_array :
    SourceMetadata → List SourceTraceRecord → TraceWriter → Result ConvertError TraceWriter
unfolding layer_slots convert_records close_all expected_trace_records
convert_trace_array source rs w =
    let slots = layer_slots 0 source.sparse_layers [] in
    convert_records source slots rs
      (record { writer = w; next_prompt = 0; current = none; trace_records = 0 })
    >>= λ c. close_all source slots c >>= λ w'.
        if c.trace_records == expected_trace_records source.num_sparse_layers source.prompts
        then ok w'
        else err record_count
