-- ===== src/MoeTrace/Tests.antt =====
-- The theorems about the traces of pkg/moetrace at small inputs, and tests of the definitions.
use llm_d_inference_sim.MoeTrace.Header.{
  FileHeader, IndexEntry, write_header, read_header, write_index_entry, read_index_entry,
}
use llm_d_inference_sim.MoeTrace.Header.Codec.{
  IsSupported, read_header-write_header, read_index_entry-write_index_entry,
}
use llm_d_inference_sim.MoeTrace.Length.{
  prompt_block_length, expert_id_bytes, u64_mod, prompt_block_length_for_version, size_overflows,
}
use llm_d_inference_sim.MoeTrace.Length.Exact.{
  Checked, IsPositive, exact_length, prompt_block_length_for_version-Checked,
}
use llm_d_inference_sim.MoeTrace.Accumulator.{
  PromptMetadata, PromptAccumulator, SourceTraceRecord, new_prompt_accumulator, add,
  validate_complete, expected_records, duplicate_route, missing_prefill_route,
}
use llm_d_inference_sim.MoeTrace.Accumulator.Complete.{add_records, validate_complete-add_records}
use llm_d_inference_sim.MoeTrace.Writer.{
  Metadata, SourceMetadata, TraceWriter, new_trace_writer, prompt_header, finish,
}
use llm_d_inference_sim.MoeTrace.Open.Layout.{write_prompts}
use llm_d_inference_sim.MoeTrace.Slices.{expert_bytes, uint32_bytes}
use llm_d_inference_sim.MoeTrace.Reader.{
  Reader, read_prompt, prefill_experts, decode_experts, prefill_expert_count,
}
use llm_d_inference_sim.MoeTrace.Reader.Lookups.{read_prompt-lookups}
use llm_d_inference_sim.MoeTrace.Slices.{read_uint32_slice, read_expert_slice}
use llm_d_inference_sim.MoeTrace.Words.{read_full}
use llm_d_inference_sim.MoeTrace.Reader.Blocks.{data_of}
use llm_d_inference_sim.MoeTrace.Open.{open_trace}
use llm_d_inference_sim.MoeTrace.Open.Convert.{convert, convert_trace}
use llm_d_inference_sim.MoeTrace.Open.RoundTrip.{ReadBack, open_trace-convert}
use llm_d_inference_sim.MoeTrace.Source.{
  ConvertError, written, convert_trace_array, validate_source_metadata,
}
use llm_d_inference_sim.MoeTrace.Source.Grouped.{convert_trace_array-write_prompts}
use mathlib.Core.Logic.{ite, if_pos, if_neg}
use Prim.Native.String.{String}
use native.Mathlib.Decide.{ℕ_discrete}
use llm_d_inference_sim.Common.Int.{pos}
use llm_d_inference_sim.Common.Maps.{Map, lookup, insert}
use llm_d_inference_sim.Common.{
  ℕ, ◌≤◌, ◌<◌, ◌≡◌, ◌↔◌, inl, inr, refl, sym, ap, ◌∙◌, ◌>>=◌, List, [], ◌∷◌, ◌++◌, Option, none,
  some, length, replicate, get_elem?, Result, ok, err, arith, nat_comparable, string_comparable,
  ◌==◌, Bool-cases, true, false,
}

abbrev slots : Map ℕ ℕ
slots = (3, 0) ∷ []

abbrev prompt : PromptMetadata
prompt = record {
  index = 0;
  prompt = "hi";
  input_tokens = 1;
  decode_tokens = 1;
  generated_text = "ok";
}

abbrev fresh : PromptAccumulator
fresh = record {
  meta = prompt;
  num_layers = 1;
  num_experts = 2;
  top_k = 1;
  layer_slots = slots;
  input_token_ids = 0 ∷ [];
  decode_token_ids = 0 ∷ [];
  input_token_seen = false ∷ [];
  decode_token_seen = false ∷ [];
  prefill_seen = false ∷ [];
  decode_seen = false ∷ [];
  prefill_counts = 0 ∷ 0 ∷ [];
  prefill_routes = 0 ∷ [];
  decode_routes = 0 ∷ [];
}

abbrev prefill_record : SourceTraceRecord
prefill_record = record {
  prompt = pos 0;
  layer = 3;
  token_id = pos 7;
  position = pos 0;
  phase = "prefill";
  experts = pos 1 ∷ [];
  gate_weights = 0;
}

abbrev decode_record : SourceTraceRecord
decode_record = record {
  prompt = pos 0;
  layer = 3;
  token_id = pos 9;
  position = pos 1;
  phase = "decode";
  experts = pos 1 ∷ [];
  gate_weights = 1;
}

abbrev records : List SourceTraceRecord
records = prefill_record ∷ decode_record ∷ []

abbrev collected : PromptAccumulator
collected = record fresh {
  input_token_ids = 7 ∷ [];
  decode_token_ids = 9 ∷ [];
  input_token_seen = true ∷ [];
  decode_token_seen = true ∷ [];
  prefill_seen = true ∷ [];
  decode_seen = true ∷ [];
  prefill_counts = 0 ∷ 1 ∷ [];
  prefill_routes = 1 ∷ [];
  decode_routes = 1 ∷ [];
}

starts : new_prompt_accumulator 0 "hi" (pos 1) (pos 1) "ok" 1 2 1 slots ≡ ok fresh
unfolding new_prompt_accumulator
starts = refl

collects : add_records fresh records ≡ (collected, none)
unfolding add_records lookup
collects = refl

refuses_again : (add collected prefill_record).1 ≡ some duplicate_route
unfolding add lookup
refuses_again = refl

misses_route :
    validate_complete (record collected { prefill_seen = false ∷ [] })
    ≡ some (missing_prefill_route 0)
unfolding validate_complete
misses_route = refl

slots_within : (layer slot : ℕ) → lookup layer slots ≡ some slot → slot < 1
unfolding lookup
slots_within layer slot e = ground (arith, e)

validate_complete-add_records_example :
    (validate_complete collected ≡ none) ↔ (length records ≡ expected_records collected)
validate_complete-add_records_example =
    validate_complete-add_records 0 "hi" 1 1 "ok" 1 2 1 slots records fresh collected (omega arith)
      slots_within starts collects

abbrev header : FileHeader
header = record {
  version = 1;
  metadata_offset = 112;
  metadata_length = 3;
  data_offset = 115;
  index_offset = 160;
  index_length = 32;
  source_size = 70000;
  num_prompts = 1;
  expert_id_bytes = 1;
  source_sha256 = replicate 32 7;
}

header-IsSupported : IsSupported header
header-IsSupported = record {
  version_low = omega arith;
  version_high = omega arith;
  metadata_offset_fits = omega arith;
  metadata_length_fits = omega arith;
  data_offset_fits = omega arith;
  index_offset_fits = omega arith;
  index_length_fits = omega arith;
  source_size_fits = omega arith;
  num_prompts_fits = omega arith;
  width = inl refl;
  hash_length = refl;
}

read_header-write_header_example : read_header (write_header header ++ 5 ∷ []) ≡ ok header
read_header-write_header_example = read_header-write_header header (5 ∷ []) header-IsSupported

abbrev entry : IndexEntry
entry = record { prompt_id = 4; offset = 300; length = 45; input_tokens = 2; decode_tokens = 1 }

read_index_entry-write_index_entry_example :
    read_index_entry (1 ∷ 2 ∷ (write_index_entry entry ++ 9 ∷ [])) 2 ≡ some entry
read_index_entry-write_index_entry_example =
    read_index_entry-write_index_entry (1 ∷ 2 ∷ []) entry (9 ∷ []) (record {
      prompt_id_fits = omega arith;
      offset_fits = omega arith;
      length_fits = omega arith;
      input_tokens_fits = omega arith;
      decode_tokens_fits = omega arith;
    })

prompt_block_length_for_version-Checked_example :
    Checked
      (exact_length 2 3 4 8 2 1 2 1)
      (IsPositive 2 1 2 1 → u64_mod ≤ exact_length 2 3 4 8 2 1 2 1)
      (prompt_block_length_for_version 2 3 4 8 2 1 2 1)
prompt_block_length_for_version-Checked_example =
    prompt_block_length_for_version-Checked 2 3 4 8 2 1 2 1

computes_length : prompt_block_length_for_version 2 3 4 8 2 1 2 1 ≡ ok 240
unfolding prompt_block_length_for_version
computes_length = refl

reports_overflow :
    prompt_block_length_for_version 4294967295 1 4294967296 8 2 2 1 0 ≡ err size_overflows
unfolding prompt_block_length_for_version
reports_overflow = refl

String-discrete : Discrete String
String-discrete s t = elim (Bool-cases (s == t)) [
  | inl e ↦ yes ((string_comparable.test_iff s t).0 e)
  | inr e ↦ no (λ p. let e' = (string_comparable.test_iff s t).1 p in absurd (cc))
]

PromptMetadata-discrete : Discrete PromptMetadata
PromptMetadata-discrete = hlevel (ℕ_discrete, String-discrete)

Metadata-discrete : Discrete Metadata
Metadata-discrete = hlevel (ℕ_discrete, String-discrete, PromptMetadata-discrete)

abbrev source : SourceMetadata
source = record {
  model = "m";
  num_experts = 2;
  top_k = 1;
  sparse_layers = 3 ∷ [];
  num_sparse_layers = 1;
  num_prompts = 1;
  prompts = prompt ∷ [];
}

abbrev metadata : Metadata
metadata = record {
  metadata_version = 1;
  model = "m";
  num_experts = 2;
  top_k = 1;
  sparse_layers = 3 ∷ [];
  num_prompts = 1;
  metadata_expert_bytes = 1;
  source_gpu_bytes = 0;
  prompts = prompt ∷ [];
}

-- An encoder of these metadata only, as two bytes.
marshal : Metadata → Option (List ℕ)
marshal m = ite (Metadata-discrete m metadata) (some (123 ∷ 125 ∷ [])) none

abbrev unmarshal : List ℕ → Option Metadata
unmarshal bs = some metadata

decodes : (m : Metadata) (bs : List ℕ) → marshal m ≡ some bs → unmarshal bs ≡ some m
unfolding marshal
decodes m bs e = elim (Metadata-discrete m metadata) [
  | yes same ↦ ap some (sym same)
  | no other ↦ let e' = rw (if_neg (Metadata-discrete m metadata) other) at e in cc
]

encodes : marshal metadata ≡ some (123 ∷ 125 ∷ [])
unfolding marshal
encodes = if_pos (Metadata-discrete metadata metadata) refl _ _

abbrev hash : List ℕ
hash = replicate 32 7

-- The header, the metadata, the block of the prompt and its entry.
file : List ℕ
file =
    write_header (record {
      version = 1;
      metadata_offset = 112;
      metadata_length = 2;
      data_offset = 114;
      index_offset = 164;
      index_length = 32;
      source_size = 70000;
      num_prompts = 1;
      expert_id_bytes = 1;
      source_sha256 = hash;
    })
    ++ (123
        ∷ 125
        ∷ (prompt_header collected 1
            ++ (7 ∷ 0 ∷ 0 ∷ 0 ∷ 9 ∷ 0 ∷ 0 ∷ 0 ∷ 0 ∷ 0 ∷ 0 ∷ 0 ∷ 1 ∷ 0 ∷ 0 ∷ 0 ∷ 1 ∷ 1 ∷ [])
            ++ write_index_entry (record {
              prompt_id = 0;
              offset = 114;
              length = 50;
              input_tokens = 1;
              decode_tokens = 1;
            })))

abbrev writer : TraceWriter
writer = record {
  file = replicate 112 0 ++ (123 ∷ 125 ∷ []);
  offset = 114;
  metadata = metadata;
  metadata_bytes = 123 ∷ 125 ∷ [];
  expert_bytes = 1;
  index = [];
}

begins : new_trace_writer marshal source ≡ ok writer
unfolding new_trace_writer expert_id_bytes
begins = rw (encodes, new_trace_writer) refl

-- The writer after the prompt.
after : TraceWriter
after = record writer {
  file =
      writer.file
      ++ (prompt_header collected 1
          ++ (7 ∷ 0 ∷ 0 ∷ 0 ∷ 9 ∷ 0 ∷ 0 ∷ 0 ∷ 0 ∷ 0 ∷ 0 ∷ 0 ∷ 1 ∷ 0 ∷ 0 ∷ 0 ∷ 1 ∷ 1 ∷ []));
  offset = 164;
  index =
      record { prompt_id = 0; offset = 114; length = 50; input_tokens = 1; decode_tokens = 1 } ∷ [];
}

source_is_valid : validate_source_metadata source ≡ none
unfolding validate_source_metadata
source_is_valid = refl

converts_records : convert_trace_array source records writer ≡ ok after
unfolding convert_trace_array after lookup insert new_prompt_accumulator add write_prompts
    validate_complete prompt_block_length expert_bytes uint32_bytes prompt_header
converts_records = refl

convert_trace_array-write_prompts_example :
    (ps : List PromptAccumulator) × (write_prompts writer ps ≡ ok after)
    × (length ps ≡ 1)
    × ((i : ℕ) (p : PromptAccumulator)
        → get_elem? ps i ≡ some p
        → (get_elem? (prompt ∷ []) i ≡ some p.meta) × (validate_complete p ≡ none))
convert_trace_array-write_prompts_example =
    convert_trace_array-write_prompts source records writer after source_is_valid converts_records

writes : finish after 70000 hash ≡ ok (record after { file = file; offset = 196 })
unfolding finish file after prompt_header write_header write_index_entry
writes = refl

traces :
    (encode : Metadata → Option (List ℕ)) (meta : SourceMetadata) (rs : List SourceTraceRecord)
    (w w' : TraceWriter)
    → validate_source_metadata meta ≡ none
    → new_trace_writer encode meta ≡ ok w
    → convert_trace_array meta rs w ≡ ok w'
    → convert_trace encode meta rs ≡ ok w'
unfolding convert_trace written
traces encode meta rs w w' v b c = rw (v, b, convert_trace) c

abbrev published : TraceWriter → Result ConvertError (List ℕ)
published w = written (finish w 70000 hash) >>= λ w'. ok w'.file

converts : convert marshal source records 70000 hash ≡ ok file
unfolding convert convert_trace written
converts =
    ap (λ m. m >>= published)
      (traces marshal source records writer after source_is_valid begins converts_records)
    ∙ ap (λ m. written m >>= λ w. ok w.file) writes

short : length file < u64_mod
unfolding file write_header prompt_header write_index_entry
short = omega arith

open_trace-convert_example :
    (r : Reader) × (open_trace unmarshal file ≡ ok r)
    × ((n : ℕ) → n < 1 → ReadBack source records r n)
open_trace-convert_example =
    open_trace-convert marshal unmarshal source records 70000 hash file decodes (omega arith)
      (omega arith) (omega arith) refl short converts

abbrev reader : Reader
reader = record {
  file = file;
  file_size = 196;
  header = header;
  metadata = metadata;
  index =
      record { prompt_id = 0; offset = 114; length = 50; input_tokens = 1; decode_tokens = 1 } ∷ [];
}

reads : read_prompt reader (pos 0) ≡ ok (data_of collected 0)
unfolding read_prompt read_full read_uint32_slice read_expert_slice file write_header prompt_header
    write_index_entry
reads = refl

read_prompt-lookups_example :
    ((xs : List ℕ) × (prefill_experts (data_of collected 0) (pos 0) (pos 0) ≡ ok xs)
      × (length xs ≡ 1))
    × ((ys : List ℕ) × (decode_experts (data_of collected 0) (pos 0) (pos 0) ≡ ok ys)
        × (length ys ≡ 1))
    × ((c : ℕ) × (prefill_expert_count (data_of collected 0) (pos 0) (pos 1) ≡ ok c))
read_prompt-lookups_example =
    read_prompt-lookups reader (pos 0) (data_of collected 0) 0 0 0 1 reads (omega arith)
      (omega arith) (omega arith) (omega arith)
