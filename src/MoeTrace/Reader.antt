-- ===== src/MoeTrace/Reader.antt =====
-- The reader of pkg/moetrace/reader.go. The file is the list of its bytes; encoding/json's Unmarshal is a
-- parameter. A length that is below the size of a block's header is refused by Validate, so that the
-- subtraction of ReadPrompt does not wrap.
pub mod Blocks
pub mod Lookups
use llm_d_inference_sim.MoeTrace.Words.{take, drop, u32, read_full}
use llm_d_inference_sim.MoeTrace.Header.{
  FileHeader, IndexEntry, FormatError, format_version, header_size, index_entry_size, read_header,
  read_index_entry,
}
use llm_d_inference_sim.MoeTrace.Length.{
  u64_mod, SizeError, expert_id_bytes, prompt_block_header_size, prompt_block_length_for_version,
}
use llm_d_inference_sim.MoeTrace.Accumulator.{PromptMetadata}
use llm_d_inference_sim.MoeTrace.Slices.{read_uint32_slice, read_expert_slice}
use llm_d_inference_sim.MoeTrace.Writer.{Metadata}
use llm_d_inference_sim.Common.Int.{ℤ, pos, negsuc}
use llm_d_inference_sim.Common.{
  ℕ, suc, ◌+◌, ◌-◌, ◌*◌, ◌%◌, List, [], ◌∷◌, ◌++◌, Option, none, some, String, Bool, true, false,
  not, ◌&&◌, ◌||◌, if◌then◌else◌, ltb, leb, ◌==◌, nat_comparable, length, get_elem?, Result, ok,
  err, ◌>>=◌,
}

abbrev pub unknown_source_gpu : ℕ
unknown_source_gpu = 255

abbrev pub max_source_gpu : ℕ
max_source_gpu = 127

abbrev pub supported_source_gpu_bytes : ℕ
supported_source_gpu_bytes = 1

pub record Reader : Type 0 where
  pub file : List ℕ
  pub file_size : ℕ
  pub header : FileHeader
  pub metadata : Metadata
  pub index : List IndexEntry

pub record PromptData : Type 0 where
  pub metadata : PromptMetadata
  pub input_token_ids : List ℕ
  pub decode_token_ids : List ℕ
  pub prefill_counts : List ℕ
  pub prefill_routes : List ℕ
  pub decode_routes : List ℕ
  pub prefill_source_gpus : List ℕ
  pub decode_source_gpus : List ℕ
  pub num_layers : ℕ
  pub num_experts : ℕ
  pub top_k : ℕ
  pub version : ℕ
  pub source_gpu_bytes : ℕ

pub data ReadError : Type 0 where
  file_too_short metadata_region index_region metadata_offset data_offset index_size
        metadata_not_read metadata_mismatch source_gpu_width invalid_metadata expert_count
        expert_width data_after_index data_end trailing_data not_a_prompt input_tokens_not_read
        decode_tokens_not_read counts_not_read prefill_routes_not_read decode_routes_not_read
        source_gpus_not_read unread_data lookup_out_of_range out_of_range :
      ReadError
  format_error : FormatError → ReadError
  index_not_read wrong_prompt_id prompt_start prompt_region overlaps_index prompt_header_not_read
        header_mismatch dimension_mismatch size_overflow wrong_length prompt_metadata_mismatch :
      ℕ → ReadError
  source_gpu_unsupported : ℕ → ReadError

-- No part of the region is beyond the file.
unfoldable pub validate_region : ℕ → ℕ → ℕ → Bool
validate_region offset size file_size = not (ltb file_size offset || ltb (file_size - offset) size)

-- The first value that is neither unknown nor supported.
pub validate_source_gpus : List ℕ → Option ℕ
validate_source_gpus [] = none
validate_source_gpus (v ∷ values) =
    if v == unknown_source_gpu
    then validate_source_gpus values
    else elim (ltb max_source_gpu v) [ true ↦ some v | false ↦ validate_source_gpus values ]

abbrev pub required : {A : Type 0} → Option A → ReadError → Result ReadError A
required none e = err e
required (some a) e = ok a

abbrev pub check : Bool → ReadError → Result ReadError ℕ
check true e = ok 0
check false e = err e

-- The source GPUs of a trace of version 2 or above.
pub read_source_gpus : ℕ → ℕ → ℕ → List ℕ → Result ReadError (List ℕ × List ℕ × List ℕ)
unfolding validate_source_gpus
read_source_gpus version prefill_entries decode_entries section =
    if leb 2 version
    then (do
      prefill ← required (read_full prefill_entries section) source_gpus_not_read
      decode ← required (read_full decode_entries prefill.1) source_gpus_not_read
      elim (validate_source_gpus prefill.0) [
        | some v ↦ err (source_gpu_unsupported v)
        | none ↦ elim (validate_source_gpus decode.0) [
          | some v ↦ err (source_gpu_unsupported v)
          | none ↦ ok (prefill.0, decode.0, decode.1)
        ]
      ])
    else ok ([], [], section)

-- The parts of a block, in turn, from the bytes after its header.
pub read_section : Reader → IndexEntry → PromptMetadata → List ℕ → Result ReadError PromptData
unfolding read_source_gpus
read_section r entry meta section =
    let layers = length r.metadata.sparse_layers in
    let width = r.metadata.metadata_expert_bytes in
    required (read_uint32_slice entry.input_tokens section) input_tokens_not_read >>= λ input.
    required (read_uint32_slice entry.decode_tokens input.1) decode_tokens_not_read >>= λ decode.
    required (read_uint32_slice (layers * r.metadata.num_experts) decode.1) counts_not_read
    >>= λ counts.
        required (read_expert_slice (layers * entry.input_tokens * r.metadata.top_k) width counts.1)
          prefill_routes_not_read
        >>= λ prefill.
            required
              (read_expert_slice (entry.decode_tokens * layers * r.metadata.top_k) width prefill.1)
              decode_routes_not_read
            >>= λ routes.
                read_source_gpus r.header.version (layers * entry.input_tokens)
                  (entry.decode_tokens * layers) routes.1
                >>= λ sources. check (length sources.2 == 0) unread_data >>= λ _. ok (record {
                  metadata = meta;
                  input_token_ids = input.0;
                  decode_token_ids = decode.0;
                  prefill_counts = counts.0;
                  prefill_routes = prefill.0;
                  decode_routes = routes.0;
                  prefill_source_gpus = sources.0;
                  decode_source_gpus = sources.1;
                  num_layers = layers;
                  num_experts = r.metadata.num_experts;
                  top_k = r.metadata.top_k;
                  version = r.header.version;
                  source_gpu_bytes = r.metadata.source_gpu_bytes;
                })

unfoldable pub read_prompt : Reader → ℤ → Result ReadError PromptData
unfolding read_section
read_prompt r (negsuc n) = err not_a_prompt
read_prompt r (pos n) = do
  entry ← required (get_elem? r.index n) not_a_prompt
  meta ← required (get_elem? r.metadata.prompts n) out_of_range
  read_section r entry meta (
      take (entry.length - prompt_block_header_size)
        (drop (entry.offset + prompt_block_header_size) r.file))

-- An index of a slice, if it is not negative and below the limit.
pub index_of : ℤ → ℕ → Option ℕ
index_of (negsuc n) limit = none
index_of (pos n) limit = if ltb n limit then some n else none

-- values[base : base+n]; beyond the end it is a panic.
pub slice : List ℕ → ℕ → ℕ → Result ReadError (List ℕ)
slice values base n =
    if leb (base + n) (length values) then ok (take n (drop base values)) else err out_of_range

pub prefill_expert_count : PromptData → ℤ → ℤ → Result ReadError ℕ
unfolding index_of
prefill_expert_count p layer_slot expert = do
  slot ← required (index_of layer_slot p.num_layers) lookup_out_of_range
  e ← required (index_of expert p.num_experts) lookup_out_of_range
  required (get_elem? p.prefill_counts (slot * p.num_experts + e)) out_of_range

pub prefill_experts : PromptData → ℤ → ℤ → Result ReadError (List ℕ)
unfolding index_of slice
prefill_experts p layer_slot position = do
  slot ← required (index_of layer_slot p.num_layers) lookup_out_of_range
  n ← required (index_of position (length p.input_token_ids)) lookup_out_of_range
  slice p.prefill_routes ((slot * length p.input_token_ids + n) * p.top_k) p.top_k

pub decode_experts : PromptData → ℤ → ℤ → Result ReadError (List ℕ)
unfolding index_of slice
decode_experts p position layer_slot = do
  n ← required (index_of position (length p.decode_token_ids)) lookup_out_of_range
  slot ← required (index_of layer_slot p.num_layers) lookup_out_of_range
  slice p.decode_routes ((n * p.num_layers + slot) * p.top_k) p.top_k

-- The source GPU at a place of a slice of version 2, if it is known.
pub source_gpu : PromptData → List ℕ → ℕ → Result ReadError (Option ℕ)
source_gpu p gpus n =
    if ltb p.version 2 || length gpus == 0 then ok none else elim (get_elem? gpus n) [
      | none ↦ err out_of_range
      | some value ↦ ok (if value == unknown_source_gpu then none else some value)
    ]

pub prefill_source_gpu : PromptData → ℤ → ℤ → Result ReadError (Option ℕ)
unfolding index_of source_gpu
prefill_source_gpu p layer_slot position = do
  slot ← required (index_of layer_slot p.num_layers) lookup_out_of_range
  n ← required (index_of position (length p.input_token_ids)) lookup_out_of_range
  source_gpu p p.prefill_source_gpus (slot * length p.input_token_ids + n)

pub decode_source_gpu : PromptData → ℤ → ℤ → Result ReadError (Option ℕ)
unfolding index_of source_gpu
decode_source_gpu p position layer_slot = do
  n ← required (index_of position (length p.decode_token_ids)) lookup_out_of_range
  slot ← required (index_of layer_slot p.num_layers) lookup_out_of_range
  source_gpu p p.decode_source_gpus (n * p.num_layers + slot)
