-- ===== src/MoeTrace/Open.antt =====
-- Open and Validate of pkg/moetrace/reader.go: the checks that a trace must pass before its prompts are
-- read. Opening and reading the file do not fail but for its bytes.
pub mod Layout
pub mod Validates
pub mod Index
pub mod Convert
pub mod Parts
pub mod Written
pub mod RoundTrip
use llm_d_inference_sim.MoeTrace.Words.{take, drop, u32, read_full}
use llm_d_inference_sim.MoeTrace.Header.{
  FileHeader, IndexEntry, FormatError, format_version, header_size, index_entry_size, read_header,
  read_index_entry,
}
use llm_d_inference_sim.MoeTrace.Length.{
  u64_mod, SizeError, expert_id_bytes, prompt_block_header_size, prompt_block_length_for_version,
}
use llm_d_inference_sim.MoeTrace.Accumulator.{PromptMetadata}
use llm_d_inference_sim.MoeTrace.Writer.{Metadata}
use llm_d_inference_sim.MoeTrace.Reader.{
  Reader, ReadError, file_too_short, metadata_region, index_region, metadata_offset, data_offset,
  index_size, metadata_not_read, metadata_mismatch, source_gpu_width, invalid_metadata,
  expert_count, expert_width, data_after_index, data_end, trailing_data, out_of_range, format_error,
  index_not_read, wrong_prompt_id, prompt_start, prompt_region, overlaps_index,
  prompt_header_not_read, header_mismatch, dimension_mismatch, size_overflow, wrong_length,
  prompt_metadata_mismatch, supported_source_gpu_bytes, validate_region, required, check,
}
use llm_d_inference_sim.Common.{
  ℕ, suc, ◌+◌, ◌-◌, ◌*◌, ◌%◌, List, [], ◌∷◌, ◌++◌, Option, none, some, String, Bool, true, false,
  not, ◌&&◌, ◌||◌, if◌then◌else◌, ltb, leb, ◌==◌, nat_comparable, length, get_elem?, Result, ok,
  err, ◌>>=◌, ◌>>◌, zero,
}

-- file.ReadAt of `n` bytes.
unfoldable pub read_at : List ℕ → ℕ → ℕ → Option (List ℕ)
read_at file offset n = elim (read_full n (drop offset file)) [
  | none ↦ none
  | some (buf, rest) ↦ some buf
]

-- The header of a block: its fields are those of the entry and of the metadata.
pub check_prompt_header : Reader → ℕ → IndexEntry → List ℕ → Result ReadError ℕ
check_prompt_header r i entry header = do
  check
      (u32 header == i
        && u32 (drop 4 header) == entry.input_tokens
        && u32 (drop 8 header) == entry.decode_tokens)
      (header_mismatch i)
  check
      (u32 (drop 12 header) == length r.metadata.sparse_layers
        && u32 (drop 16 header) == r.metadata.num_experts
        && u32 (drop 20 header) == r.metadata.top_k
        && u32 (drop 24 header) == r.metadata.metadata_expert_bytes)
      (dimension_mismatch i)

pub sized : Result SizeError ℕ → ℕ → Result ReadError ℕ
sized (ok n) i = ok n
sized (err e) i = err (size_overflow i)

-- The length of a block and the metadata of its prompt.
pub check_prompt_length : Reader → ℕ → IndexEntry → List ℕ → Result ReadError ℕ
unfolding sized
check_prompt_length r i entry header = do
  expected ←
      sized
        (prompt_block_length_for_version (u32 (drop 4 header)) (u32 (drop 8 header))
          (u32 (drop 12 header)) (u32 (drop 16 header)) (u32 (drop 20 header))
          (u32 (drop 24 header)) r.header.version r.metadata.source_gpu_bytes)
        i
  check (entry.length == expected) (wrong_length i)
  meta ← required (get_elem? r.metadata.prompts i) out_of_range
  check
      (meta.index == i
        && meta.input_tokens == u32 (drop 4 header)
        && meta.decode_tokens == u32 (drop 8 header))
      (prompt_metadata_mismatch i)

-- The body of Validate's loop.
pub validate_entry : Reader → ℕ → ℕ → IndexEntry → Result ReadError ℕ
unfolding validate_region check_prompt_header check_prompt_length
validate_entry r i expected_offset entry = do
  check (entry.offset == expected_offset) (prompt_start i)
  check (validate_region entry.offset entry.length r.file_size) (prompt_region i)
  check (leb ((entry.offset + entry.length) % u64_mod) r.header.index_offset) (overlaps_index i)
  header ←
      required (read_at r.file entry.offset prompt_block_header_size) (prompt_header_not_read i)
  check_prompt_header r i entry header
  check_prompt_length r i entry header

-- Validate's loop; the result is the offset after the last block.
pub validate_entries : Reader → ℕ → ℕ → List IndexEntry → Result ReadError ℕ
unfolding validate_entry
validate_entries r i expected_offset [] = ok expected_offset
validate_entries r i expected_offset (entry ∷ entries) =
    validate_entry r i expected_offset entry >>= λ _.
    validate_entries r (suc i) ((expected_offset + entry.length) % u64_mod) entries

unfoldable pub validate : Reader → Result ReadError ℕ
unfolding validate_entries
validate r = do
  check (leb r.header.data_offset r.header.index_offset) data_after_index
  end ← validate_entries r 0 r.header.data_offset r.index
  check (end == r.header.index_offset) data_end
  check ((r.header.index_offset + r.header.index_length) % u64_mod == r.file_size) trailing_data

-- The loop that reads the index, with `n` entries left.
pub read_entries : List ℕ → ℕ → ℕ → ℕ → Result ReadError (List IndexEntry)
read_entries file index_offset i zero = ok []
read_entries file index_offset i (suc n) =
    required (read_index_entry file (index_offset + i * index_entry_size)) (index_not_read i)
    >>= λ entry. check (entry.prompt_id == i) (wrong_prompt_id i) >>= λ _.
        read_entries file index_offset (suc i) n >>= λ entries. ok (entry ∷ entries)

-- The checks of the header against the file's size.
pub check_layout : FileHeader → ℕ → Result ReadError ℕ
unfolding validate_region
check_layout h size = do
  check (validate_region h.metadata_offset h.metadata_length size) metadata_region
  check (validate_region h.index_offset h.index_length size) index_region
  check (h.metadata_offset == header_size) metadata_offset
  check (h.data_offset == (h.metadata_offset + h.metadata_length) % u64_mod) data_offset
  check (h.index_length == h.num_prompts * index_entry_size) index_size

-- The checks of the metadata, which are returned with the width of the source GPUs.
pub check_metadata : FileHeader → Metadata → Result ReadError Metadata
check_metadata h metadata = do
  check
      (metadata.metadata_version == h.version
        && metadata.num_prompts == h.num_prompts
        && metadata.metadata_expert_bytes == h.expert_id_bytes)
      metadata_mismatch
  check (h.version == format_version || metadata.source_gpu_bytes == supported_source_gpu_bytes)
      source_gpu_width
  check
      (length metadata.prompts == metadata.num_prompts && not (length metadata.sparse_layers == 0))
      invalid_metadata
  elim (expert_id_bytes metadata.num_experts) [
    | err e ↦ err expert_count
    | ok bytes ↦
        if bytes == metadata.metadata_expert_bytes
        then ok (record metadata {
          source_gpu_bytes = if h.version == format_version then 0 else metadata.source_gpu_bytes;
        })
        else err expert_width
  ]

abbrev pub reader_of : List ℕ → FileHeader → Metadata → List IndexEntry → Reader
reader_of file h metadata entries = record {
  file = file;
  file_size = length file;
  header = h;
  metadata = metadata;
  index = entries;
}

unfoldable pub open_trace : (List ℕ → Option Metadata) → List ℕ → Result ReadError Reader
unfolding check_layout check_metadata read_entries
open_trace unmarshal file =
    if ltb (length file) header_size then err file_too_short else elim (read_header file) [
      | err e ↦ err (format_error e)
      | ok h ↦ do
        check_layout h (length file)
        encoded ← required (read_at file h.metadata_offset h.metadata_length) metadata_not_read
        decoded ← required (unmarshal encoded) metadata_not_read
        metadata ← check_metadata h decoded
        entries ← read_entries file h.index_offset 0 h.num_prompts
        validate (reader_of file h metadata entries)
        ok (reader_of file h metadata entries)
    ]
