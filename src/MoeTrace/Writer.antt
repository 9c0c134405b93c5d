-- ===== src/MoeTrace/Writer.antt =====
-- The writer of pkg/moetrace/writer.go. The file is the list of its bytes, and writing to it does not
-- fail; encoding/json's Marshal is a parameter. The numbers of a source are natural, as
-- validateSourceMetadata has checked. A writer that reports an error is not used again.
pub mod Grown
use llm_d_inference_sim.MoeTrace.Words.{drop, put_u32}
use llm_d_inference_sim.MoeTrace.Header.{
  FileHeader, IndexEntry, format_version, header_size, index_entry_size, write_header,
  write_index_entry, zeros,
}
use llm_d_inference_sim.MoeTrace.Length.{u64_mod, SizeError, expert_id_bytes, prompt_block_length}
use llm_d_inference_sim.MoeTrace.Accumulator.{
  PromptMetadata, PromptAccumulator, Missing, validate_complete,
}
use llm_d_inference_sim.MoeTrace.Slices.{uint32_bytes, expert_bytes}
use llm_d_inference_sim.Common.{
  ℕ, ◌+◌, ◌-◌, ◌*◌, ◌%◌, List, [], ◌∷◌, ◌++◌, Option, none, some, String, Bool, true, false, not,
  if◌then◌else◌, ◌==◌, nat_comparable, length, replicate, Result, ok, err, ◌>>=◌,
}

pub record Metadata : Type 0 where
  pub metadata_version : ℕ
  pub model : String
  pub num_experts : ℕ
  pub top_k : ℕ
  pub sparse_layers : List ℕ
  pub num_prompts : ℕ
  pub metadata_expert_bytes : ℕ
  pub source_gpu_bytes : ℕ
  pub prompts : List PromptMetadata

pub record SourceMetadata : Type 0 where
  pub model : String
  pub num_experts : ℕ
  pub top_k : ℕ
  pub sparse_layers : List ℕ
  pub num_sparse_layers : ℕ
  pub num_prompts : ℕ
  pub prompts : List PromptMetadata

pub record TraceWriter : Type 0 where
  pub file : List ℕ
  pub offset : ℕ
  pub metadata : Metadata
  pub metadata_bytes : List ℕ
  pub expert_bytes : ℕ
  pub index : List IndexEntry

pub data WriteError : Type 0 where
  metadata_not_encoded : WriteError
  size_error : SizeError → WriteError
  incomplete : Missing → WriteError
  unexpected_prompt prompt_count : ℕ → ℕ → WriteError
  expert_too_large : WriteError
  length_mismatch : ℕ → ℕ → WriteError

unfoldable pub metadata_of : SourceMetadata → ℕ → Metadata
metadata_of source bytes = record {
  metadata_version = format_version;
  model = source.model;
  num_experts = source.num_experts;
  top_k = source.top_k;
  sparse_layers = source.sparse_layers;
  num_prompts = source.num_prompts;
  metadata_expert_bytes = bytes;
  source_gpu_bytes = 0;
  prompts = source.prompts;
}

unfoldable pub new_trace_writer :
    (Metadata → Option (List ℕ)) → SourceMetadata → Result WriteError TraceWriter
unfolding metadata_of
new_trace_writer marshal source = elim (expert_id_bytes source.num_experts) [
  | err e ↦ err (size_error e)
  | ok bytes ↦ elim (marshal (metadata_of source bytes)) [
    | none ↦ err metadata_not_encoded
    | some encoded ↦ ok (record {
      file = replicate header_size 0 ++ encoded;
      offset = (header_size + length encoded) % u64_mod;
      metadata = metadata_of source bytes;
      metadata_bytes = encoded;
      expert_bytes = bytes;
      index = [];
    })
  ]
]

pub write : TraceWriter → List ℕ → TraceWriter
write w bytes = record w { file = w.file ++ bytes; offset = (w.offset + length bytes) % u64_mod }

pub write_uint32_slice : TraceWriter → List ℕ → TraceWriter
unfolding write
write_uint32_slice w values = write w (uint32_bytes values)

pub write_expert_slice : TraceWriter → List ℕ → Result WriteError TraceWriter
unfolding write
write_expert_slice w values = elim (expert_bytes w.expert_bytes values) [
  | none ↦ err expert_too_large
  | some bytes ↦ ok (write w bytes)
]

-- The header of a prompt block, of promptBlockHeaderSize bytes.
unfoldable pub prompt_header : PromptAccumulator → ℕ → List ℕ
prompt_header p bytes =
    put_u32 p.meta.index
    ++ put_u32 p.meta.input_tokens
    ++ put_u32 p.meta.decode_tokens
    ++ put_u32 p.num_layers
    ++ put_u32 p.num_experts
    ++ put_u32 p.top_k
    ++ put_u32 bytes
    ++ zeros

-- The block without its bookkeeping.
pub write_block : TraceWriter → PromptAccumulator → Result WriteError TraceWriter
unfolding write write_uint32_slice write_expert_slice prompt_header
write_block w p =
    let w = write w (prompt_header p w.expert_bytes) in
    let w = write_uint32_slice w p.input_token_ids in
    let w = write_uint32_slice w p.decode_token_ids in
    let w = write_uint32_slice w p.prefill_counts in
    write_expert_slice w p.prefill_routes >>= λ w. write_expert_slice w p.decode_routes

abbrev pub entry_of : PromptAccumulator → ℕ → ℕ → IndexEntry
entry_of p start written = record {
  prompt_id = p.meta.index % 4294967296;
  offset = start;
  length = written;
  input_tokens = p.meta.input_tokens % 4294967296;
  decode_tokens = p.meta.decode_tokens % 4294967296;
}

-- The check of the length that was written, and the entry of the index.
pub enter_block : TraceWriter → PromptAccumulator → ℕ → Result WriteError TraceWriter
enter_block w p start =
    let written = (w.offset + u64_mod - start) % u64_mod in
    elim (prompt_block_length p.meta.input_tokens p.meta.decode_tokens p.num_layers p.num_experts
      p.top_k w.expert_bytes) [
        | err e ↦ err (size_error e)
        | ok expected ↦
            if not (written == expected)
            then err (length_mismatch written expected)
            else ok (record w { index = w.index ++ entry_of p start written ∷ [] })
      ]

unfoldable pub write_prompt : TraceWriter → PromptAccumulator → Result WriteError TraceWriter
unfolding write_block enter_block
write_prompt w p = elim (validate_complete p) [
  | some missing ↦ err (incomplete missing)
  | none ↦
      if not (p.meta.index == length w.index)
      then err (unexpected_prompt (length w.index) p.meta.index)
      else write_block w p >>= λ w'. enter_block w' p w.offset
]

-- The loop of finish over the index.
unfoldable pub write_index : TraceWriter → List IndexEntry → TraceWriter
unfolding write
write_index w [] = w
write_index w (e ∷ es) = write_index (write w (write_index_entry e)) es

unfoldable pub header_for : TraceWriter → ℕ → ℕ → List ℕ → FileHeader
header_for w index_offset source_size hash = record {
  version = format_version;
  metadata_offset = header_size;
  metadata_length = length w.metadata_bytes % u64_mod;
  data_offset = (header_size + length w.metadata_bytes) % u64_mod;
  index_offset = index_offset;
  index_length = (length w.index * index_entry_size) % u64_mod;
  source_size = source_size;
  num_prompts = w.metadata.num_prompts % 4294967296;
  expert_id_bytes = w.expert_bytes % 4294967296;
  source_sha256 = hash;
}

-- The header is written over the first bytes of the file.
unfoldable pub finish : TraceWriter → ℕ → List ℕ → Result WriteError TraceWriter
unfolding write_index header_for
finish w source_size hash =
    let indexed = write_index w w.index in
    if not (length w.index == w.metadata.num_prompts)
    then err (prompt_count (length w.index) w.metadata.num_prompts)
    else ok (record indexed {
      file = write_header (header_for w w.offset source_size hash) ++ drop header_size indexed.file;
    })
