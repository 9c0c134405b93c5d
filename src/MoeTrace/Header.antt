-- ===== src/MoeTrace/Header.antt =====
-- The header and the index of pkg/moetrace/format.go.
pub mod Codec
use llm_d_inference_sim.MoeTrace.Words.{
  take, drop, put_u32, put_u64, u32, u64, u32-put_u32, u64-put_u64, take-append_length,
}
use llm_d_inference_sim.Common.{
  ℕ, ◌+◌, ◌-◌, ◌≤◌, ◌<◌, ◌≡◌, refl, sym, ap, ◌∙◌, Bool, true, false, ◌&&◌, ◌||◌, not, List, [], ◌∷◌,
  ◌++◌, Option, none, some, length, ltb, if◌then◌else◌, ◌==◌, nat_comparable, Comparable, Result,
  ok, err, arith,
}

abbrev pub format_version : ℕ
format_version = 1

abbrev pub max_supported_format_version : ℕ
max_supported_format_version = 2

abbrev pub header_size : ℕ
header_size = 112

abbrev pub index_entry_size : ℕ
index_entry_size = 32

-- 'M', 'O', 'E', 'T', 'R', 'C', '0', '1'
abbrev pub file_magic : List ℕ
file_magic = 77 ∷ 79 ∷ 69 ∷ 84 ∷ 82 ∷ 67 ∷ 48 ∷ 49 ∷ []

pub record FileHeader : Type 0 where
  pub version : ℕ
  pub metadata_offset : ℕ
  pub metadata_length : ℕ
  pub data_offset : ℕ
  pub index_offset : ℕ
  pub index_length : ℕ
  pub source_size : ℕ
  pub num_prompts : ℕ
  pub expert_id_bytes : ℕ
  pub source_sha256 : List ℕ

pub record IndexEntry : Type 0 where
  pub prompt_id : ℕ
  pub offset : ℕ
  pub length : ℕ
  pub input_tokens : ℕ
  pub decode_tokens : ℕ

pub data FormatError : Type 0 where
  header_not_read invalid_magic : FormatError
  header_size_error index_entry_size_error version_error expert_width_error : ℕ → FormatError

abbrev pub zeros : List ℕ
zeros = 0 ∷ 0 ∷ 0 ∷ 0 ∷ []

-- The buffer that is written: the fields at their offsets, zero elsewhere.
unfoldable pub write_header : FileHeader → List ℕ
write_header h =
    file_magic
    ++ put_u32 h.version
    ++ put_u32 header_size
    ++ put_u64 h.metadata_offset
    ++ put_u64 h.metadata_length
    ++ put_u64 h.data_offset
    ++ put_u64 h.index_offset
    ++ put_u64 h.index_length
    ++ put_u64 h.source_size
    ++ put_u32 h.num_prompts
    ++ put_u32 h.expert_id_bytes
    ++ put_u32 index_entry_size
    ++ zeros
    ++ h.source_sha256

abbrev pub same_bytes : List ℕ → List ℕ → Bool
same_bytes [] [] = true
same_bytes [] (y ∷ ys) = false
same_bytes (x ∷ xs) [] = false
same_bytes (x ∷ xs) (y ∷ ys) = x == y && same_bytes xs ys

-- The fields of a header in the buffer.
pub header_of : List ℕ → FileHeader
header_of buf = record {
  version = u32 (drop 8 buf);
  metadata_offset = u64 (drop 16 buf);
  metadata_length = u64 (drop 24 buf);
  data_offset = u64 (drop 32 buf);
  index_offset = u64 (drop 40 buf);
  index_length = u64 (drop 48 buf);
  source_size = u64 (drop 56 buf);
  num_prompts = u32 (drop 64 buf);
  expert_id_bytes = u32 (drop 68 buf);
  source_sha256 = take 32 (drop 80 buf);
}

-- The checks of the buffer and of its fields.
pub check_header : List ℕ → FileHeader → Result FormatError FileHeader
check_header buf h =
    if not (same_bytes (take 8 buf) file_magic)
    then err invalid_magic
    else if not (u32 (drop 12 buf) == header_size)
    then err (header_size_error (u32 (drop 12 buf)))
    else if not (u32 (drop 72 buf) == index_entry_size)
    then err (index_entry_size_error (u32 (drop 72 buf)))
    else if ltb h.version format_version || ltb max_supported_format_version h.version
    then err (version_error h.version)
    else if not (h.expert_id_bytes == 1) && not (h.expert_id_bytes == 2)
    then err (expert_width_error h.expert_id_bytes)
    else ok h

unfoldable pub read_header : List ℕ → Result FormatError FileHeader
read_header file =
    let buf = take header_size file in
    if ltb (length file) header_size then err header_not_read else check_header buf (header_of buf)

unfoldable pub write_index_entry : IndexEntry → List ℕ
write_index_entry e =
    put_u32 e.prompt_id
    ++ zeros
    ++ put_u64 e.offset
    ++ put_u64 e.length
    ++ put_u32 e.input_tokens
    ++ put_u32 e.decode_tokens

unfoldable pub read_index_entry : List ℕ → ℕ → Option IndexEntry
read_index_entry file offset =
    let buf = take index_entry_size (drop offset file) in
    if ltb (length buf) index_entry_size
    then none
    else some (record {
      prompt_id = u32 buf;
      offset = u64 (drop 8 buf);
      length = u64 (drop 16 buf);
      input_tokens = u32 (drop 24 buf);
      decode_tokens = u32 (drop 28 buf);
    })
