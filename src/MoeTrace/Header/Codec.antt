-- ===== src/MoeTrace/Header/Codec.antt =====
-- Headers and index entries of pkg/moetrace/format.go, written and read.
use llm_d_inference_sim.MoeTrace.Words.{
  take, drop, u32, u64, take_all, drop-append_length, drop-append_length,
}
use llm_d_inference_sim.MoeTrace.Header.{
  FileHeader, IndexEntry, write_header, read_header, check_header, same_bytes, header_of,
  header_size, file_magic, write_index_entry, read_index_entry, index_entry_size,
}
use llm_d_inference_sim.Common.{
  ℕ, ◌≤◌, ◌<◌, ◌≡◌, ◌⊎◌, refl, sym, ap, ◌∙◌, true, false, List, [], ◌++◌, some, length, append_nil,
  ltb, nat_comparable, ok, arith, inl, inr, length-append,
}

-- The fields fit their widths, and the reader supports them.
pub record IsSupported (h : FileHeader) : Type 0 where
  pub version_low : 1 ≤ h.version
  pub version_high : h.version ≤ 2
  pub metadata_offset_fits : h.metadata_offset < 18446744073709551616
  pub metadata_length_fits : h.metadata_length < 18446744073709551616
  pub data_offset_fits : h.data_offset < 18446744073709551616
  pub index_offset_fits : h.index_offset < 18446744073709551616
  pub index_length_fits : h.index_length < 18446744073709551616
  pub source_size_fits : h.source_size < 18446744073709551616
  pub num_prompts_fits : h.num_prompts < 4294967296
  pub width : (h.expert_id_bytes ≡ 1) ⊎ (h.expert_id_bytes ≡ 2)
  pub hash_length : length h.source_sha256 ≡ 32

-- The fields, read off the buffer.
header_of-write_header :
    (h : FileHeader) (rest : List ℕ)
    → IsSupported h
    → header_of (take 112 (write_header h ++ rest)) ≡ h
unfolding header_of write_header
header_of-write_header h rest s =
    let hash : take 32 (h.source_sha256 ++ rest) ≡ h.source_sha256 =
      take_all 32 h.source_sha256 rest s.hash_length in
    let again : take 32 h.source_sha256 ≡ h.source_sha256 =
      ap (take 32) (sym (append_nil h.source_sha256))
      ∙ take_all 32 h.source_sha256 [] s.hash_length in
    λ i. record {
      version = version_back i;
      metadata_offset = metadata_offset_back i;
      metadata_length = metadata_length_back i;
      data_offset = data_offset_back i;
      index_offset = index_offset_back i;
      index_length = index_length_back i;
      source_size = source_size_back i;
      num_prompts = num_prompts_back i;
      expert_id_bytes = expert_id_bytes_back i;
      source_sha256 = (ap (take 32) hash ∙ again) i;
    }
  where
    buf : List ℕ
    buf = take 112 (write_header h ++ rest)

    version_back : u32 (drop 8 buf) ≡ h.version
    version_back = omega (arith, s.version_high)

    metadata_offset_back : u64 (drop 16 buf) ≡ h.metadata_offset
    metadata_offset_back = omega (arith, s.metadata_offset_fits)

    metadata_length_back : u64 (drop 24 buf) ≡ h.metadata_length
    metadata_length_back = omega (arith, s.metadata_length_fits)

    data_offset_back : u64 (drop 32 buf) ≡ h.data_offset
    data_offset_back = omega (arith, s.data_offset_fits)

    index_offset_back : u64 (drop 40 buf) ≡ h.index_offset
    index_offset_back = omega (arith, s.index_offset_fits)

    index_length_back : u64 (drop 48 buf) ≡ h.index_length
    index_length_back = omega (arith, s.index_length_fits)

    source_size_back : u64 (drop 56 buf) ≡ h.source_size
    source_size_back = omega (arith, s.source_size_fits)

    num_prompts_back : u32 (drop 64 buf) ≡ h.num_prompts
    num_prompts_back = omega (arith, s.num_prompts_fits)

    expert_id_bytes_back : u32 (drop 68 buf) ≡ h.expert_id_bytes
    expert_id_bytes_back = elim s.width [ inl e ↦ omega (arith, e) | inr e ↦ omega (arith, e) ]

supported :
    (buf : List ℕ) (h : FileHeader)
    → same_bytes (take 8 buf) file_magic ≡ true
    → u32 (drop 12 buf) ≡ header_size
    → u32 (drop 72 buf) ≡ index_entry_size
    → IsSupported h
    → check_header buf h ≡ ok h
unfolding check_header
supported buf h magic size entry s =
    let low : ltb h.version 1 ≡ false = ground (arith, s.version_low) in
    let high : ltb 2 h.version ≡ false = ground (arith, s.version_high) in
    rw (magic, check_header)
      (rw (size, entry, low, high)
        (elim s.width [ inl e ↦ ground (arith, e) | inr e ↦ ground (arith, e) ]))

read_header_long :
    (file : List ℕ)
    → ltb (length file) header_size ≡ false
    → read_header file ≡ check_header (take header_size file) (header_of (take header_size file))
unfolding read_header
read_header_long file e = rw e refl

-- A header that the format supports is read back as it was written, whatever follows it.
pub read_header-write_header :
    (h : FileHeader) (rest : List ℕ) → IsSupported h → read_header (write_header h ++ rest) ≡ ok h
read_header-write_header h rest s =
    let long : ltb (length (write_header h ++ rest)) header_size ≡ false =
      unfold write_header in ground (arith, length-append h.source_sha256 rest, s.hash_length) in
    let buf = take header_size (write_header h ++ rest) in
    let checked : check_header buf h ≡ ok h =
      unfold write_header in supported buf h refl refl refl s in
    read_header_long (write_header h ++ rest) long
    ∙ ap (check_header buf) (header_of-write_header h rest s)
    ∙ checked

-- The fields of an index entry fit their widths.
pub record IsIndexed (e : IndexEntry) : Type 0 where
  pub prompt_id_fits : e.prompt_id < 4294967296
  pub offset_fits : e.offset < 18446744073709551616
  pub length_fits : e.length < 18446744073709551616
  pub input_tokens_fits : e.input_tokens < 4294967296
  pub decode_tokens_fits : e.decode_tokens < 4294967296

-- An index entry is read back from the place where it was written.
pub read_index_entry-write_index_entry :
    (before : List ℕ) (e : IndexEntry) (rest : List ℕ)
    → IsIndexed e
    → read_index_entry (before ++ (write_index_entry e ++ rest)) (length before) ≡ some e
unfolding read_index_entry write_index_entry
read_index_entry-write_index_entry before e rest s =
    rw (drop-append_length before (write_index_entry e ++ rest), read_index_entry)
      (ap some λ i. record {
        prompt_id = prompt_id_back i;
        offset = offset_back i;
        length = length_back i;
        input_tokens = input_tokens_back i;
        decode_tokens = decode_tokens_back i;
      })
  where
    prompt_id_back : u32 (write_index_entry e ++ rest) ≡ e.prompt_id
    prompt_id_back = omega (arith, s.prompt_id_fits)

    offset_back : u64 (drop 8 (write_index_entry e ++ rest)) ≡ e.offset
    offset_back = omega (arith, s.offset_fits)

    length_back : u64 (drop 16 (write_index_entry e ++ rest)) ≡ e.length
    length_back = omega (arith, s.length_fits)

    input_tokens_back : u32 (drop 24 (write_index_entry e ++ rest)) ≡ e.input_tokens
    input_tokens_back = omega (arith, s.input_tokens_fits)

    decode_tokens_back : u32 (drop 28 (write_index_entry e ++ rest)) ≡ e.decode_tokens
    decode_tokens_back = omega (arith, s.decode_tokens_fits)
