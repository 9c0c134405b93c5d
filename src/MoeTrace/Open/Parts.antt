-- ===== src/MoeTrace/Open/Parts.antt =====
-- A file of pkg/moetrace that is put together from its parts, as pkg/moetrace/reader.go reads it.
use llm_d_inference_sim.MoeTrace.Header.{FileHeader, IndexEntry, write_header, read_header}
use llm_d_inference_sim.MoeTrace.Header.Codec.{IsSupported, read_header-write_header}
use llm_d_inference_sim.MoeTrace.Length.{u64_mod, expert_id_bytes}
use llm_d_inference_sim.MoeTrace.Accumulator.{PromptAccumulator}
use llm_d_inference_sim.MoeTrace.Writer.{Metadata, SourceMetadata, metadata_of, prompt_header}
use llm_d_inference_sim.MoeTrace.Writer.Grown.{payload}
use llm_d_inference_sim.MoeTrace.Reader.{
  metadata_region, index_region, data_offset, index_size, expert_count, expert_width,
  metadata_mismatch, invalid_metadata, data_after_index, data_end, trailing_data, metadata_not_read,
  Reader, ReadError, required, read_prompt,
}
use llm_d_inference_sim.MoeTrace.Reader.Blocks.{data_of, read_prompt-block}
use llm_d_inference_sim.MoeTrace.Open.{
  reader_of, open_trace, check_layout, check_metadata, validate, read_at, read_entries,
}
use llm_d_inference_sim.MoeTrace.Open.Layout.{Placed, Layout, Found, Layout-Found}
use llm_d_inference_sim.MoeTrace.Open.Validates.{
  AllKnown, IsPlain, validate_region-within, read_at-within, validate_entries-Layout, then_ok,
  passes, same, both, length-prompt_header,
}
use llm_d_inference_sim.MoeTrace.Open.Index.{index_bytes, length-index_bytes, read_entries-Layout}
use llm_d_inference_sim.MoeTrace.Open.Convert.{
  IsSound, IsCollected, AllCollected, expert_id_bytes_cases,
}
use llm_d_inference_sim.Common.Int.{pos}
use llm_d_inference_sim.Common.{
  ℕ, zero, suc, ◌+◌, ◌*◌, ◌%◌, ◌≤◌, ◌<◌, ◌≡◌, refl, sym, ap, subst, ◌∙◌, List, [], ◌∷◌, ◌++◌,
  Option, some, true, false, not, ltb, leb, ◌==◌, nat_comparable, length, get_elem?, Result, ok,
  err, arith, append_assoc, append_nil, length-append, inl, inr, if◌then◌else◌,
}
use native.Mathlib.Nat.{mod-eq_of_lt}

le_true : (a b : ℕ) → a ≤ b → leb a b ≡ true
le_true a b h = ground arith

not_empty : (n : ℕ) → 0 < n → not (n == 0) ≡ true
not_empty n h = ground arith

-- The header of a file, from the sizes of its parts.
abbrev pub plain_header : ℕ → ℕ → ℕ → ℕ → ℕ → List ℕ → FileHeader
plain_header encoded blocks prompts width source_size hash = record {
  version = 1;
  metadata_offset = 112;
  metadata_length = encoded;
  data_offset = 112 + encoded;
  index_offset = 112 + encoded + blocks;
  index_length = prompts * 32;
  source_size = source_size;
  num_prompts = prompts;
  expert_id_bytes = width;
  source_sha256 = hash;
}

-- The parts of a file, around one block.
regroup :
    (head encoded bytes index before here after start rest : List ℕ)
    → bytes ≡ before ++ (here ++ after)
    → here ≡ start ++ rest
    → head ++ (encoded ++ (bytes ++ index))
      ≡ ((head ++ encoded) ++ before) ++ (start ++ (rest ++ (after ++ index)))
regroup head encoded bytes index before here after start rest e f = rw e (rw f (simp append_assoc))

pub length-write_header :
    (h : FileHeader) → length h.source_sha256 ≡ 32 → length (write_header h) ≡ 112
unfolding write_header
length-write_header h hashed = omega (arith, hashed)

-- A file that is put together from its parts.
module _ (unmarshal : List ℕ → Option Metadata) (source : SourceMetadata) (encoded : List ℕ)
    (width : ℕ) (ps : List PromptAccumulator) (es : List IndexEntry) (bytes : List ℕ)
    (source_size : ℕ) (hash : List ℕ) (sound : IsSound source)
    (width_is : expert_id_bytes source.num_experts ≡ ok width)
    (decoded : unmarshal encoded ≡ some (metadata_of source width))
    (layout : Layout width 0 (112 + length encoded) ps es bytes)
    (collected : AllCollected source 0 ps) (all : length es ≡ source.num_prompts)
    (source_fits : source_size < u64_mod) (hashed : length hash ≡ 32)
    (small : 112 + length encoded + length bytes + length es * 32 < u64_mod) where
  unfoldable pub h : FileHeader
  h = plain_header (length encoded) (length bytes) source.num_prompts width source_size hash

  unfoldable pub file : List ℕ
  file = write_header h ++ (encoded ++ (bytes ++ index_bytes es))

  r : Reader
  r = reader_of file h (metadata_of source width) es

  supported : IsSupported h
  unfolding h
  supported = record {
    version_low = omega arith;
    version_high = omega arith;
    metadata_offset_fits = omega arith;
    metadata_length_fits = omega (arith, small);
    data_offset_fits = omega (arith, small);
    index_offset_fits = omega (arith, small);
    index_length_fits = omega (arith, small, all);
    source_size_fits = source_fits;
    num_prompts_fits = sound.count_fits;
    width = expert_id_bytes_cases source.num_experts width width_is;
    hash_length = hashed;
  }

  length-header : length (write_header h) ≡ 112
  unfolding h
  length-header = length-write_header h hashed

  length-file : length file ≡ 112 + length encoded + length bytes + length es * 32
  unfolding file
  length-file = omega (
    arith,
    length-append (write_header h) (encoded ++ (bytes ++ index_bytes es)),
    length-header,
    length-append encoded (bytes ++ index_bytes es),
    length-append bytes (index_bytes es),
    length-index_bytes es,
  )

  plain : IsPlain r
  unfolding r h metadata_of
  plain = record {
    version_1 = refl;
    no_sources = refl;
    width_fits = elim (expert_id_bytes_cases source.num_experts width width_is) [
      | inl e ↦ omega (arith, e)
      | inr e ↦ omega (arith, e)
    ];
    size = refl;
    small = omega (arith, length-file, small);
  }

  all_known : (n : ℕ) (qs : List PromptAccumulator) → AllCollected source n qs → AllKnown r n qs
  unfolding r metadata_of
  all_known n [] c = tt
  all_known n (q ∷ qs) (c, found, cs) = (
    record {
      layers = c.layers;
      experts = c.experts;
      top = c.top;
      index_fits = c.index_fits;
      input_fits = c.input_fits;
      decode_fits = c.decode_fits;
      layers_fit = c.layers_fit;
      experts_fit = c.experts_fit;
      top_fits = c.top_fits;
    },
    found,
    all_known (suc n) qs cs,
  )

  -- The offsets and lengths of the header fit together and lie in the file.
  layout_checked : check_layout h (length file) ≡ ok 0
  unfolding check_layout h
  layout_checked =
      then_ok _
        (passes metadata_region
          (validate_region-within 112 (length encoded) (length file) (omega (arith, length-file))))
        (then_ok _
          (passes index_region (
            validate_region-within (112 + length encoded + length bytes) (source.num_prompts * 32)
              (length file) (omega (arith, length-file, all))))
          (then_ok _
            (passes data_offset (
              same (
                sym
                  (mod-eq_of_lt {n = 112 + length encoded} {m = u64_mod} (omega (arith, small))))))
            (passes index_size (same {a = source.num_prompts * 32} refl))))

  metadata_read : read_at file 112 (length encoded) ≡ some encoded
  unfolding file
  metadata_read =
      read_at-within file (write_header h) encoded (bytes ++ index_bytes es) 112 (length encoded)
        refl (sym length-header) refl

  metadata_checked : check_metadata h (metadata_of source width) ≡ ok (metadata_of source width)
  unfolding check_metadata h metadata_of
  metadata_checked =
      then_ok _
        (passes metadata_mismatch
          (both (same {a = source.num_prompts} refl) (same {a = width} refl)))
        (then_ok _
          (passes invalid_metadata
            (both (same sound.counted) (not_empty (length source.sparse_layers) sound.has_layers)))
          widths_agree)
    where
      m : Metadata
      m = metadata_of source width

      widths_agree :
          elim (expert_id_bytes m.num_experts) as (λ _. Result ReadError Metadata) [
            | err e ↦ err expert_count
            | ok bytes ↦
                if bytes == m.metadata_expert_bytes
                then ok (record m {
                  source_gpu_bytes = if h.version == 1 then 0 else m.source_gpu_bytes;
                })
                else err expert_width
          ]
          ≡ ok m
      widths_agree = rw width_is (rw (same {a = width} refl) refl)

  entries_read :
      read_entries file (112 + length encoded + length bytes) 0 source.num_prompts ≡ ok es
  unfolding file
  entries_read =
      ap (λ n. read_entries file (112 + length encoded + length bytes) 0 n) (sym all)
      ∙ (read_entries-Layout r file (112 + length encoded + length bytes)
          (write_header h ++ (encoded ++ bytes)) [] layout (all_known 0 ps collected)
          (omega (arith, small))
          (omega (
            arith,
            length-append (write_header h) (encoded ++ bytes),
            length-header,
            length-append encoded bytes,
          ))
          regrouped)
    where
      regrouped : file ≡ (write_header h ++ (encoded ++ bytes)) ++ (index_bytes es ++ [])
      regrouped = sym (
          append_assoc (write_header h) (encoded ++ bytes) (index_bytes es ++ [])
          ∙ ap (λ t. write_header h ++ t)
              (append_assoc encoded bytes (index_bytes es ++ [])
                ∙ ap (λ t. encoded ++ (bytes ++ t)) (append_nil (index_bytes es))))

  validated : validate r ≡ ok 0
  unfolding validate r h metadata_of file
  validated =
      then_ok _
        (passes data_after_index
          (le_true (112 + length encoded) (112 + length encoded + length bytes) (omega arith)))
        (then_ok _
          (validate_entries-Layout r (write_header h ++ encoded) (index_bytes es) layout
            (all_known 0 ps collected) plain
            (omega (arith, length-append (write_header h) encoded, length-header))
            (sym (append_assoc (write_header h) encoded (bytes ++ index_bytes es))) (omega arith))
          (then_ok _ (passes data_end (same {a = 112 + length encoded + length bytes} refl)) (
            passes trailing_data (
              same {a = (112 + length encoded + length bytes + source.num_prompts * 32) % u64_mod}
                total))))
    where
      end : ℕ
      end = 112 + length encoded + length bytes + source.num_prompts * 32

      total : end % u64_mod ≡ length file
      total =
          mod-eq_of_lt {n = end} {m = u64_mod} (omega (arith, small, all))
          ∙ omega (arith, length-file, all)

  opened : open_trace unmarshal file ≡ ok r
  unfolding open_trace h r
  opened =
      rw (long, header_read, open_trace)
        (then_ok _ layout_checked (
          then_ok _ (ap (λ o. required o metadata_not_read) metadata_read) (
            then_ok _ (ap (λ o. required o metadata_not_read) decoded)
              (then_ok _ metadata_checked (then_ok _ entries_read (then_ok _ validated refl))))))
    where
      long : ltb (length file) 112 ≡ false
      long = ground (arith, length-file)

      header_read : read_header file ≡ ok h
      header_read =
          unfold file in read_header-write_header h (encoded ++ (bytes ++ index_bytes es)) supported

  -- A collected prompt at its place in the list.
  at :
      (n i : ℕ) (qs : List PromptAccumulator) (p : PromptAccumulator)
      → AllCollected source n qs
      → get_elem? qs i ≡ some p
      → IsCollected source p × (get_elem? source.prompts (n + i) ≡ some p.meta)
  at n i [] p c e = cc
  at n zero (q ∷ qs) p c e =
      subst
        (λ (x : PromptAccumulator).
          IsCollected source x × (get_elem? source.prompts (n + 0) ≡ some x.meta))
        (cc e) (c.0, ap (λ k. get_elem? source.prompts k) (omega arith) ∙ c.1)
  at n (suc i) (q ∷ qs) p c e =
      let rest = at (suc n) i qs p c.2 e in
      (rest.0, ap (λ k. get_elem? source.prompts k) (omega arith) ∙ rest.1)

  prompt_read :
      (i : ℕ) (p : PromptAccumulator)
      → get_elem? ps i ≡ some p
      → read_prompt r (pos i) ≡ ok (data_of p 0)
  unfolding r h metadata_of file
  prompt_read i p e =
      read_prompt-block r i f.entry p placed.prefill placed.decode
        ((write_header h ++ encoded) ++ f.before) (f.after ++ index_bytes es) known.0.sized
        (record {
          layers = known.0.layers;
          experts = known.0.experts;
          top = known.0.top;
          version_1 = refl;
        })
        f.entry_found known.1
        (ap (λ e. e.input_tokens) placed.entry_is ∙ mod-eq_of_lt known.0.input_fits)
        (ap (λ e. e.decode_tokens) placed.entry_is ∙ mod-eq_of_lt known.0.decode_fits)
        (ap (λ e. e.offset) placed.entry_is
          ∙ omega (
            arith,
            length-append (write_header h ++ encoded) f.before,
            length-append (write_header h) encoded,
            length-header,
          ))
        (ap (λ e. e.length) placed.entry_is
          ∙ ap length placed.bytes_are
          ∙ omega (
            arith,
            length-append (prompt_header p width) (payload p placed.prefill placed.decode),
            length-prompt_header p width,
          ))
        whole placed.prefill_encoded placed.decode_encoded
    where
      f : Found width 0 (112 + length encoded) p i es bytes
      f = Layout-Found i layout e

      placed : Placed width (0 + i) (112 + length encoded + length f.before) p f.entry f.here
      placed = f.placed

      known : IsCollected source p × (get_elem? source.prompts i ≡ some p.meta)
      known =
          let k = at 0 i ps p collected e in
          (k.0, ap (λ k. get_elem? source.prompts k) (omega arith) ∙ k.1)

      whole :
          file
          ≡ ((write_header h ++ encoded) ++ f.before)
            ++ (prompt_header p width
                ++ (payload p placed.prefill placed.decode ++ (f.after ++ index_bytes es)))
      whole =
          regroup (write_header h) encoded bytes (index_bytes es) f.before f.here f.after _ _
            f.whole placed.bytes_are

  pub parts_read :
      (x : Reader) × (open_trace unmarshal file ≡ ok x)
      × ((i : ℕ) (p : PromptAccumulator)
          → get_elem? ps i ≡ some p
          → read_prompt x (pos i) ≡ ok (data_of p 0))
  parts_read = (r, opened, prompt_read)
