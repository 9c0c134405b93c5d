-- ===== src/MoeTrace/Open/Written.antt =====
-- A file that pkg/moetrace/writer.go has written, from its parts.
use llm_d_inference_sim.MoeTrace.Header.{write_header}
use llm_d_inference_sim.MoeTrace.Length.{u64_mod}
use llm_d_inference_sim.MoeTrace.Accumulator.{PromptAccumulator}
use llm_d_inference_sim.MoeTrace.Writer.{
  Metadata, SourceMetadata, TraceWriter, metadata_of, header_for, finish,
}
use llm_d_inference_sim.MoeTrace.Writer.Grown.{IsPlaced}
use llm_d_inference_sim.MoeTrace.Reader.{Reader, read_prompt}
use llm_d_inference_sim.MoeTrace.Reader.Blocks.{data_of}
use llm_d_inference_sim.MoeTrace.Open.{open_trace}
use llm_d_inference_sim.MoeTrace.Open.Layout.{
  Layout, Wrote, write_prompts, write_prompts-Wrote, write_prompts_append, Layout-cast,
}
use llm_d_inference_sim.MoeTrace.Open.Index.{index_bytes, length-index_bytes, finish-file}
use llm_d_inference_sim.MoeTrace.Open.Convert.{
  IsSound, AllCollected, Started, expert_id_bytes_cases,
}
use llm_d_inference_sim.MoeTrace.Open.Parts.{plain_header, length-write_header, parts_read, file, h}
use llm_d_inference_sim.Common.Int.{pos}
use llm_d_inference_sim.Common.{
  ℕ, ◌+◌, ◌*◌, ◌%◌, ◌<◌, ◌≡◌, ◌⊎◌, refl, sym, ap, subst, ◌∙◌, List, ◌++◌, Option, some,
  nat_comparable, length, get_elem?, replicate, ok, arith, append_assoc, length-append, inl, inr,
}

-- The header that the writer has made, from the sizes of the parts.
header_for-plain :
    (w : TraceWriter) (blocks source_size : ℕ) (hash : List ℕ)
    → IsPlaced w
    → length w.file ≡ 112 + length w.metadata_bytes + blocks
    → length w.index ≡ w.metadata.num_prompts
    → 112 + length w.metadata_bytes + blocks + length w.index * 32 < u64_mod
    → w.metadata.num_prompts < 4294967296
    → (w.expert_bytes ≡ 1) ⊎ (w.expert_bytes ≡ 2)
    → header_for w w.offset source_size hash
      ≡ plain_header
          (length w.metadata_bytes)
          blocks
          w.metadata.num_prompts
          w.expert_bytes
          source_size
          hash
unfolding header_for
header_for-plain w blocks source_size hash placed size count small fits width = λ i. record {
  version = 1;
  metadata_offset = 112;
  metadata_length = metadata_back i;
  data_offset = data_back i;
  index_offset = index_back i;
  index_length = index_length_back i;
  source_size = source_size;
  num_prompts = prompts_back i;
  expert_id_bytes = width_back i;
  source_sha256 = hash;
}
  where
    metadata_back : length w.metadata_bytes % u64_mod ≡ length w.metadata_bytes
    metadata_back = omega (arith, small)

    data_back : (112 + length w.metadata_bytes) % u64_mod ≡ 112 + length w.metadata_bytes
    data_back = omega (arith, small)

    index_back : w.offset ≡ 112 + length w.metadata_bytes + blocks
    index_back = omega (arith, placed, size, small)

    index_length_back : (length w.index * 32) % u64_mod ≡ w.metadata.num_prompts * 32
    index_length_back = omega (arith, small, count)

    prompts_back : w.metadata.num_prompts % 4294967296 ≡ w.metadata.num_prompts
    prompts_back = omega (arith, fits)

    width_back : w.expert_bytes % 4294967296 ≡ w.expert_bytes
    width_back = elim width [ inl e ↦ omega (arith, e) | inr e ↦ omega (arith, e) ]

pub written_parts :
    (marshal : Metadata → Option (List ℕ)) (unmarshal : List ℕ → Option Metadata)
    (source : SourceMetadata) (ps : List PromptAccumulator) (source_size : ℕ) (hash whole : List ℕ)
    → ((m : Metadata) (bs : List ℕ) → marshal m ≡ some bs → unmarshal bs ≡ some m)
    → IsSound source
    → AllCollected source 0 ps
    → source_size < u64_mod
    → length hash ≡ 32
    → length whole < u64_mod
    → (w w' w'' : TraceWriter) → Started marshal source w
    → write_prompts w ps ≡ ok w'
    → finish w' source_size hash ≡ ok w''
    → w''.file ≡ whole
    → (r : Reader) × (open_trace unmarshal whole ≡ ok r)
      × ((i : ℕ) (p : PromptAccumulator)
          → get_elem? ps i ≡ some p
          → read_prompt r (pos i) ≡ ok (data_of p 0))
unfolding file h header_for metadata_of
written_parts marshal unmarshal source ps source_size hash whole decodes sound collected source_fits
      hashed small w w' w'' s blocks end whole_is =
    subst
      (λ (f : List ℕ).
        (r : Reader) × (open_trace unmarshal f ≡ ok r)
        × ((i : ℕ) (p : PromptAccumulator)
            → get_elem? ps i ≡ some p
            → read_prompt r (pos i) ≡ ok (data_of p 0)))
      same_file
      (parts_read unmarshal source w.metadata_bytes w.expert_bytes ps wrote.entries wrote.bytes
        source_size hash sound s.width_is (decodes _ _ s.encoded) layout collected counted
        source_fits hashed sizes)
  where
    grown : (bytes : List ℕ) × (w'.file ≡ w.file ++ bytes)
    grown = write_prompts_append w w' ps blocks

    head : List ℕ
    head = write_header (header_for w' w'.offset source_size hash)

    file_grown : w'.file ≡ replicate 112 0 ++ (w.metadata_bytes ++ grown.0)
    file_grown =
        grown.1
        ∙ ap (λ f. f ++ grown.0) s.file_is
        ∙ append_assoc (replicate 112 0) w.metadata_bytes grown.0

    finished₀ : w''.file ≡ head ++ ((w.metadata_bytes ++ grown.0) ++ index_bytes w'.index)
    finished₀ =
        (finish-file w' w'' (replicate 112 0) (w.metadata_bytes ++ grown.0) source_size hash
          file_grown refl end).0

    short : length w'.file < u64_mod
    short = omega (
      arith,
      small,
      ap length whole_is,
      ap length file_grown,
      ap length finished₀,
      length-append head ((w.metadata_bytes ++ grown.0) ++ index_bytes w'.index),
      length-append (w.metadata_bytes ++ grown.0) (index_bytes w'.index),
      length-append w.metadata_bytes grown.0,
      length-append (replicate 112 0) (w.metadata_bytes ++ grown.0),
      length-write_header (header_for w' w'.offset source_size hash) hashed,
    )

    wrote : Wrote w ps w'
    wrote = write_prompts-Wrote w w' ps s.placed short blocks

    layout : Layout w.expert_bytes 0 (112 + length w.metadata_bytes) ps wrote.entries wrote.bytes
    layout =
        Layout-cast refl (ap length s.index_is)
          (ap length s.file_is ∙ length-append (replicate 112 0) w.metadata_bytes) wrote.layout

    index_is : w'.index ≡ wrote.entries
    index_is = wrote.index_is ∙ ap (λ es. es ++ wrote.entries) s.index_is

    file_written : w'.file ≡ replicate 112 0 ++ (w.metadata_bytes ++ wrote.bytes)
    file_written =
        wrote.file_is
        ∙ ap (λ f. f ++ wrote.bytes) s.file_is
        ∙ append_assoc (replicate 112 0) w.metadata_bytes wrote.bytes

    finished :
        (w''.file ≡ head ++ ((w.metadata_bytes ++ wrote.bytes) ++ index_bytes w'.index))
        × (length w'.index ≡ w'.metadata.num_prompts)
    finished =
        finish-file w' w'' (replicate 112 0) (w.metadata_bytes ++ wrote.bytes) source_size hash
          file_written refl end

    counted : length wrote.entries ≡ source.num_prompts
    counted =
        ap length (sym index_is)
        ∙ finished.1
        ∙ ap (λ m. m.num_prompts) (wrote.metadata_is ∙ s.metadata_is)

    sizes : 112 + length w.metadata_bytes + length wrote.bytes + length wrote.entries * 32 < u64_mod
    sizes = omega (
      arith,
      small,
      ap length whole_is,
      ap length finished.0,
      ap length index_is,
      length-append head ((w.metadata_bytes ++ wrote.bytes) ++ index_bytes w'.index),
      length-append (w.metadata_bytes ++ wrote.bytes) (index_bytes w'.index),
      length-append w.metadata_bytes wrote.bytes,
      length-index_bytes w'.index,
      length-write_header (header_for w' w'.offset source_size hash) hashed,
    )

    prompts_are : w'.metadata.num_prompts ≡ source.num_prompts
    prompts_are = ap (λ m. m.num_prompts) (wrote.metadata_is ∙ s.metadata_is)

    header_is :
        header_for w' w'.offset source_size hash
        ≡ plain_header
            (length w.metadata_bytes)
            (length wrote.bytes)
            source.num_prompts
            w.expert_bytes
            source_size
            hash
    header_is =
        header_for-plain w' (length wrote.bytes) source_size hash wrote.placed_is
          (omega (
            arith,
            ap length file_written,
            length-append (replicate 112 0) (w.metadata_bytes ++ wrote.bytes),
            length-append w.metadata_bytes wrote.bytes,
            ap length wrote.metadata_bytes_are,
          ))
          finished.1 (omega (arith, sizes, ap length wrote.metadata_bytes_are, ap length index_is))
          (omega (arith, prompts_are, sound.count_fits))
          (rw wrote.width_is (expert_id_bytes_cases source.num_experts w.expert_bytes s.width_is))
        ∙ (λ i.
            plain_header (length (wrote.metadata_bytes_are i)) (length wrote.bytes) (prompts_are i)
              (wrote.width_is i) source_size hash)

    same_file :
        write_header (
            plain_header
              (length w.metadata_bytes)
              (length wrote.bytes)
              source.num_prompts
              w.expert_bytes
              source_size
              hash)
          ++ (w.metadata_bytes ++ (wrote.bytes ++ index_bytes wrote.entries))
        ≡ whole
    same_file = sym (
        sym whole_is ∙ finished.0 ∙ (λ i.
          write_header (header_is i)
          ++ append_assoc w.metadata_bytes wrote.bytes (index_bytes (index_is i)) i))
