-- ===== src/MoeTrace/Open/Validates.antt =====
-- The blocks that pkg/moetrace/writer.go wrote pass the checks of Validate in pkg/moetrace/reader.go.
use llm_d_inference_sim.MoeTrace.Words.{drop, u32, read_full-append, drop_all}
use llm_d_inference_sim.MoeTrace.Header.{IndexEntry}
use llm_d_inference_sim.MoeTrace.Length.{
  u64_mod, prompt_block_length, prompt_block_length_for_version,
}
use llm_d_inference_sim.MoeTrace.Accumulator.{PromptAccumulator}
use llm_d_inference_sim.MoeTrace.Writer.{prompt_header, entry_of}
use llm_d_inference_sim.MoeTrace.Writer.Grown.{payload}
use llm_d_inference_sim.MoeTrace.Reader.{
  Reader, ReadError, validate_region, required, check, out_of_range, prompt_header_not_read,
  wrong_length, prompt_metadata_mismatch, prompt_start, prompt_region, overlaps_index,
}
use llm_d_inference_sim.MoeTrace.Open.{
  read_at, check_prompt_header, check_prompt_length, validate_entry, validate_entries, sized,
}
use llm_d_inference_sim.MoeTrace.Open.Layout.{Placed, Layout, done, next}
use llm_d_inference_sim.Common.{
  ℕ, suc, ◌+◌, ◌%◌, ◌≤◌, ◌<◌, ◌≡◌, refl, sym, ap, ◌∙◌, List, [], ◌∷◌, ◌++◌, some, Bool, true, ◌&&◌,
  leb, ◌==◌, nat_comparable, nat_beq_iff, length, get_elem?, Result, ok, ◌>>=◌, arith, append_assoc,
  length-append,
}
use native.Mathlib.Nat.{mod-eq_of_lt}

-- The reader has the metadata of the prompt, whose numbers fit 32 bits.
pub record IsKnown (r : Reader) (p : PromptAccumulator) : Type 0 where
  pub layers : length r.metadata.sparse_layers ≡ p.num_layers
  pub experts : r.metadata.num_experts ≡ p.num_experts
  pub top : r.metadata.top_k ≡ p.top_k
  pub index_fits : p.meta.index < 4294967296
  pub input_fits : p.meta.input_tokens < 4294967296
  pub decode_fits : p.meta.decode_tokens < 4294967296
  pub layers_fit : p.num_layers < 4294967296
  pub experts_fit : p.num_experts < 4294967296
  pub top_fits : p.top_k < 4294967296

-- A file of version 1 that is not too long.
pub record IsPlain (r : Reader) : Type 0 where
  pub version_1 : r.header.version ≡ 1
  pub no_sources : r.metadata.source_gpu_bytes ≡ 0
  pub width_fits : r.metadata.metadata_expert_bytes < 4294967296
  pub size : r.file_size ≡ length r.file
  pub small : length r.file < u64_mod

pub same : {a b : ℕ} → a ≡ b → (a == b) ≡ true
same {a} {b} e = (nat_beq_iff a b).1 e

pub both : {a b : Bool} → a ≡ true → b ≡ true → (a && b) ≡ true
both e f = rw e f

pub passes : {b : Bool} (e : ReadError) → b ≡ true → check b e ≡ ok 0
passes e h = ap (λ b. check b e) h

-- A step that succeeds gives way to the next.
pub then_ok :
    {A B : Type 0} {m : Result ReadError A} {a : A} {b : B} (k : A → Result ReadError B)
    → m ≡ ok a
    → k a ≡ ok b
    → (m >>= k) ≡ ok b
then_ok k e f = ap (λ m. m >>= k) e ∙ f

module _ (p : PromptAccumulator) (width : ℕ) (r : Reader) (k : IsKnown r p)
    (w : width < 4294967296) where
  header_index : u32 (prompt_header p width) ≡ p.meta.index
  unfolding prompt_header
  header_index = omega (arith, k.index_fits)

  header_input : u32 (drop 4 (prompt_header p width)) ≡ p.meta.input_tokens
  unfolding prompt_header
  header_input = omega (arith, k.input_fits)

  header_decode : u32 (drop 8 (prompt_header p width)) ≡ p.meta.decode_tokens
  unfolding prompt_header
  header_decode = omega (arith, k.decode_fits)

  header_layers : u32 (drop 12 (prompt_header p width)) ≡ p.num_layers
  unfolding prompt_header
  header_layers = omega (arith, k.layers_fit)

  header_experts : u32 (drop 16 (prompt_header p width)) ≡ p.num_experts
  unfolding prompt_header
  header_experts = omega (arith, k.experts_fit)

  header_top : u32 (drop 20 (prompt_header p width)) ≡ p.top_k
  unfolding prompt_header
  header_top = omega (arith, k.top_fits)

  header_width : u32 (drop 24 (prompt_header p width)) ≡ width
  unfolding prompt_header
  header_width = omega (arith, w)

pub length-prompt_header : (p : PromptAccumulator) (width : ℕ) → length (prompt_header p width) ≡ 32
unfolding prompt_header
length-prompt_header p width = refl

-- A region within the file is valid.
pub validate_region-within :
    (offset n size : ℕ) → offset + n ≤ size → validate_region offset n size ≡ true
unfolding validate_region
validate_region-within offset n size h = ground arith

pub read_at-within :
    (file before xs after : List ℕ) (offset n : ℕ)
    → file ≡ before ++ (xs ++ after)
    → offset ≡ length before
    → length xs ≡ n
    → read_at file offset n ≡ some xs
unfolding read_at
read_at-within file before xs after offset n whole start size =
    rw
      (
        whole,
        drop_all offset before (xs ++ after) (sym start),
        read_full-append n xs after size,
        read_at,
      )
      refl

check_prompt_header-prompt_header :
    (r : Reader) (p : PromptAccumulator) (off size : ℕ)
    → IsKnown r p
    → IsPlain r
    → check_prompt_header r p.meta.index
        (entry_of p off size)
        (prompt_header p r.metadata.metadata_expert_bytes)
      ≡ ok 0
unfolding check_prompt_header
check_prompt_header-prompt_header r p off size k plain =
    then_ok _
      (passes _ (
        both
          (both (same (header_index p width r k w))
            (same (header_input p width r k w ∙ sym (mod-eq_of_lt k.input_fits))))
          (same (header_decode p width r k w ∙ sym (mod-eq_of_lt k.decode_fits)))))
      (passes _ (
        both
          (both
            (both (same (header_layers p width r k w ∙ sym k.layers))
              (same (header_experts p width r k w ∙ sym k.experts)))
            (same (header_top p width r k w ∙ sym k.top)))
          (same (header_width p width r k w))))
  where
    width : ℕ
    width = r.metadata.metadata_expert_bytes

    w : width < 4294967296
    w = plain.width_fits

check_prompt_length-prompt_header :
    (r : Reader) (p : PromptAccumulator) (off size : ℕ)
    → IsKnown r p
    → IsPlain r
    → get_elem? r.metadata.prompts p.meta.index ≡ some p.meta
    → prompt_block_length p.meta.input_tokens p.meta.decode_tokens p.num_layers p.num_experts
        p.top_k r.metadata.metadata_expert_bytes
      ≡ ok size
    → check_prompt_length r p.meta.index
        (entry_of p off size)
        (prompt_header p r.metadata.metadata_expert_bytes)
      ≡ ok 0
unfolding check_prompt_length prompt_block_length
check_prompt_length-prompt_header r p off size k plain known expected =
    then_ok _ (ap (λ x. sized x p.meta.index) exact) (
      then_ok _ (passes (wrong_length p.meta.index) (same {a = size} refl)) (
        then_ok _ (ap (λ o. required o out_of_range) known) (
          passes (prompt_metadata_mismatch p.meta.index) (
            both (both (same {a = p.meta.index} refl) (same (sym (header_input p width r k w))))
              (same (sym (header_decode p width r k w)))))))
  where
    width : ℕ
    width = r.metadata.metadata_expert_bytes

    w : width < 4294967296
    w = plain.width_fits

    exact :
        prompt_block_length_for_version
          (u32 (drop 4 (prompt_header p width)))
          (u32 (drop 8 (prompt_header p width)))
          (u32 (drop 12 (prompt_header p width)))
          (u32 (drop 16 (prompt_header p width)))
          (u32 (drop 20 (prompt_header p width)))
          (u32 (drop 24 (prompt_header p width)))
          r.header.version
          r.metadata.source_gpu_bytes
        ≡ ok size
    exact =
        (λ i.
          prompt_block_length_for_version (header_input p width r k w i)
            (header_decode p width r k w i) (header_layers p width r k w i)
            (header_experts p width r k w i) (header_top p width r k w i)
            (header_width p width r k w i) (plain.version_1 i) (plain.no_sources i))
        ∙ expected

-- One block passes.
validate_entry-Placed :
    (r : Reader) {n off : ℕ} {p : PromptAccumulator} {entry : IndexEntry}
    (bytes before after : List ℕ)
    → Placed r.metadata.metadata_expert_bytes n off p entry bytes
    → IsKnown r p
    → IsPlain r
    → get_elem? r.metadata.prompts n ≡ some p.meta
    → off ≡ length before
    → r.file ≡ before ++ (bytes ++ after)
    → off + length bytes ≤ r.header.index_offset
    → validate_entry r n off entry ≡ ok 0
unfolding validate_entry
validate_entry-Placed r {n} {off} {p} {entry} bytes before after placed k plain known start whole
      within =
    rw (placed.entry_is, sym placed.in_turn)
      (then_ok _ (passes (prompt_start p.meta.index) (same {a = off} refl)) (
        then_ok _
          (passes (prompt_region p.meta.index)
            (validate_region-within off (length bytes) r.file_size inside))
          (then_ok _ (passes (overlaps_index p.meta.index) below) (
            then_ok _ (ap (λ o. required o (prompt_header_not_read p.meta.index)) header) (
              then_ok _ (check_prompt_header-prompt_header r p off (length bytes) k plain) (
                check_prompt_length-prompt_header r p off (length bytes) k plain
                  (ap (λ i. get_elem? r.metadata.prompts i) placed.in_turn ∙ known)
                  placed.expected))))))
  where
    width : ℕ
    width = r.metadata.metadata_expert_bytes

    sizes : length r.file ≡ length before + (length bytes + length after)
    sizes =
        ap length whole
        ∙ length-append before (bytes ++ after)
        ∙ ap (λ l. length before + l) (length-append bytes after)

    inside : off + length bytes ≤ r.file_size
    inside = omega (arith, sizes, plain.size, start)

    below : leb ((off + length bytes) % u64_mod) r.header.index_offset ≡ true
    below =
        let e =
          mod-eq_of_lt {n = off + length bytes} {m = u64_mod}
            (omega (arith, sizes, start, plain.small)) in
        rw e (ground (arith, within))

    header : read_at r.file off 32 ≡ some (prompt_header p width)
    header =
        read_at-within r.file before (prompt_header p width)
          (payload p placed.prefill placed.decode ++ after) off 32
          (whole
            ∙ ap (λ bs. before ++ (bs ++ after)) placed.bytes_are
            ∙ ap (λ bs. before ++ bs) (append_assoc (prompt_header p width) _ after))
          start (length-prompt_header p width)

-- The numbers of the prompts, in turn.
abbrev pub AllKnown : Reader → ℕ → List PromptAccumulator → Type 0
AllKnown r n [] = Unit
AllKnown r n (p ∷ ps) =
    IsKnown r p × (get_elem? r.metadata.prompts n ≡ some p.meta) × AllKnown r (suc n) ps

-- All blocks pass, and the result is the offset after the last.
pub validate_entries-Layout :
    (r : Reader) {n off : ℕ} {ps : List PromptAccumulator} {es : List IndexEntry} {bytes : List ℕ}
    (before after : List ℕ)
    → Layout r.metadata.metadata_expert_bytes n off ps es bytes
    → AllKnown r n ps
    → IsPlain r
    → off ≡ length before
    → r.file ≡ before ++ (bytes ++ after)
    → off + length bytes ≤ r.header.index_offset
    → validate_entries r n off es ≡ ok (off + length bytes)
unfolding validate_entries
validate_entries-Layout r before after done known plain start whole within = ap ok (omega arith)
validate_entries-Layout r {n} {off} before after (next {p} {entry} bytes rest placed l)
      (k, found, known) plain start whole within =
    then_ok _
      (validate_entry-Placed r bytes before (rest ++ after) placed k plain found start regrouped
        (omega (arith, within, length-append bytes rest)))
      (rw onward (
        validate_entries-Layout r (before ++ bytes) after l known plain
          (omega (arith, start, length-append before bytes))
          (regrouped ∙ sym (append_assoc before bytes (rest ++ after)))
          (omega (arith, within, length-append bytes rest))
        ∙ ap ok (omega (arith, length-append bytes rest))))
  where
    regrouped : r.file ≡ before ++ (bytes ++ (rest ++ after))
    regrouped = whole ∙ ap (λ bs. before ++ bs) (append_assoc bytes rest after)

    onward : (off + entry.length) % u64_mod ≡ off + length bytes
    onward =
        ap (λ e. (off + e.length) % u64_mod) placed.entry_is
        ∙ mod-eq_of_lt (
            omega (
              arith,
              start,
              plain.small,
              ap length regrouped,
              length-append before (bytes ++ (rest ++ after)),
              length-append bytes (rest ++ after),
            ))
