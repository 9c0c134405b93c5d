-- ===== src/MoeTrace/Open/Index.antt =====
-- The index that pkg/moetrace/writer.go wrote, read by pkg/moetrace/reader.go, and the file that is
-- finished.
use llm_d_inference_sim.MoeTrace.Words.{drop, drop_all}
use llm_d_inference_sim.MoeTrace.Header.{
  IndexEntry, write_header, write_index_entry, read_index_entry,
}
use llm_d_inference_sim.MoeTrace.Header.Codec.{IsIndexed, read_index_entry-write_index_entry}
use llm_d_inference_sim.MoeTrace.Length.{u64_mod}
use llm_d_inference_sim.MoeTrace.Accumulator.{PromptAccumulator}
use llm_d_inference_sim.MoeTrace.Writer.{
  TraceWriter, write, write_index, header_for, finish, entry_of,
}
use llm_d_inference_sim.MoeTrace.Writer.Grown.{Grown, write-Grown, Grown-trans, OnOk}
use llm_d_inference_sim.MoeTrace.Reader.{Reader, required, index_not_read, wrong_prompt_id}
use llm_d_inference_sim.MoeTrace.Open.{read_entries}
use llm_d_inference_sim.MoeTrace.Open.Layout.{Layout, done, next}
use llm_d_inference_sim.MoeTrace.Open.Validates.{AllKnown, then_ok, passes, same}
use llm_d_inference_sim.Common.{
  ℕ, ◌+◌, ◌*◌, ◌<◌, ◌≡◌, refl, sym, ap, subst, ◌∙◌, List, [], ◌∷◌, ◌++◌, some, not, ◌==◌,
  nat_comparable, length, ok, arith, append_assoc, append_nil, length-append, Bool-cases, inl, inr,
}
use native.Mathlib.Nat.{mod-eq_of_lt}

-- The bytes of the index.
abbrev pub index_bytes : List IndexEntry → List ℕ
index_bytes [] = []
index_bytes (e ∷ es) = write_index_entry e ++ index_bytes es

length-write_index_entry : (e : IndexEntry) → length (write_index_entry e) ≡ 32
unfolding write_index_entry
length-write_index_entry e = refl

pub length-index_bytes : (es : List IndexEntry) → length (index_bytes es) ≡ length es * 32
unfolding write_index_entry
length-index_bytes [] = refl
length-index_bytes (e ∷ es) = omega (arith, length-index_bytes es)

write_index-Grown :
    (w : TraceWriter) (es : List IndexEntry) → Grown w (index_bytes es) (write_index w es)
unfolding write_index
write_index-Grown w [] = record {
  file_grown = sym (append_nil w.file);
  placed = λ p. p;
  metadata_same = refl;
  metadata_bytes_same = refl;
  width_same = refl;
  index_same = refl;
}
write_index-Grown w (e ∷ es) =
    Grown-trans (write_index_entry e) (index_bytes es) (write-Grown w (write_index_entry e))
      (write_index-Grown (write w (write_index_entry e)) es)

-- The finished file: the header in place of the first bytes, then the rest and the index.
pub finish-file :
    (w w' : TraceWriter) (head body : List ℕ) (source_size : ℕ) (hash : List ℕ)
    → w.file ≡ head ++ body
    → length head ≡ 112
    → finish w source_size hash ≡ ok w'
    → (w'.file
        ≡ write_header (header_for w w.offset source_size hash) ++ (body ++ index_bytes w.index))
      × (length w.index ≡ w.metadata.num_prompts)
unfolding finish
finish-file w w' head body source_size hash file size e =
    elim (Bool-cases (not (length w.index == w.metadata.num_prompts))) [
      | inl wrong ↦ let e' = rw (wrong, finish) at e in cc
      | inr right ↦
          let tail : drop 112 (write_index w w.index).file ≡ body ++ index_bytes w.index =
            ap (drop 112) (
              (write_index-Grown w w.index).file_grown
              ∙ ap (λ f. f ++ index_bytes w.index) file
              ∙ append_assoc head body (index_bytes w.index))
            ∙ drop_all 112 head (body ++ index_bytes w.index) size in
          (
            subst
                (OnOk (λ v.
                  v.file
                  ≡ write_header (header_for w w.offset source_size hash)
                    ++ (body ++ index_bytes w.index)))
                (rw (right, finish) at e)
                (ap (λ t. write_header (header_for w w.offset source_size hash) ++ t) tail),
            ground (arith, right),
          )
    ]

entry_of-IsIndexed :
    (p : PromptAccumulator) (off size : ℕ)
    → off < u64_mod
    → size < u64_mod
    → IsIndexed (entry_of p off size)
entry_of-IsIndexed p off size h k = record {
  prompt_id_fits = omega arith;
  offset_fits = h;
  length_fits = k;
  input_tokens_fits = omega arith;
  decode_tokens_fits = omega arith;
}

-- The entries are read back in turn.
pub read_entries-Layout :
    (r : Reader) {width n off : ℕ} {ps : List PromptAccumulator} {es : List IndexEntry}
    {bytes : List ℕ} (file : List ℕ) (base : ℕ) (before after : List ℕ)
    → Layout width n off ps es bytes
    → AllKnown r n ps
    → off + length bytes < u64_mod
    → base + n * 32 ≡ length before
    → file ≡ before ++ (index_bytes es ++ after)
    → read_entries file base n (length es) ≡ ok es
unfolding read_entries
read_entries-Layout r file base before after done known small start whole = refl
read_entries-Layout r {off} file base before after
      (next {n} {p} {entry} {entries} bytes rest placed l) (k, found, known) small start whole =
    then_ok _ (ap (λ o. required o (index_not_read n)) here) (
      then_ok _ (passes (wrong_prompt_id n) (same number)) (
        then_ok _
          (read_entries-Layout r file base (before ++ write_index_entry entry) after l known
            (omega (arith, small, length-append bytes rest))
            (omega (
              arith,
              start,
              length-append before (write_index_entry entry),
              length-write_index_entry entry,
            ))
            (regrouped
              ∙ sym (append_assoc before (write_index_entry entry) (index_bytes entries ++ after))))
          refl))
  where
    regrouped : file ≡ before ++ (write_index_entry entry ++ (index_bytes entries ++ after))
    regrouped =
        whole
        ∙ ap (λ bs. before ++ bs)
            (append_assoc (write_index_entry entry) (index_bytes entries) after)

    indexed : IsIndexed entry
    indexed = subst IsIndexed (sym placed.entry_is) (
        entry_of-IsIndexed p off (length bytes) (omega (arith, small))
          (omega (arith, small, length-append bytes rest)))

    here : read_index_entry file (base + n * 32) ≡ some entry
    here =
        rw (regrouped, start)
          (read_index_entry-write_index_entry before entry (index_bytes entries ++ after) indexed)

    number : entry.prompt_id ≡ n
    number = ap (λ e. e.prompt_id) placed.entry_is ∙ mod-eq_of_lt k.index_fits ∙ placed.in_turn
