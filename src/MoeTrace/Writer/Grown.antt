-- ===== src/MoeTrace/Writer/Grown.antt =====
-- What pkg/moetrace/writer.go has written: the bytes at the end of the file and the entry at the end of
-- the index.
use llm_d_inference_sim.MoeTrace.Length.{u64_mod, prompt_block_length}
use llm_d_inference_sim.MoeTrace.Accumulator.{PromptAccumulator, validate_complete}
use llm_d_inference_sim.MoeTrace.Slices.{uint32_bytes, expert_bytes}
use llm_d_inference_sim.MoeTrace.Writer.{
  TraceWriter, WriteError, write, write_uint32_slice, write_expert_slice, prompt_header,
  write_block, enter_block, write_prompt, entry_of,
}
use llm_d_inference_sim.Common.{
  ℕ, ◌+◌, ◌-◌, ◌%◌, ◌≡◌, refl, sym, ap, subst, ◌∙◌, List, [], ◌∷◌, ◌++◌, some, not, ◌==◌,
  nat_comparable, length, Result, ok, err, >>=-eq-ok, arith, Option-cases, Result-cases, Bool-cases,
  inl, inr, append_assoc, length-append,
}

-- The bytes after the header of a block; the routes are encoded.
abbrev pub payload : PromptAccumulator → List ℕ → List ℕ → List ℕ
payload p prefill decode =
    uint32_bytes p.input_token_ids
    ++ (uint32_bytes p.decode_token_ids ++ (uint32_bytes p.prefill_counts ++ (prefill ++ decode)))

-- The offset is the length of the file, as an uint64.
abbrev pub IsPlaced : TraceWriter → Type 0
IsPlaced w = w.offset ≡ length w.file % u64_mod

-- The writer has written these bytes, and nothing else has changed.
pub record Grown (w : TraceWriter) (bytes : List ℕ) (w' : TraceWriter) : Type 0 where
  pub file_grown : w'.file ≡ w.file ++ bytes
  pub placed : IsPlaced w → IsPlaced w'
  pub metadata_same : w'.metadata ≡ w.metadata
  pub metadata_bytes_same : w'.metadata_bytes ≡ w.metadata_bytes
  pub width_same : w'.expert_bytes ≡ w.expert_bytes
  pub index_same : w'.index ≡ w.index

pub write-Grown : (w : TraceWriter) (bytes : List ℕ) → Grown w bytes (write w bytes)
unfolding write
write-Grown w bytes = record {
  file_grown = refl;
  placed = λ p. omega (arith, p, length-append w.file bytes);
  metadata_same = refl;
  metadata_bytes_same = refl;
  width_same = refl;
  index_same = refl;
}

pub Grown-trans :
    {w w' w'' : TraceWriter} (xs ys : List ℕ)
    → Grown w xs w'
    → Grown w' ys w''
    → Grown w (xs ++ ys) w''
Grown-trans {w} xs ys g h = record {
  file_grown = h.file_grown ∙ ap (λ f. f ++ ys) g.file_grown ∙ append_assoc w.file xs ys;
  placed = λ p. h.placed (g.placed p);
  metadata_same = h.metadata_same ∙ g.metadata_same;
  metadata_bytes_same = h.metadata_bytes_same ∙ g.metadata_bytes_same;
  width_same = h.width_same ∙ g.width_same;
  index_same = h.index_same ∙ g.index_same;
}

-- Of the writer, if there is no error.
abbrev pub OnOk : (TraceWriter → Type 0) → Result WriteError TraceWriter → Type 0
OnOk P (ok w) = P w
OnOk P (err e) = Unit

write_expert_slice-Grown :
    (w w' : TraceWriter) (values : List ℕ)
    → write_expert_slice w values ≡ ok w'
    → (bs : List ℕ) × (expert_bytes w.expert_bytes values ≡ some bs) × Grown w bs w'
unfolding write_expert_slice
write_expert_slice-Grown w w' values e = elim (Option-cases (expert_bytes w.expert_bytes values)) [
  | inl refused ↦ let e' = rw (refused, write_expert_slice) at e in cc
  | inr (bs, encoded) ↦
      let e' = rw (encoded, write_expert_slice) at e in
      (bs, encoded, subst (OnOk (Grown w bs)) e' (write-Grown w bs))
]

-- The encoded routes of a block that was written.
pub record Routes (w : TraceWriter) (p : PromptAccumulator) : Type 0 where
  pub prefill : List ℕ
  pub decode : List ℕ
  pub prefill_encoded : expert_bytes w.expert_bytes p.prefill_routes ≡ some prefill
  pub decode_encoded : expert_bytes w.expert_bytes p.decode_routes ≡ some decode

-- The bytes of a block.
abbrev pub block : (w : TraceWriter) (p : PromptAccumulator) → Routes w p → List ℕ
block w p r = prompt_header p w.expert_bytes ++ payload p r.prefill r.decode

write_block-Grown :
    (w w' : TraceWriter) (p : PromptAccumulator)
    → write_block w p ≡ ok w'
    → (r : Routes w p) × Grown w (block w p r) w'
unfolding write_block write_uint32_slice
write_block-Grown w w' p e =
    let w₁ = write w (prompt_header p w.expert_bytes) in
    let w₂ = write w₁ (uint32_bytes p.input_token_ids) in
    let w₃ = write w₂ (uint32_bytes p.decode_token_ids) in
    let w₄ = write w₃ (uint32_bytes p.prefill_counts) in
    let first =
      >>=-eq-ok (write_expert_slice w₄ p.prefill_routes) (λ v. write_expert_slice v p.decode_routes)
        e in
    let pre = write_expert_slice-Grown w₄ first.0 p.prefill_routes first.1 in
    let dec = write_expert_slice-Grown first.0 w' p.decode_routes first.2 in
    (
      record {
        prefill = pre.0;
        decode = dec.0;
        prefill_encoded = pre.1;
        decode_encoded = rw pre.2.width_same at dec.1;
      },
      Grown-trans _ _ (write-Grown w _) (
          Grown-trans _ _ (write-Grown w₁ _) (
            Grown-trans _ _ (write-Grown w₂ _)
              (Grown-trans _ _ (write-Grown w₃ _) (Grown-trans _ _ pre.2 dec.2)))),
    )

-- A prompt that was written: its block at the end of the file and its entry at the end of the index.
pub record Entered (w : TraceWriter) (p : PromptAccumulator) (w' : TraceWriter) : Type 0 where
  pub routes : Routes w p
  pub file_entered : w'.file ≡ w.file ++ block w p routes
  pub placed_entered : IsPlaced w → IsPlaced w'
  pub metadata_kept : w'.metadata ≡ w.metadata
  pub metadata_bytes_kept : w'.metadata_bytes ≡ w.metadata_bytes
  pub width_kept : w'.expert_bytes ≡ w.expert_bytes
  pub index_entered :
      w'.index ≡ w.index ++ entry_of p w.offset ((w'.offset + u64_mod - w.offset) % u64_mod) ∷ []
  pub in_turn : p.meta.index ≡ length w.index
  pub entry_expected :
      prompt_block_length p.meta.input_tokens p.meta.decode_tokens p.num_layers p.num_experts
        p.top_k w.expert_bytes
      ≡ ok ((w'.offset + u64_mod - w.offset) % u64_mod)

enter_block-Entered :
    (w w' w'' : TraceWriter) (p : PromptAccumulator) (r : Routes w p)
    → Grown w (block w p r) w'
    → p.meta.index ≡ length w.index
    → enter_block w' p w.offset ≡ ok w''
    → Entered w p w''
unfolding enter_block
enter_block-Entered w w' w'' p r g turn e =
    elim (Result-cases (
      prompt_block_length p.meta.input_tokens p.meta.decode_tokens p.num_layers p.num_experts
        p.top_k w'.expert_bytes)) [
          | inl (why, over) ↦ let e' = rw (over, enter_block) at e in cc
          | inr (expected, size) ↦
              elim (Bool-cases (not ((w'.offset + u64_mod - w.offset) % u64_mod == expected))) [
                | inl wrong ↦ let e' = rw (size, wrong, enter_block) at e in cc
                | inr right ↦
                    let same : (w'.offset + u64_mod - w.offset) % u64_mod ≡ expected =
                      ground (arith, right) in
                    let e' = rw (size, right, enter_block) at e in
                    subst (OnOk (Entered w p)) e' (record {
                      routes = r;
                      file_entered = g.file_grown;
                      placed_entered = g.placed;
                      metadata_kept = g.metadata_same;
                      metadata_bytes_kept = g.metadata_bytes_same;
                      width_kept = g.width_same;
                      index_entered =
                          ap
                            (λ es.
                              es
                              ++ entry_of p w.offset ((w'.offset + u64_mod - w.offset) % u64_mod)
                                ∷ [])
                            g.index_same;
                      in_turn = turn;
                      entry_expected = rw (← g.width_same) (size ∙ ap ok (sym same));
                    })
              ]
        ]

pub write_prompt-Entered :
    (w w' : TraceWriter) (p : PromptAccumulator) → write_prompt w p ≡ ok w' → Entered w p w'
unfolding write_prompt
write_prompt-Entered w w' p e = elim (Option-cases (validate_complete p)) [
  | inr (missing, found) ↦ let e' = rw (found, write_prompt) at e in cc
  | inl complete ↦ elim (Bool-cases (not (p.meta.index == length w.index))) [
    | inl wrong ↦ let e' = rw (complete, wrong, write_prompt) at e in cc
    | inr right ↦
        let split =
          >>=-eq-ok (write_block w p) (λ v. enter_block v p w.offset)
            (rw (complete, right, write_prompt) at e) in
        let written = write_block-Grown w split.0 p split.1 in
        enter_block-Entered w split.0 w' p written.0 written.1 (ground (arith, right)) split.2
  ]
]
