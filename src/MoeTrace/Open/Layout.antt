-- ===== src/MoeTrace/Open/Layout.antt =====
-- How the blocks and the entries that pkg/moetrace/writer.go wrote lie in the file.
use llm_d_inference_sim.MoeTrace.Header.{IndexEntry}
use llm_d_inference_sim.MoeTrace.Length.{u64_mod, prompt_block_length}
use llm_d_inference_sim.MoeTrace.Accumulator.{PromptAccumulator}
use llm_d_inference_sim.MoeTrace.Slices.{expert_bytes}
use llm_d_inference_sim.MoeTrace.Writer.{
  TraceWriter, WriteError, prompt_header, write_prompt, entry_of,
}
use llm_d_inference_sim.MoeTrace.Writer.Grown.{
  payload, block, IsPlaced, OnOk, Entered, write_prompt-Entered,
}
use llm_d_inference_sim.Common.{
  ℕ, zero, suc, ◌+◌, ◌-◌, ◌%◌, ◌<◌, ◌≡◌, refl, sym, ap, subst, ◌∙◌, List, [], ◌∷◌, ◌++◌, some,
  length, get_elem?, Result, ok, ◌>>=◌, >>=-eq-ok, arith, append_assoc, append_nil, length-append,
}

-- The prompts in turn.
unfoldable pub write_prompts : TraceWriter → List PromptAccumulator → Result WriteError TraceWriter
unfolding write_prompt
write_prompts w [] = ok w
write_prompts w (p ∷ ps) = write_prompt w p >>= λ w'. write_prompts w' ps

-- The block of prompt `n` and its entry, at an offset.
pub record Placed (width n off : ℕ) (p : PromptAccumulator) (entry : IndexEntry) (bytes : List ℕ)
    : Type 0 where
  pub prefill : List ℕ
  pub decode : List ℕ
  pub prefill_encoded : expert_bytes width p.prefill_routes ≡ some prefill
  pub decode_encoded : expert_bytes width p.decode_routes ≡ some decode
  pub bytes_are : bytes ≡ prompt_header p width ++ payload p prefill decode
  pub entry_is : entry ≡ entry_of p off (length bytes)
  pub in_turn : p.meta.index ≡ n
  pub expected :
      prompt_block_length p.meta.input_tokens p.meta.decode_tokens p.num_layers p.num_experts
        p.top_k width
      ≡ ok (length bytes)

-- Blocks one after the other, from prompt `n` at an offset on.
pub data Layout (width : ℕ)
    : ℕ → ℕ → List PromptAccumulator → List IndexEntry → List ℕ → Type 0 where
  done : {n off : ℕ} → Layout width n off [] [] []
  next :
      {n off : ℕ} {p : PromptAccumulator} {ps : List PromptAccumulator} {entry : IndexEntry}
      {entries : List IndexEntry} (bytes rest : List ℕ)
      → Placed width n off p entry bytes
      → Layout width (suc n) (off + length bytes) ps entries rest
      → Layout width n off (p ∷ ps) (entry ∷ entries) (bytes ++ rest)

pub length-Layout :
    {width n off : ℕ} {ps : List PromptAccumulator} {es : List IndexEntry} {bytes : List ℕ}
    → Layout width n off ps es bytes
    → length es ≡ length ps
length-Layout done = refl
length-Layout (next bytes rest placed l) = ap suc (length-Layout l)

-- What a run of the writer over prompts has done.
pub record Wrote (w : TraceWriter) (ps : List PromptAccumulator) (w' : TraceWriter) : Type 0 where
  pub entries : List IndexEntry
  pub bytes : List ℕ
  pub layout : Layout w.expert_bytes (length w.index) (length w.file) ps entries bytes
  pub file_is : w'.file ≡ w.file ++ bytes
  pub index_is : w'.index ≡ w.index ++ entries
  pub metadata_is : w'.metadata ≡ w.metadata
  pub metadata_bytes_are : w'.metadata_bytes ≡ w.metadata_bytes
  pub width_is : w'.expert_bytes ≡ w.expert_bytes
  pub placed_is : IsPlaced w'

Entered-Placed :
    (w w' : TraceWriter) (p : PromptAccumulator)
    → IsPlaced w
    → length w'.file < u64_mod
    → (e : Entered w p w')
    → Placed w.expert_bytes
        (length w.index)
        (length w.file)
        p
        (entry_of p w.offset ((w'.offset + u64_mod - w.offset) % u64_mod))
        (block w p e.routes)
Entered-Placed w w' p placed small e =
    let sizes : length w'.file ≡ length w.file + length (block w p e.routes) =
      ap length e.file_entered ∙ length-append w.file (block w p e.routes) in
    let placed' = e.placed_entered placed in
    let start : w.offset ≡ length w.file = omega (arith, placed, sizes, small) in
    let written : (w'.offset + u64_mod - w.offset) % u64_mod ≡ length (block w p e.routes) =
      omega (arith, placed', start, sizes, small) in
    record {
      prefill = e.routes.prefill;
      decode = e.routes.decode;
      prefill_encoded = e.routes.prefill_encoded;
      decode_encoded = e.routes.decode_encoded;
      bytes_are = refl;
      entry_is = λ i. entry_of p (start i) (written i);
      in_turn = e.in_turn;
      expected = e.entry_expected ∙ ap ok written;
    }

pub Layout-cast :
    {v w n m a b : ℕ} {ps : List PromptAccumulator} {es : List IndexEntry} {bytes : List ℕ}
    → v ≡ w
    → n ≡ m
    → a ≡ b
    → Layout v n a ps es bytes
    → Layout w m b ps es bytes
Layout-cast {ps} {es} {bytes} e f g l = coe 0 1 (i. Layout (e i) (f i) (g i) ps es bytes) l

pub write_prompts-Wrote :
    (w w' : TraceWriter) (ps : List PromptAccumulator)
    → IsPlaced w
    → length w'.file < u64_mod
    → write_prompts w ps ≡ ok w'
    → Wrote w ps w'
unfolding write_prompts
write_prompts-Wrote w w' [] placed small e = subst (OnOk (Wrote w [])) e (record {
  entries = [];
  bytes = [];
  layout = done;
  file_is = sym (append_nil w.file);
  index_is = sym (append_nil w.index);
  metadata_is = refl;
  metadata_bytes_are = refl;
  width_is = refl;
  placed_is = placed;
})
write_prompts-Wrote w w' (p ∷ ps) placed small e =
    let split = >>=-eq-ok (write_prompt w p) (λ v. write_prompts v ps) e in
    let v = split.0 in
    let entered = write_prompt-Entered w v p split.1 in
    let rest = write_prompts-Wrote v w' ps (entered.placed_entered placed) small split.2 in
    let written = block w p entered.routes in
    let one =
      Entered-Placed w v p placed
        (omega (arith, small, ap length rest.file_is, length-append v.file rest.bytes)) entered in
    let entry = entry_of p w.offset ((v.offset + u64_mod - w.offset) % u64_mod) in
    record {
      entries = entry ∷ rest.entries;
      bytes = written ++ rest.bytes;
      layout = next written rest.bytes one (
          Layout-cast entered.width_kept
            (omega (arith, ap length entered.index_entered, length-append w.index (entry ∷ [])))
            (ap length entered.file_entered ∙ length-append w.file written) rest.layout);
      file_is =
          rest.file_is
          ∙ ap (λ f. f ++ rest.bytes) entered.file_entered
          ∙ append_assoc w.file written rest.bytes;
      index_is =
          rest.index_is
          ∙ ap (λ es. es ++ rest.entries) entered.index_entered
          ∙ append_assoc w.index (entry ∷ []) rest.entries;
      metadata_is = rest.metadata_is ∙ entered.metadata_kept;
      metadata_bytes_are = rest.metadata_bytes_are ∙ entered.metadata_bytes_kept;
      width_is = rest.width_is ∙ entered.width_kept;
      placed_is = rest.placed_is;
    }

-- The place of one block among the others.
pub record Found (width n off : ℕ) (p : PromptAccumulator) (i : ℕ) (es : List IndexEntry)
    (bytes : List ℕ) : Type 0 where
  pub before : List ℕ
  pub after : List ℕ
  pub entry : IndexEntry
  pub here : List ℕ
  pub whole : bytes ≡ before ++ (here ++ after)
  pub entry_found : get_elem? es i ≡ some entry
  pub placed : Placed width (n + i) (off + length before) p entry here

Placed-cast :
    {width n m a b : ℕ} {p q : PromptAccumulator} {entry : IndexEntry} {bytes : List ℕ}
    → n ≡ m
    → a ≡ b
    → p ≡ q
    → Placed width n a p entry bytes
    → Placed width m b q entry bytes
Placed-cast {width} {entry} {bytes} e f g l =
    coe 0 1 (i. Placed width (e i) (f i) (g i) entry bytes) l

pub Layout-Found :
    {width n off : ℕ} {ps : List PromptAccumulator} {es : List IndexEntry} {bytes : List ℕ}
    {p : PromptAccumulator} (i : ℕ)
    → Layout width n off ps es bytes
    → get_elem? ps i ≡ some p
    → Found width n off p i es bytes
Layout-Found i done e = cc
Layout-Found zero (next {entry} bytes rest placed l) e = record {
  before = [];
  after = rest;
  entry = entry;
  here = bytes;
  whole = refl;
  entry_found = refl;
  placed = Placed-cast (omega arith) (omega arith) (cc) placed;
}
Layout-Found (suc i) (next bytes rest placed l) e =
    let found = Layout-Found i l e in
    record {
      before = bytes ++ found.before;
      after = found.after;
      entry = found.entry;
      here = found.here;
      whole =
          ap (λ bs. bytes ++ bs) found.whole
          ∙ sym (append_assoc bytes found.before (found.here ++ found.after));
      entry_found = found.entry_found;
      placed =
          Placed-cast (omega arith) (omega (arith, length-append bytes found.before)) refl
            found.placed;
    }

-- A run only adds to the file.
pub write_prompts_append :
    (w w' : TraceWriter) (ps : List PromptAccumulator)
    → write_prompts w ps ≡ ok w'
    → (bytes : List ℕ) × (w'.file ≡ w.file ++ bytes)
unfolding write_prompts
write_prompts_append w w' [] e =
    subst (OnOk (λ v. (bytes : List ℕ) × (v.file ≡ w.file ++ bytes))) e
      ([], sym (append_nil w.file))
write_prompts_append w w' (p ∷ ps) e =
    let split = >>=-eq-ok (write_prompt w p) (λ v. write_prompts v ps) e in
    let entered = write_prompt-Entered w split.0 p split.1 in
    let rest = write_prompts_append split.0 w' ps split.2 in
    (
      block w p entered.routes ++ rest.0,
      rest.1
          ∙ ap (λ f. f ++ rest.0) entered.file_entered
          ∙ append_assoc w.file (block w p entered.routes) rest.0,
    )
