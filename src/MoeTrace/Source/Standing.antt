-- ===== src/MoeTrace/Source/Standing.antt =====
-- What holds between two records of convertTraceArray of pkg/moetrace/source.go.
use llm_d_inference_sim.MoeTrace.Accumulator.{
  PromptMetadata, PromptAccumulator, SourceTraceRecord, expected_records, in_range, add,
}
use llm_d_inference_sim.MoeTrace.Source.Records.{
  records_of, records_of-other, Collected, Collected-Built, Collected-new, Collected-add,
}
use llm_d_inference_sim.MoeTrace.Writer.{SourceMetadata, TraceWriter, write_prompt}
use llm_d_inference_sim.MoeTrace.Source.{
  ConvertError, Conversion, written, prompt_accumulator, write_empty, close_current, begin_prompt,
  turn_to, add_current, convert_records, close_all,
}
use llm_d_inference_sim.MoeTrace.Source.Chain.{
  Chain, Chain-le, Chain-append, Chain-later, written-ok,
}
use llm_d_inference_sim.Common.Maps.{Map}
use llm_d_inference_sim.Common.{
  ℕ, zero, suc, ◌+◌, ◌-◌, ◌≤◌, ◌≡◌, sym, ap, subst, ◌∙◌, List, [], ◌∷◌, ◌++◌, Option, none, some,
  true, false, not, ltb, ◌==◌, nat_comparable, string_comparable, length, get_elem?, Result, ok,
  err, ◌>>=◌, >>=-eq-ok, Option-cases, Bool-cases, inl, inr, arith, length-append, append_nil,
  append_assoc, nat_beq_iff,
}

abbrev pub OnDone : (Conversion → Type 0) → Result ConvertError Conversion → Type 0
OnDone P (ok c) = P c
OnDone P (err e) = Unit

module _ (source : SourceMetadata) (slots : Map ℕ ℕ) (start : TraceWriter)
    (indexed : (n : ℕ) (p : PromptMetadata)
      → get_elem? source.prompts n ≡ some p
      → p.index ≡ n) where
  -- The chain after a step, with the number of prompts that it has.
  abbrev pub Longer : List SourceTraceRecord → ℕ → TraceWriter → Type 0
  Longer done n w =
      (ps : List PromptAccumulator) × Chain source slots start done ps w × (length ps ≡ n)

  -- No record of prompt `n` or of a later one was read.
  abbrev pub Quiet : ℕ → List SourceTraceRecord → Type 0
  Quiet n done = (j : ℕ) → n ≤ j → records_of j done ≡ []

  Collected-index :
      (done : List SourceTraceRecord) (n : ℕ) (p : PromptAccumulator)
      → Collected source slots done n p
      → p.meta.index ≡ n
  Collected-index done n p c = indexed n p.meta (Collected-Built source slots done n p c).0

  write_empty-Longer :
      (done : List SourceTraceRecord) (k n : ℕ) (w w' : TraceWriter)
      → Quiet n done
      → Longer done n w
      → write_empty source slots k n w ≡ ok w'
      → Longer done (n + k) w'
  unfolding write_empty
  write_empty-Longer done zero n w w' quiet (ps, c, size) e =
      (ps, record { chain = c.chain ∙ ap ok (cc e); sourced = c.sourced }, omega (arith, size))
  write_empty-Longer done (suc k) n w w' quiet (ps, c, size) e =
      let split = >>=-eq-ok (prompt_accumulator source slots n) _ e in
      let p = split.0 in
      elim (Bool-cases (not (expected_records p == 0))) [
        | inl some_missing ↦ let e' = rw some_missing at split.2 in cc
        | inr none_missing ↦
            let onward = >>=-eq-ok (written (write_prompt w p)) _ (rw none_missing at split.2) in
            let longer =
              Chain-append source slots start w onward.0 done ps p c
                (subst (λ i. Collected source slots done i p) (sym size)
                  (Collected-new source slots done n p split.1 (quiet n (omega arith))))
                (written-ok (write_prompt w p) onward.0 onward.1) in
            let rest =
              write_empty-Longer done k (suc n) onward.0 w' (λ j l. quiet j (omega (arith, l)))
                (ps ++ p ∷ [], longer, omega (arith, size, length-append ps (p ∷ []))) onward.2 in
            (rest.0, rest.1, omega (arith, rest.2))
      ]

  -- Between two records: what was written, and the prompt that is collected next.
  abbrev pub Stands : List SourceTraceRecord → ℕ → Option PromptAccumulator → TraceWriter → Type 0
  Stands done n none w = Longer done n w × Quiet n done
  Stands done n (some p) w =
      Longer done p.meta.index w
      × Collected source slots done p.meta.index p
      × Quiet (suc p.meta.index) done

  abbrev pub Advanced : List SourceTraceRecord → Conversion → Type 0
  Advanced done c = Longer done c.next_prompt c.writer × Quiet c.next_prompt done

  abbrev pub Standing : List SourceTraceRecord → Conversion → Type 0
  Standing done c = Stands done c.next_prompt c.current c.writer

  -- Before a record of prompt `n`: that prompt is collected.
  abbrev pub IsAt : ℕ → Option PromptAccumulator → Type 0
  IsAt n none = true ≡ false
  IsAt n (some p) = p.meta.index ≡ n

  closed_prompt :
      (done : List SourceTraceRecord) (w w' : TraceWriter) (p : PromptAccumulator)
      → Longer done p.meta.index w
      → Collected source slots done p.meta.index p
      → Quiet (suc p.meta.index) done
      → write_prompt w p ≡ ok w'
      → Longer done (p.meta.index + 1) w' × Quiet (p.meta.index + 1) done
  closed_prompt done w w' p (ps, c, size) found quiet e = (
    (
      ps ++ p ∷ [],
      Chain-append source slots start w w' done ps p c
          (subst (λ i. Collected source slots done i p) (sym size) found) e,
      omega (arith, size, length-append ps (p ∷ [])),
    ),
    λ j l. quiet j (omega (arith, l)),
  )

  close_onward :
      (done : List SourceTraceRecord) (c c' : Conversion) (p : PromptAccumulator)
      → Stands done c.next_prompt (some p) c.writer
      → (written (write_prompt c.writer p) >>= λ w.
          ok (record c { writer = w; next_prompt = p.meta.index + 1; current = none }))
        ≡ ok c'
      → Advanced done c'
  close_onward done c c' p s e =
      let split = >>=-eq-ok (written (write_prompt c.writer p)) _ e in
      subst (OnDone (Advanced done)) split.2 (
        closed_prompt done c.writer split.0 p s.0 s.1 s.2
          (written-ok (write_prompt c.writer p) split.0 split.1))

  close_some :
      (done : List SourceTraceRecord) (w : TraceWriter) (n next t : ℕ) (p : PromptAccumulator)
      (c' : Conversion)
      → Stands done next (some p) w
      → close_current
          (record { writer = w; next_prompt = next; current = some p; trace_records = t })
          n
        ≡ ok c'
      → Advanced done c'
  unfolding close_current
  close_some done w n next t p c' s e = elim (Bool-cases (ltb n p.meta.index)) [
    | inl back ↦ let e' = rw back at e in cc
    | inr onward ↦
        close_onward done
          (record { writer = w; next_prompt = next; current = some p; trace_records = t }) c' p s
          (rw onward at e)
  ]

  close_current-Advanced :
      (done : List SourceTraceRecord) (w : TraceWriter) (n next t : ℕ)
      (current : Option PromptAccumulator) (c' : Conversion)
      → Stands done next current w
      → close_current
          (record { writer = w; next_prompt = next; current = current; trace_records = t })
          n
        ≡ ok c'
      → Advanced done c'
  close_current-Advanced done w n next t none c' s e =
      let c : Conversion = record {
        writer = w;
        next_prompt = next;
        current = none;
        trace_records = t;
      } in
      let e' : ◌≡◌ {A = Result ConvertError Conversion} (ok c) (ok c') =
        unfold close_current in e in
      subst (OnDone (Advanced done)) e' s
  close_current-Advanced done w n next t (some p) c' s e = close_some done w n next t p c' s e

  begin_prompt-Standing :
      (done : List SourceTraceRecord) (n : ℕ) (c c' : Conversion)
      → Advanced done c
      → begin_prompt source slots n c ≡ ok c'
      → Standing done c' × IsAt n c'.current
  unfolding begin_prompt
  begin_prompt-Standing done n c c' (longer, quiet) e =
      let filled =
        >>=-eq-ok (write_empty source slots (n - c.next_prompt) c.next_prompt c.writer) _ e in
      elim (Bool-cases (ltb n c.next_prompt)) [
        | inl back ↦ let e' = rw back at filled.2 in cc
        | inr onward ↦
            let made = >>=-eq-ok (prompt_accumulator source slots n) _ (rw onward at filled.2) in
            let ahead : c.next_prompt ≤ n = ground (arith, onward) in
            let found = Collected-new source slots done n made.0 made.1 (quiet n ahead) in
            let same = Collected-index done n made.0 found in
            let longer' =
              write_empty-Longer done (n - c.next_prompt) c.next_prompt c.writer filled.0 quiet
                longer filled.1 in
            subst (OnDone (λ x. Standing done x × IsAt n x.current)) made.2 (
              (
                (longer'.0, longer'.1, omega (arith, longer'.2, same, ahead)),
                subst (λ i. Collected source slots done i made.0) (sym same) found,
                λ j l. quiet j (omega (arith, l, same, ahead)),
              ),
              same,
            )
      ]

  turn_to-Standing :
      (done : List SourceTraceRecord) (w : TraceWriter) (n next t : ℕ)
      (current : Option PromptAccumulator) (c' : Conversion)
      → Stands done next current w
      → turn_to source slots n
          (record { writer = w; next_prompt = next; current = current; trace_records = t })
        ≡ ok c'
      → Standing done c' × IsAt n c'.current
  unfolding turn_to
  turn_to-Standing done w n next t none c' s e =
      begin_prompt-Standing done n
        (record { writer = w; next_prompt = next; current = none; trace_records = t }) c' s e
  turn_to-Standing done w n next t (some p) c' s e = elim (Bool-cases (n == p.meta.index)) [
    | inl same ↦
        subst (OnDone (λ x. Standing done x × IsAt n x.current)) (rw same at e)
          (s, sym ((nat_beq_iff n p.meta.index).0 same))
    | inr other ↦
        let c : Conversion = record {
          writer = w;
          next_prompt = next;
          current = some p;
          trace_records = t;
        } in
        let closed = >>=-eq-ok (close_current c n) _ (rw other at e) in
        begin_prompt-Standing done n closed.0 c'
          (close_current-Advanced done w n next t (some p) closed.0 s closed.1) closed.2
  ]

  -- The prompt that is collected takes its record.
  taken-Stands :
      (done : List SourceTraceRecord) (r : SourceTraceRecord) (n next : ℕ) (w : TraceWriter)
      (p : PromptAccumulator)
      → in_range r.prompt source.num_prompts ≡ some n
      → p.meta.index ≡ n
      → (add p r).1 ≡ none
      → Stands done next (some p) w
      → Stands (done ++ r ∷ []) next (some (add p r).0) w
  taken-Stands done r n next w p e at taken ((ps, c, size), found, quiet) =
      let here : in_range r.prompt source.num_prompts ≡ some p.meta.index = e ∙ ap some (sym at) in
      let found' =
        Collected-add source slots source.num_prompts p.meta.index done p r here taken found in
      let same = Collected-index (done ++ r ∷ []) p.meta.index (add p r).0 found' in
      (
        (
          ps,
          Chain-later source slots start w done ps r source.num_prompts p.meta.index here
              (omega (arith, size)) c,
          omega (arith, size, same),
        ),
        subst (λ i. Collected source slots (done ++ r ∷ []) i (add p r).0) (sym same) found',
        λ j l.
            records_of-other source.num_prompts p.meta.index j done r here (ground (arith, l, same))
            ∙ quiet j (omega (arith, l, same)),
      )

  add_current-Standing :
      (done : List SourceTraceRecord) (r : SourceTraceRecord) (n : ℕ) (w : TraceWriter) (next t : ℕ)
      (current : Option PromptAccumulator) (c' : Conversion)
      → in_range r.prompt source.num_prompts ≡ some n
      → Stands done next current w
      → IsAt n current
      → add_current r
          (record { writer = w; next_prompt = next; current = current; trace_records = t })
        ≡ ok c'
      → Standing (done ++ r ∷ []) c'
  unfolding add_current
  add_current-Standing done r n w next t none c' i s at e = cc
  add_current-Standing done r n w next t (some p) c' i s at e = elim (Option-cases (add p r).1) [
    | inr (why, refused) ↦ let e' = rw (refused, add_current) at e in cc
    | inl taken ↦
        subst (OnDone (Standing (done ++ r ∷ []))) (rw (taken, add_current) at e)
          (taken-Stands done r n next w p i at taken s)
  ]

  pub convert_records-Standing :
      (done rs : List SourceTraceRecord) (c c' : Conversion)
      → Standing done c
      → convert_records source slots rs c ≡ ok c'
      → Standing (done ++ rs) c'
  unfolding convert_records
  convert_records-Standing done [] c c' s e =
      subst (λ x. Standing x c') (sym (append_nil done)) (subst (OnDone (Standing done)) e s)
  convert_records-Standing done (r ∷ rs) c c' s e =
      elim (Option-cases (in_range r.prompt source.num_prompts)) [
        | inl outside ↦ let e' = rw (outside, convert_records) at e in cc
        | inr (n, inside) ↦
            let added =
              >>=-eq-ok (turn_to source slots n c >>= add_current r) _
                (rw (inside, convert_records) at e) in
            let turned = >>=-eq-ok (turn_to source slots n c) _ added.1 in
            let t = turned.0 in
            let (s', at) =
              turn_to-Standing done c.writer n c.next_prompt c.trace_records c.current t s
                turned.1 in
            subst (λ x. Standing x c') (append_assoc done (r ∷ []) rs)
              (convert_records-Standing (done ++ r ∷ []) rs added.0 c'
                (add_current-Standing done r n t.writer t.next_prompt t.trace_records t.current
                  added.0 inside s' at turned.2)
                added.2)
      ]

  pub close_all-Longer :
      (done : List SourceTraceRecord) (c : Conversion) (w' : TraceWriter)
      → length source.prompts ≡ source.num_prompts
      → Standing done c
      → close_all source slots c ≡ ok w'
      → Longer done source.num_prompts w'
  unfolding close_all
  close_all-Longer done c w' counted s e =
      let n : ℕ = elim c.current [ none ↦ 0 | some p ↦ p.meta.index ] in
      let closed = >>=-eq-ok (close_current c n) _ e in
      let advanced =
        close_current-Advanced done c.writer n c.next_prompt c.trace_records c.current closed.0 s
          closed.1 in
      let all = write_empty-Longer done _ _ closed.0.writer w' advanced.1 advanced.0 closed.2 in
      (
        all.0,
        all.1,
        omega (
          arith,
          all.2,
          advanced.0.2,
          counted,
          Chain-le source slots start done advanced.0.0 closed.0.writer advanced.0.1,
        ),
      )
