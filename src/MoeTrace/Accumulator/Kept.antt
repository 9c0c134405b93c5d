-- ===== src/MoeTrace/Accumulator/Kept.antt =====
-- What a record leaves alone in an accumulator of pkg/moetrace/accumulator.go, by the cases of `add`.
use llm_d_inference_sim.MoeTrace.Accumulator.{
  PromptAccumulator, SourceTraceRecord, in_range, check_experts, enter_prefill, add_prefill,
  decode_position, enter_decode, add_decode, add_checked, add,
}
use llm_d_inference_sim.MoeTrace.Accumulator.Shape.{in_range-lt}
use llm_d_inference_sim.Common.Int.{ℤ}
use llm_d_inference_sim.Common.Maps.{lookup}
use llm_d_inference_sim.Common.{
  ℕ, ◌+◌, ◌*◌, ◌<◌, List, true, false, get_elem?, ◌==◌, nat_comparable, string_comparable,
  Bool-cases, Option-cases, Result-cases, [], inl, inr, not, ◌&&◌, length,
}

-- A record leaves the accumulator alone, or enters a prefill route or a decode route.
module _ {ℓ} (p : PromptAccumulator) (P : PromptAccumulator → Type ℓ) (stays : P p)
    (prefill : (slot position seen token : ℕ) (experts : List ℕ)
      → token < 4294967296
      → P (enter_prefill p slot position seen token experts).0)
    (decode : (position seen token : ℕ) (experts : List ℕ)
      → token < 4294967296
      → P (enter_decode p position seen token experts).0) where
  add_prefill_cases :
      (slot : ℕ) (position : ℤ) (token : ℕ) (experts : List ℕ)
      → token < 4294967296
      → P (add_prefill p slot position token experts).0
  unfolding add_prefill
  add_prefill_cases slot position token experts l =
      elim (Option-cases (in_range position p.meta.input_tokens)) [
        | inl outside ↦ rw (outside, add_prefill) stays
        | inr (q, found) ↦
            elim (Option-cases (get_elem? p.prefill_seen (slot * p.meta.input_tokens + q))) [
              | inl missing ↦ rw (found, missing, add_prefill) stays
              | inr (true, seen) ↦ rw (found, seen, add_prefill) stays
              | inr (false, unseen) ↦
                  rw (found, unseen, add_prefill)
                    (prefill slot q (slot * p.meta.input_tokens + q) token experts l)
            ]
      ]

  add_decode_cases :
      (slot : ℕ) (position : ℤ) (token : ℕ) (experts : List ℕ)
      → token < 4294967296
      → P (add_decode p slot position token experts).0
  unfolding add_decode
  add_decode_cases slot position token experts l =
      elim (Option-cases (decode_position position p.meta.input_tokens p.meta.decode_tokens)) [
        | inl outside ↦ rw (outside, add_decode) stays
        | inr (q, found) ↦ elim (Option-cases (get_elem? p.decode_seen (q * p.num_layers + slot))) [
          | inl missing ↦ rw (found, missing, add_decode) stays
          | inr (true, seen) ↦ rw (found, seen, add_decode) stays
          | inr (false, unseen) ↦
              rw (found, unseen, add_decode) (decode q (q * p.num_layers + slot) token experts l)
        ]
      ]

  add_checked_cases :
      (r : SourceTraceRecord) (slot token : ℕ) (experts : List ℕ)
      → token < 4294967296
      → P (add_checked p r slot token experts).0
  unfolding add_checked
  add_checked_cases r slot token experts l = elim (Bool-cases (r.phase == "prefill")) [
    | inl e ↦ rw e (add_prefill_cases slot r.position token experts l)
    | inr other ↦ elim (Bool-cases (r.phase == "decode")) [
      | inl e ↦ rw (other, e) (add_decode_cases slot r.position token experts l)
      | inr neither ↦ rw (other, neither) stays
    ]
  ]

  pub add_cases : (r : SourceTraceRecord) → P (add p r).0
  unfolding add
  add_cases r = elim (Option-cases (lookup r.layer p.layer_slots)) [
    | inl missing ↦ rw (missing, add) stays
    | inr (slot, found) ↦ elim (Option-cases (in_range r.token_id 4294967296)) [
      | inl outside ↦ rw (found, outside, add) stays
      | inr (token, inside) ↦ elim (Bool-cases (not (length r.experts == p.top_k))) [
        | inl wrong ↦ rw (found, inside, wrong, add) stays
        | inr right ↦
            elim (Bool-cases (not (r.gate_weights == 0) && not (r.gate_weights == p.top_k))) [
              | inl wrong ↦ rw (found, inside, right, wrong, add) stays
              | inr weighed ↦ elim (Result-cases (check_experts p.num_experts [] r.experts)) [
                | inl (why, refused) ↦ rw (found, inside, right, weighed, refused, add) stays
                | inr (experts, checked) ↦
                    rw (found, inside, right, weighed, checked, add)
                      (add_checked_cases r slot token experts (in_range-lt r.token_id _ _ inside))
              ]
            ]
      ]
    ]
  ]
