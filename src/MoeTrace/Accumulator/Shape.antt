-- ===== src/MoeTrace/Accumulator/Shape.antt =====
-- What holds of an accumulator of pkg/moetrace/accumulator.go after every record.
use llm_d_inference_sim.MoeTrace.Accumulator.{
  PromptAccumulator, SourceTraceRecord, in_range, check_experts, is_inconsistent, enter_prefill,
  add_prefill, decode_position, enter_decode, add_decode, add_checked, add, wrong_experts,
  wrong_weights,
}
use llm_d_inference_sim.MoeTrace.Accumulator.Seen.{trues, trues-set, get_elem?-lt}
use llm_d_inference_sim.Common.Int.{ℤ, pos, negsuc}
use llm_d_inference_sim.Common.Maps.{lookup}
use llm_d_inference_sim.Common.{
  ℕ, suc, ◌+◌, ◌*◌, ◌/◌, ◌%◌, ◌<◌, ◌≡◌, refl, ap, subst, ◌∙◌, ◌⊎◌, Bool, true, false, not, ◌&&◌,
  List, [], none, some, length, get_elem?, set, length-set, get_elem?-set, if◌then◌else◌, ◌==◌,
  nat_comparable, string_comparable, nat_beq_iff, ok, err, arith, Bool-cases, Option-cases,
  Result-cases, inl, inr,
}
use native.Mathlib.Nat.{mul-add-mod_self_right, mod-eq_of_lt, mul-add-div_right, div-eq_of_lt}

pub record Shape (p : PromptAccumulator) : Type 0 where
  pub input_size : length p.input_token_seen ≡ p.meta.input_tokens
  pub decode_size : length p.decode_token_seen ≡ p.meta.decode_tokens
  pub prefill_size : length p.prefill_seen ≡ p.meta.input_tokens * p.num_layers
  pub decode_seen_size : length p.decode_seen ≡ p.meta.decode_tokens * p.num_layers
  -- A route that was seen has its token.
  pub prefill_tokens :
      (slot position : ℕ)
      → position < p.meta.input_tokens
      → get_elem? p.prefill_seen (slot * p.meta.input_tokens + position) ≡ some true
      → get_elem? p.input_token_seen position ≡ some true
  pub decode_tokens_seen :
      (position slot : ℕ)
      → slot < p.num_layers
      → get_elem? p.decode_seen (position * p.num_layers + slot) ≡ some true
      → get_elem? p.decode_token_seen position ≡ some true

-- The number of routes that were recorded.
abbrev pub recorded : PromptAccumulator → ℕ
recorded p = trues p.prefill_seen + trues p.decode_seen

-- The fields that a record leaves alone.
pub record Settled (p p' : PromptAccumulator) : Type 0 where
  pub meta_same : p'.meta ≡ p.meta
  pub layers_same : p'.num_layers ≡ p.num_layers
  pub slots_same : p'.layer_slots ≡ p.layer_slots

-- A record that was taken is one more, and the accumulator keeps its shape.
pub record Taken (p p' : PromptAccumulator) : Type 0 where
  pub shape : Shape p'
  pub settled : Settled p p'
  pub one_more : recorded p' ≡ suc (recorded p)

same_place : (n a b c d : ℕ) → b < n → d < n → a * n + b ≡ c * n + d → (a ≡ c) × (b ≡ d)
same_place n a b c d h k e = (
  omega (
    arith,
    mul-add-div_right {m = n} (omega (arith, h)) a b,
    mul-add-div_right {m = n} (omega (arith, h)) c d,
    div-eq_of_lt {n = b} {m = n} h,
    div-eq_of_lt {n = d} {m = n} k,
    ap (λ (t : ℕ). t / n) e,
  ),
  omega (
    arith,
    mul-add-mod_self_right a n b,
    mul-add-mod_self_right c n d,
    mod-eq_of_lt h,
    mod-eq_of_lt k,
    ap (λ (t : ℕ). t % n) e,
  ),
)

-- A set flag stays set.
get_elem?-set-true :
    (xs : List Bool) (i j : ℕ)
    → i < length xs
    → get_elem? xs j ≡ some true
    → get_elem? (set xs i true) j ≡ some true
get_elem?-set-true xs i j l e = ground (arith, get_elem?-set xs i j true l, e)

-- A flag that is set after a write was set before, or is the one written.
get_elem?-set-true_cases :
    (xs : List Bool) (i j : ℕ)
    → i < length xs
    → get_elem? (set xs i true) j ≡ some true
    → (i ≡ j) ⊎ (get_elem? xs j ≡ some true)
get_elem?-set-true_cases xs i j l e = elim (Bool-cases (i == j)) [
  | inl p ↦ inl ((nat_beq_iff i j).0 p)
  | inr p ↦ inr (ground (arith, get_elem?-set xs i j true l, p))
]

-- The new prefill route, whatever the token ids, the routes and the counts are.
prefill_entered-Taken :
    (p : PromptAccumulator) (slot position : ℕ) (ids routes counts : List ℕ)
    → Shape p
    → position < p.meta.input_tokens
    → get_elem? p.prefill_seen (slot * p.meta.input_tokens + position) ≡ some false
    → Taken p (record p {
      prefill_seen = set p.prefill_seen (slot * p.meta.input_tokens + position) true;
      input_token_seen = set p.input_token_seen position true;
      input_token_ids = ids;
      prefill_routes = routes;
      prefill_counts = counts;
    })
prefill_entered-Taken p slot position ids routes counts h l unseen =
    let inside = get_elem?-lt p.prefill_seen (slot * p.meta.input_tokens + position) unseen in
    let token_inside : position < length p.input_token_seen = omega arith in
    record {
      shape = record {
        input_size = length-set p.input_token_seen position true ∙ h.input_size;
        decode_size = h.decode_size;
        prefill_size =
            length-set p.prefill_seen (slot * p.meta.input_tokens + position) true ∙ h.prefill_size;
        decode_seen_size = h.decode_seen_size;
        prefill_tokens = λ s q k seen.
            elim (get_elem?-set-true_cases p.prefill_seen _ _ inside seen) [
              | inl e ↦
                  let same = same_place p.meta.input_tokens slot position s q l k e in
                  ground
                    (arith, get_elem?-set p.input_token_seen position q true token_inside, same)
              | inr old ↦
                  get_elem?-set-true p.input_token_seen position q token_inside
                    (h.prefill_tokens s q k old)
            ];
        decode_tokens_seen = h.decode_tokens_seen;
      };
      settled = record { meta_same = refl; layers_same = refl; slots_same = refl };
      one_more =
          omega (arith, trues-set p.prefill_seen (slot * p.meta.input_tokens + position) unseen);
    }

decode_entered-Taken :
    (p : PromptAccumulator) (position slot : ℕ) (ids routes : List ℕ)
    → Shape p
    → position < p.meta.decode_tokens
    → slot < p.num_layers
    → get_elem? p.decode_seen (position * p.num_layers + slot) ≡ some false
    → Taken p (record p {
      decode_seen = set p.decode_seen (position * p.num_layers + slot) true;
      decode_token_seen = set p.decode_token_seen position true;
      decode_token_ids = ids;
      decode_routes = routes;
    })
decode_entered-Taken p position slot ids routes h l below unseen =
    let inside = get_elem?-lt p.decode_seen (position * p.num_layers + slot) unseen in
    let token_inside : position < length p.decode_token_seen = omega arith in
    record {
      shape = record {
        input_size = h.input_size;
        decode_size = length-set p.decode_token_seen position true ∙ h.decode_size;
        prefill_size = h.prefill_size;
        decode_seen_size =
            length-set p.decode_seen (position * p.num_layers + slot) true ∙ h.decode_seen_size;
        prefill_tokens = h.prefill_tokens;
        decode_tokens_seen = λ q s k seen.
            elim (get_elem?-set-true_cases p.decode_seen _ _ inside seen) [
              | inl e ↦
                  let same = same_place p.num_layers position slot q s below k e in
                  ground
                    (arith, get_elem?-set p.decode_token_seen position q true token_inside, same)
              | inr old ↦
                  get_elem?-set-true p.decode_token_seen position q token_inside
                    (h.decode_tokens_seen q s k old)
            ];
      };
      settled = record { meta_same = refl; layers_same = refl; slots_same = refl };
      one_more = omega (arith, trues-set p.decode_seen (position * p.num_layers + slot) unseen);
    }

enter_prefill-Taken :
    (p p' : PromptAccumulator) (slot position token : ℕ) (experts : List ℕ)
    → Shape p
    → position < p.meta.input_tokens
    → get_elem? p.prefill_seen (slot * p.meta.input_tokens + position) ≡ some false
    → enter_prefill p slot position (slot * p.meta.input_tokens + position) token experts
      ≡ (p', none)
    → Taken p p'
unfolding enter_prefill
enter_prefill-Taken p p' slot position token experts h l unseen e =
    elim (Bool-cases (is_inconsistent p.input_token_seen p.input_token_ids position token)) [
      | inl b ↦ let e' = rw b at e in cc
      | inr g ↦
          subst (Taken p) (ap (λ x. x.0) (rw g at e))
            (prefill_entered-Taken p slot position _ _ _ h l unseen)
    ]

enter_decode-Taken :
    (p p' : PromptAccumulator) (position slot token : ℕ) (experts : List ℕ)
    → Shape p
    → position < p.meta.decode_tokens
    → slot < p.num_layers
    → get_elem? p.decode_seen (position * p.num_layers + slot) ≡ some false
    → enter_decode p position (position * p.num_layers + slot) token experts ≡ (p', none)
    → Taken p p'
unfolding enter_decode
enter_decode-Taken p p' position slot token experts h l below unseen e =
    elim (Bool-cases (is_inconsistent p.decode_token_seen p.decode_token_ids position token)) [
      | inl b ↦ let e' = rw b at e in cc
      | inr g ↦
          subst (Taken p) (ap (λ x. x.0) (rw g at e))
            (decode_entered-Taken p position slot _ _ h l below unseen)
    ]

pub in_range-lt : (z : ℤ) (limit n : ℕ) → in_range z limit ≡ some n → n < limit
in_range-lt (pos m) limit n e = ground arith
in_range-lt (negsuc m) limit n e = cc

decode_position-lt :
    (z : ℤ) (inputs limit n : ℕ) → decode_position z inputs limit ≡ some n → n < limit
decode_position-lt (pos m) inputs limit n e = ground arith
decode_position-lt (negsuc m) inputs limit n e = cc

add_prefill-Taken :
    (p p' : PromptAccumulator) (slot : ℕ) (position : ℤ) (token : ℕ) (experts : List ℕ)
    → Shape p
    → add_prefill p slot position token experts ≡ (p', none)
    → Taken p p'
unfolding add_prefill
add_prefill-Taken p p' slot position token experts h e =
    elim (Option-cases (in_range position p.meta.input_tokens)) [
      | inl outside ↦ let e' = rw (outside, add_prefill) at e in cc
      | inr (n, found) ↦
          elim (Option-cases (get_elem? p.prefill_seen (slot * p.meta.input_tokens + n))) [
            | inl missing ↦ let e' = rw (found, missing, add_prefill) at e in cc
            | inr (true, seen) ↦ let e' = rw (found, seen, add_prefill) at e in cc
            | inr (false, unseen) ↦
                enter_prefill-Taken p p' slot n token experts h (in_range-lt position _ n found)
                  unseen (rw (found, unseen, add_prefill) at e)
          ]
    ]

add_decode-Taken :
    (p p' : PromptAccumulator) (slot : ℕ) (position : ℤ) (token : ℕ) (experts : List ℕ)
    → Shape p
    → slot < p.num_layers
    → add_decode p slot position token experts ≡ (p', none)
    → Taken p p'
unfolding add_decode
add_decode-Taken p p' slot position token experts h below e =
    elim (Option-cases (decode_position position p.meta.input_tokens p.meta.decode_tokens)) [
      | inl outside ↦ let e' = rw (outside, add_decode) at e in cc
      | inr (n, found) ↦ elim (Option-cases (get_elem? p.decode_seen (n * p.num_layers + slot))) [
        | inl missing ↦ let e' = rw (found, missing, add_decode) at e in cc
        | inr (true, seen) ↦ let e' = rw (found, seen, add_decode) at e in cc
        | inr (false, unseen) ↦
            enter_decode-Taken p p' n slot token experts h (decode_position-lt position _ _ n found)
              below unseen (rw (found, unseen, add_decode) at e)
      ]
    ]

add_checked-Taken :
    (p p' : PromptAccumulator) (r : SourceTraceRecord) (slot token : ℕ) (experts : List ℕ)
    → Shape p
    → slot < p.num_layers
    → add_checked p r slot token experts ≡ (p', none)
    → Taken p p'
unfolding add_checked
add_checked-Taken p p' r slot token experts h below e = elim (Bool-cases (r.phase == "prefill")) [
  | inl prefill ↦ add_prefill-Taken p p' slot r.position token experts h (rw prefill at e)
  | inr other ↦ elim (Bool-cases (r.phase == "decode")) [
    | inl decode ↦
        add_decode-Taken p p' slot r.position token experts h below (rw (other, decode) at e)
    | inr neither ↦ let e' = rw (other, neither) at e in cc
  ]
]

-- From the test of the number of experts on.
add_accepted-Taken :
    (p p' : PromptAccumulator) (r : SourceTraceRecord) (slot token : ℕ)
    → Shape p
    → slot < p.num_layers
    → (if not (length r.experts == p.top_k)
        then (p, some wrong_experts)
        else if not (r.gate_weights == 0) && not (r.gate_weights == p.top_k)
        then (p, some wrong_weights)
        else elim (check_experts p.num_experts [] r.experts) [
          | err e ↦ (p, some e)
          | ok experts ↦ add_checked p r slot token experts
        ])
      ≡ (p', none)
    → Taken p p'
add_accepted-Taken p p' r slot token h below e =
    elim (Bool-cases (not (length r.experts == p.top_k))) [
      | inl wrong ↦ let e' = rw wrong at e in cc
      | inr right ↦
          elim (Bool-cases (not (r.gate_weights == 0) && not (r.gate_weights == p.top_k))) [
            | inl wrong ↦ let e' = rw (right, wrong) at e in cc
            | inr weighed ↦ elim (Result-cases (check_experts p.num_experts [] r.experts)) [
              | inl (why, refused) ↦ let e' = (rw refused at (rw (right, weighed) at e)) in cc
              | inr (experts, checked) ↦
                  add_checked-Taken p p' r slot token experts h below
                    (rw checked at (rw (right, weighed) at e))
            ]
          ]
    ]

-- The slots of the layers are those of the accumulator.
abbrev pub SlotsWithin : PromptAccumulator → Type 0
SlotsWithin p = (layer slot : ℕ) → lookup layer p.layer_slots ≡ some slot → slot < p.num_layers

pub add-Taken :
    (p p' : PromptAccumulator) (r : SourceTraceRecord)
    → Shape p
    → SlotsWithin p
    → add p r ≡ (p', none)
    → Taken p p'
unfolding add
add-Taken p p' r h within e = elim (Option-cases (lookup r.layer p.layer_slots)) [
  | inl missing ↦ let e' = rw (missing, add) at e in cc
  | inr (slot, found) ↦ elim (Option-cases (in_range r.token_id 4294967296)) [
    | inl outside ↦ let e' = rw (found, outside, add) at e in cc
    | inr (token, inside) ↦
        add_accepted-Taken p p' r slot token h (within r.layer slot found)
          (rw (found, inside, add) at e)
  ]
]
