-- ===== src/Moe/Initial.antt =====
-- What the first placement of the experts of pkg/simulator/moe.go looks like.
use llm_d_inference_sim.Moe.{
  logical_of, physical_to_logical, append_at, place_slots, empty_placement,
  vllm_initial_placement_one_layer, MoeConfig, validate_moe, slots_not_divisible,
}
use llm_d_inference_sim.Common.{
  append_nil, append_assoc, ℕ, zero, suc, ◌+◌, ◌*◌, ◌/◌, ◌%◌, ◌≤◌, ◌<◌, ◌≡◌, ◌≢◌, refl, sym, ap,
  ◌∙◌, false, List, [], ◌∷◌, ◌++◌, some, ltb, length, get_elem?, contains, Distinct, All,
  if◌then◌else◌, ◌==◌, nat_comparable, arith, Bool-cases, inl, inr, ok, err, nat_beq_iff,
}
use native.Mathlib.Nat.{
  mod-eq_of_lt, mod-eq-sub-mod, div-add-mod, div-lt_iff_lt-mul, le-div_iff_mul-le, mul-le-mul_left,
  mul-suc, suc-mul, div-mul-le_self,
}

module _ (num_experts : ℕ) where
  logical_of-mod : (slot : ℕ) → logical_of num_experts slot ≡ slot % num_experts
  unfolding logical_of
  logical_of-mod slot = elim (Bool-cases (ltb slot num_experts)) [
    | inl e ↦ rw e (sym (mod-eq_of_lt (ground (arith, e))))
    | inr e ↦ rw e (sym (mod-eq-sub-mod (ground (arith, e))))
  ]

  -- Two slots of one expert are at least the number of experts apart.
  apart :
      (i j : ℕ) → i < j → logical_of num_experts i ≡ logical_of num_experts j → i + num_experts ≤ j
  apart i j l e = elim (Bool-cases (ltb (i / num_experts) (j / num_experts))) [
    | inl m ↦
        let same : i % num_experts ≡ j % num_experts =
          sym (logical_of-mod i) ∙ e ∙ logical_of-mod j in
        let bound =
          mul-le-mul_left {m = suc (i / num_experts)} {n = j / num_experts} num_experts
            (ground (arith, m)) in
        omega (
          arith,
          same,
          bound,
          mul-suc num_experts (i / num_experts),
          div-add-mod i num_experts,
          div-add-mod j num_experts,
        )
    | inr m ↦
        let same : i % num_experts ≡ j % num_experts =
          sym (logical_of-mod i) ∙ e ∙ logical_of-mod j in
        let bound =
          mul-le-mul_left {m = j / num_experts} {n = i / num_experts} num_experts
            (ground (arith, m)) in
        absurd (omega (arith, l, same, bound, div-add-mod i num_experts, div-add-mod j num_experts))
  ]

-- The ranks of an expert among `n` slots from `slot` on.
abbrev ranks_from : ℕ → ℕ → ℕ → ℕ → ℕ → List ℕ
ranks_from num_experts k expert slot zero = []
ranks_from num_experts k expert slot (suc n) =
    if logical_of num_experts slot == expert
    then slot / k ∷ ranks_from num_experts k expert (suc slot) n
    else ranks_from num_experts k expert (suc slot) n

append_at-get_elem? :
    (a rank e : ℕ) (placement : List (List ℕ)) {ranks : List ℕ}
    → get_elem? placement e ≡ some ranks
    → get_elem? (append_at a rank placement) e ≡ some (if a == e then ranks ++ rank ∷ [] else ranks)
unfolding append_at
append_at-get_elem? a rank e [] h = cc
append_at-get_elem? zero rank zero (x ∷ placement) h = ground (arith, h)
append_at-get_elem? zero rank (suc e) (x ∷ placement) h = ground (arith, h)
append_at-get_elem? (suc a) rank zero (x ∷ placement) h = ground (arith, h)
append_at-get_elem? (suc a) rank (suc e) (x ∷ placement) h =
    ground (arith, append_at-get_elem? a rank e placement h)

-- The slots from `slot` on add the expert's ranks to its list.
place_slots-get_elem? :
    (num_experts k e n slot : ℕ) (placement : List (List ℕ)) {ranks : List ℕ}
    → get_elem? placement e ≡ some ranks
    → get_elem? (place_slots k slot (physical_to_logical num_experts slot n) placement) e
      ≡ some (ranks ++ ranks_from num_experts k e slot n)
unfolding place_slots physical_to_logical
place_slots-get_elem? num_experts k e zero slot placement {ranks} h =
    h ∙ ap some (sym (append_nil ranks))
place_slots-get_elem? num_experts k e (suc n) slot placement {ranks} h =
    let added = append_at-get_elem? (logical_of num_experts slot) (slot / k) e placement h in
    elim (Bool-cases (logical_of num_experts slot == e)) [
      | inl s ↦ rw s (
          place_slots-get_elem? num_experts k e n (suc slot) _ {ranks = ranks ++ slot / k ∷ []}
            (rw s at added)
          ∙ ap some (append_assoc ranks (slot / k ∷ []) (ranks_from num_experts k e (suc slot) n)))
      | inr s ↦
          rw s
            (place_slots-get_elem? num_experts k e n (suc slot) _ {ranks = ranks} (rw s at added))
    ]

empty_placement-get_elem? : (n e : ℕ) → e < n → get_elem? (empty_placement n) e ≡ some []
unfolding empty_placement
empty_placement-get_elem? zero e h = absurd (omega (arith, h))
empty_placement-get_elem? (suc n) zero h = refl
empty_placement-get_elem? (suc n) (suc e) h = empty_placement-get_elem? n e (omega (arith, h))

module _ (num_experts k : ℕ) (some_slots : 0 < k) (few_slots : k ≤ num_experts) where
  later_rank : (i j : ℕ) → i + num_experts ≤ j → i / k < j / k
  later_rank i j h =
      (le-div_iff_mul-le {k = k} {x = suc (i / k)} {y = j} some_slots).1
        (omega (arith, h, few_slots, suc-mul (i / k) k, div-mul-le_self i k))

  -- After a slot of the expert, the expert's ranks are larger.
  ranks_from-later :
      (i e j n : ℕ)
      → i < j
      → logical_of num_experts i ≡ e
      → All (λ r. i / k < r) (ranks_from num_experts k e j n)
  ranks_from-later i e j zero l h = tt
  ranks_from-later i e j (suc n) l h =
      let rest = ranks_from-later i e (suc j) n (omega (arith, l)) h in
      elim (Bool-cases (logical_of num_experts j == e)) [
        | inl s ↦
            rw s (later_rank i j (apart num_experts i j l (h ∙ sym ((nat_beq_iff _ _).0 s))), rest)
        | inr s ↦ rw s rest
      ]

  ranks_from-Distinct : (e j n : ℕ) → Distinct (ranks_from num_experts k e j n)
  ranks_from-Distinct e j zero = tt
  ranks_from-Distinct e j (suc n) = elim (Bool-cases (logical_of num_experts j == e)) [
    | inl s ↦ rw s (
      larger (j / k) _ (ranks_from-later j e (suc j) n (omega arith) ((nat_beq_iff _ _).0 s)),
      ranks_from-Distinct e (suc j) n,
    )
    | inr s ↦ rw s (ranks_from-Distinct e (suc j) n)
  ]
    where
      larger : (a : ℕ) (xs : List ℕ) → All (λ r. a < r) xs → contains a xs ≡ false
      larger a [] h = refl
      larger a (x ∷ xs) h = ground (arith, h.0, larger a xs h.1, nat_beq_iff x a)

  ranks_from-below :
      (num_gpus e j n : ℕ)
      → j + n ≤ num_gpus * k
      → All (λ r. r < num_gpus) (ranks_from num_experts k e j n)
  ranks_from-below num_gpus e j zero h = tt
  ranks_from-below num_gpus e j (suc n) h =
      let rest = ranks_from-below num_gpus e (suc j) n (omega (arith, h)) in
      elim (Bool-cases (logical_of num_experts j == e)) [
        | inl s ↦ rw s (
          (div-lt_iff_lt-mul {k = k} {x = j} {y = num_gpus} some_slots).1 (omega (arith, h)),
          rest,
        )
        | inr s ↦ rw s rest
      ]

  -- An expert's own slot is the one with its number.
  ranks_from-some :
      (e j n : ℕ)
      → e < num_experts
      → j ≤ e
      → e < j + n
      → 0 < length (ranks_from num_experts k e j n)
  ranks_from-some e j zero small l h = absurd (omega (arith, l, h))
  ranks_from-some e j (suc n) small l h = elim (Bool-cases (logical_of num_experts j == e)) [
    | inl s ↦ rw s (omega arith)
    | inr s ↦ rw s (ranks_from-some e (suc j) n small (past s) (omega (arith, h)))
  ]
    where
      past : (logical_of num_experts j == e) ≡ false → suc j ≤ e
      past s = unfold logical_of in ground (arith, s, l, small)

-- Every expert has a rank, no rank twice, and only existing ranks.
pub record Placed (num_experts num_gpus : ℕ) (placement : List (List ℕ)) (e : ℕ) : Type 0 where
  pub ranks : List ℕ
  pub at_expert : get_elem? placement e ≡ some ranks
  pub nonempty : 0 < length ranks
  pub distinct : Distinct ranks
  pub existing : All (λ r. r < num_gpus) ranks

-- With dimensions that fit, the first placement does not panic, and each expert has at least one rank,
-- no rank twice, and only existing ranks.
pub vllm_initial_placement_one_layer-Placed :
    (num_experts physical_slots num_gpus : ℕ)
    → 1 ≤ num_experts
    → 1 ≤ num_gpus
    → num_experts ≤ physical_slots
    → physical_slots ≤ num_experts * num_gpus
    → physical_slots % num_gpus ≡ 0
    → (placement : List (List ℕ)) × (vllm_initial_placement_one_layer num_experts physical_slots
          num_gpus
        ≡ ok placement)
      × ((e : ℕ) → e < num_experts → Placed num_experts num_gpus placement e)
vllm_initial_placement_one_layer-Placed num_experts physical_slots num_gpus a b c d whole = (
  place_slots k 0 (physical_to_logical num_experts 0 physical_slots) (empty_placement num_experts),
  unfold vllm_initial_placement_one_layer in ground (arith, a, b, c, d, whole),
  λ e h. record {
    ranks = ranks_from num_experts k e 0 physical_slots;
    at_expert =
        place_slots-get_elem? num_experts k e physical_slots 0 (empty_placement num_experts)
          {ranks = []} (empty_placement-get_elem? num_experts e h);
    nonempty =
        ranks_from-some num_experts k some_slots few_slots e 0 physical_slots h (omega arith)
          (omega (arith, h, c));
    distinct = ranks_from-Distinct num_experts k some_slots few_slots e 0 physical_slots;
    existing =
        ranks_from-below num_experts k some_slots few_slots num_gpus e 0 physical_slots
          (omega (arith, filled));
  },
)
  where
    k : ℕ
    k = physical_slots / num_gpus

    filled : num_gpus * (physical_slots / num_gpus) ≡ physical_slots
    filled = omega (arith, div-add-mod physical_slots num_gpus, whole)

    enough : num_gpus ≤ physical_slots
    enough = elim (Bool-cases (ltb physical_slots num_gpus)) [
      | inl l ↦ absurd (
          ground (
            arith,
            a,
            c,
            whole,
            mod-eq_of_lt {n = physical_slots} {m = num_gpus} (ground (arith, l)),
          ))
      | inr l ↦ ground (arith, l)
    ]

    some_slots : 0 < physical_slots / num_gpus
    some_slots =
        (le-div_iff_mul-le {k = num_gpus} {x = 1} {y = physical_slots} b).1 (omega (arith, enough))

    few_slots : physical_slots / num_gpus ≤ num_experts
    few_slots = omega (
      arith,
      (div-lt_iff_lt-mul {k = num_gpus} {x = physical_slots} {y = suc num_experts} b).1
          (omega (arith, d, b, suc-mul num_experts num_gpus)),
    )

-- A configuration that passes the checks gives dimensions that fit, but for divisibility: if the slots
-- are not divisible by the number of ranks, the first placement panics, and else it does not.
pub validate_moe-vllm_initial_placement_one_layer :
    (c : MoeConfig)
    → validate_moe c ≡ ok tt
    → (c.moe_physical_expert_slots % c.moe_expert_parallel_size ≢ 0
        → vllm_initial_placement_one_layer c.moe_num_experts c.moe_physical_expert_slots
            c.moe_expert_parallel_size
          ≡ err slots_not_divisible)
      × (c.moe_physical_expert_slots % c.moe_expert_parallel_size ≡ 0
          → (placement : List (List ℕ)) × (vllm_initial_placement_one_layer c.moe_num_experts
                c.moe_physical_expert_slots c.moe_expert_parallel_size
              ≡ ok placement)
            × ((e : ℕ)
                → e < c.moe_num_experts
                → Placed c.moe_num_experts c.moe_expert_parallel_size placement e))
unfolding validate_moe vllm_initial_placement_one_layer
validate_moe-vllm_initial_placement_one_layer c h = (
  λ odd. ground (arith, h, odd, fits),
  λ even.
      vllm_initial_placement_one_layer-Placed c.moe_num_experts c.moe_physical_expert_slots
        c.moe_expert_parallel_size (omega (arith, fits)) (omega (arith, fits)) (omega (arith, fits))
        (omega (arith, fits)) even,
)
  where
    fits :
        (1 ≤ c.moe_num_experts)
        × (1 ≤ c.moe_expert_parallel_size)
        × (c.moe_num_experts ≤ c.moe_physical_expert_slots)
        × (c.moe_physical_expert_slots ≤ c.moe_num_experts * c.moe_expert_parallel_size)
    fits = unfold validate_moe in ground (arith, h)
