-- ===== src/Moe/Tests.antt =====
-- Placements of pkg/simulator/moe.go at concrete dimensions.
use llm_d_inference_sim.Moe.{
  MoeConfig, validate_moe, vllm_initial_placement_one_layer, place_slots, physical_to_logical,
  logical_of, append_at, empty_placement, slots_not_divisible,
}
use llm_d_inference_sim.Moe.Initial.{
  Placed, vllm_initial_placement_one_layer-Placed, validate_moe-vllm_initial_placement_one_layer,
}
use llm_d_inference_sim.Common.{ℕ, ◌%◌, ◌<◌, ◌≡◌, ◌≢◌, refl, List, [], ◌∷◌, ok, err, arith}

-- Three slots for two experts on two ranks.
abbrev odd_slots : MoeConfig
odd_slots = record {
  moe_expert_parallel_size = 2;
  moe_num_experts = 2;
  moe_physical_expert_slots = 3;
  moe_top_k = 1;
  moe_num_layers = 1;
}

two_ranks_each : vllm_initial_placement_one_layer 2 4 2 ≡ ok ((0 ∷ 1 ∷ []) ∷ (0 ∷ 1 ∷ []) ∷ [])
unfolding vllm_initial_placement_one_layer place_slots physical_to_logical logical_of append_at
    empty_placement
two_ranks_each = refl

vllm_initial_placement_one_layer-Placed_example :
    (placement : List (List ℕ)) × (vllm_initial_placement_one_layer 2 4 2 ≡ ok placement)
    × ((e : ℕ) → e < 2 → Placed 2 2 placement e)
vllm_initial_placement_one_layer-Placed_example =
    vllm_initial_placement_one_layer-Placed 2 4 2 (omega arith) (omega arith) (omega arith)
      (omega arith) refl

validate_moe-vllm_initial_placement_one_layer_example :
    (odd_slots.moe_physical_expert_slots % odd_slots.moe_expert_parallel_size ≢ 0
      → vllm_initial_placement_one_layer odd_slots.moe_num_experts
          odd_slots.moe_physical_expert_slots odd_slots.moe_expert_parallel_size
        ≡ err slots_not_divisible)
    × (odd_slots.moe_physical_expert_slots % odd_slots.moe_expert_parallel_size ≡ 0
        → (placement : List (List ℕ)) × (vllm_initial_placement_one_layer odd_slots.moe_num_experts
              odd_slots.moe_physical_expert_slots odd_slots.moe_expert_parallel_size
            ≡ ok placement)
          × ((e : ℕ)
              → e < odd_slots.moe_num_experts
              → Placed odd_slots.moe_num_experts odd_slots.moe_expert_parallel_size placement e))
unfolding validate_moe
validate_moe-vllm_initial_placement_one_layer_example =
    validate_moe-vllm_initial_placement_one_layer odd_slots refl
