-- ===== src/Moe.antt =====
-- The first placement of the experts: vllmInitialPlacementOneLayer of pkg/simulator/moe.go, and the
-- checks of its dimensions in validate of pkg/common/config.go.
pub mod Initial
pub mod Dhondt
mod Tests
use llm_d_inference_sim.Common.{
  ℕ, zero, suc, ◌+◌, ◌-◌, ◌*◌, ◌/◌, ◌%◌, Bool, true, false, not, ◌||◌, List, [], ◌∷◌, ◌++◌, ltb,
  if◌then◌else◌, ◌==◌, nat_comparable, Result, ok, err,
}

-- The messages of the panics.
pub data PlacementPanic : Type 0 where
  invalid_dimensions slots_not_divisible slots_exceed_replicas : PlacementPanic

-- The expert in a physical slot, by the two loops that fill physicalToLogical.
unfoldable pub logical_of : ℕ → ℕ → ℕ
logical_of num_experts slot =
    if ltb slot num_experts then slot else (slot - num_experts) % num_experts

-- physicalToLogical from slot `slot` on, for `n` slots.
unfoldable pub physical_to_logical : ℕ → ℕ → ℕ → List ℕ
physical_to_logical num_experts slot zero = []
physical_to_logical num_experts slot (suc n) =
    logical_of num_experts slot ∷ physical_to_logical num_experts (suc slot) n

-- placement[expert] = append(placement[expert], rank)
unfoldable pub append_at : ℕ → ℕ → List (List ℕ) → List (List ℕ)
append_at expert rank [] = []
append_at zero rank (ranks ∷ placement) = (ranks ++ rank ∷ []) ∷ placement
append_at (suc expert) rank (ranks ∷ placement) = ranks ∷ append_at expert rank placement

-- The last loop, from slot `slot` on.
unfoldable pub place_slots : ℕ → ℕ → List ℕ → List (List ℕ) → List (List ℕ)
place_slots slots_per_rank slot [] placement = placement
place_slots slots_per_rank slot (expert ∷ experts) placement =
    place_slots slots_per_rank (suc slot) experts
      (append_at expert (slot / slots_per_rank) placement)

unfoldable pub empty_placement : ℕ → List (List ℕ)
empty_placement zero = []
empty_placement (suc n) = [] ∷ empty_placement n

unfoldable pub vllm_initial_placement_one_layer : ℕ → ℕ → ℕ → Result PlacementPanic (List (List ℕ))
vllm_initial_placement_one_layer num_experts physical_slots num_gpus =
    if ltb num_experts 1 || ltb physical_slots num_experts || ltb num_gpus 1
    then err invalid_dimensions
    else if not (physical_slots % num_gpus == 0)
    then err slots_not_divisible
    else if ltb (num_experts * num_gpus) physical_slots
    then err slots_exceed_replicas
    else ok (
        place_slots (physical_slots / num_gpus) 0 (physical_to_logical num_experts 0 physical_slots)
          (empty_placement num_experts))

-- The fields of the configuration that give the dimensions.
pub record MoeConfig : Type 0 where
  pub moe_expert_parallel_size : ℕ
  pub moe_num_experts : ℕ
  pub moe_physical_expert_slots : ℕ
  pub moe_top_k : ℕ
  pub moe_num_layers : ℕ

pub data MoeError : Type 0 where
  parallel_size_below_one experts_below_one slots_below_experts slots_above_replicas
        top_k_out_of_range layers_below_one :
      MoeError

-- The first six checks for an enabled MoE.
unfoldable pub validate_moe : MoeConfig → Result MoeError (Unit {0})
validate_moe c =
    if ltb c.moe_expert_parallel_size 1
    then err parallel_size_below_one
    else if ltb c.moe_num_experts 1
    then err experts_below_one
    else if ltb c.moe_physical_expert_slots c.moe_num_experts
    then err slots_below_experts
    else if ltb (c.moe_num_experts * c.moe_expert_parallel_size) c.moe_physical_expert_slots
    then err slots_above_replicas
    else if ltb c.moe_top_k 1 || ltb c.moe_num_experts c.moe_top_k
    then err top_k_out_of_range
    else if ltb c.moe_num_layers 1
    then err layers_below_one
    else ok tt
