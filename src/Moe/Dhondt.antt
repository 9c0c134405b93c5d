-- ===== src/Moe/Dhondt.antt =====
-- The number of replicas of each expert: the first half of dhondtPlaceOneLayer of
-- pkg/simulator/moe.go. The float64 score of a load and its comparison are parameters.
pub mod Replicas
mod Tests
use llm_d_inference_sim.Common.{
  ℕ, zero, suc, ◌+◌, ◌-◌, ◌*◌, ◌%◌, Bool, true, false, not, List, [], ◌∷◌, Option, none, some, leb,
  ltb, length, if◌then◌else◌, ◌==◌, nat_comparable, Result, ok, err,
}

-- The messages of the panics.
pub data DhondtPanic : Type 0 where
  slots_below_experts slots_not_divisible slots_exceed_replicas unable_to_allocate : DhondtPanic

abbrev pub ones : ℕ → List ℕ
ones zero = []
ones (suc n) = 1 ∷ ones n

-- replicaCount[expert]++
unfoldable pub increment_at : ℕ → List ℕ → List ℕ
increment_at i [] = []
increment_at zero (n ∷ ns) = suc n ∷ ns
increment_at (suc i) (n ∷ ns) = n ∷ increment_at i ns

module _ {Load Score : Type 0} (score : Load → ℕ → Score) (greater : Score → Score → Bool) where
  -- The best expert so far and another one, which an equal score does not replace.
  abbrev pub better : Option (ℕ × Score) → ℕ → Score → Option (ℕ × Score)
  better none expert s = some (expert, s)
  better (some (best, t)) expert s = if greater s t then some (expert, s) else some (best, t)

  -- The inner loop, from expert `expert` on.
  unfoldable pub best_expert : ℕ → ℕ → List Load → List ℕ → Option (ℕ × Score) → Option (ℕ × Score)
  best_expert num_gpus expert [] counts best = best
  best_expert num_gpus expert (load ∷ loads) [] best = best
  best_expert num_gpus expert (load ∷ loads) (n ∷ ns) best =
      best_expert num_gpus (suc expert) loads ns
        (if leb num_gpus n then best else better best expert (score load (n + 1)))

  -- The outer loop.
  unfoldable pub allocate : ℕ → List Load → ℕ → List ℕ → Result DhondtPanic (List ℕ)
  allocate num_gpus loads zero counts = ok counts
  allocate num_gpus loads (suc remaining) counts = elim (best_expert num_gpus 0 loads counts none) [
    | none ↦ err unable_to_allocate
    | some (expert, s) ↦ allocate num_gpus loads remaining (increment_at expert counts)
  ]

  unfoldable pub dhondt_replica_counts : List Load → ℕ → ℕ → Result DhondtPanic (List ℕ)
  dhondt_replica_counts loads physical_slots num_gpus =
      if ltb physical_slots (length loads)
      then err slots_below_experts
      else if not (physical_slots % num_gpus == 0)
      then err slots_not_divisible
      else if ltb (length loads * num_gpus) physical_slots
      then err slots_exceed_replicas
      else allocate num_gpus loads (physical_slots - length loads) (ones (length loads))
