-- ===== src/Moe/Dhondt/Tests.antt =====
-- Replica counts of pkg/simulator/moe.go at concrete loads.
use llm_d_inference_sim.Moe.Dhondt.{dhondt_replica_counts, allocate, best_expert, increment_at}
use llm_d_inference_sim.Moe.Dhondt.Replicas.{dhondt_replica_counts-total, IsAllowed}
use llm_d_inference_sim.Common.{
  sum, ℕ, ◌/◌, ◌≡◌, refl, Bool, List, [], ◌∷◌, ok, ltb, length, All, arith,
}

-- Natural scores, compared as the float64 ones are.
abbrev score : ℕ → ℕ → ℕ
score load n = load / n

abbrev greater : ℕ → ℕ → Bool
greater a b = ltb b a

busy_first : dhondt_replica_counts score greater (60 ∷ 20 ∷ []) 4 4 ≡ ok (3 ∷ 1 ∷ [])
unfolding dhondt_replica_counts allocate best_expert increment_at
busy_first = refl

dhondt_replica_counts-total_example :
    (counts : List ℕ) × (dhondt_replica_counts score greater (60 ∷ 20 ∷ []) 4 4 ≡ ok counts)
    × (length counts ≡ 2)
    × All (IsAllowed 4) counts
    × (sum counts ≡ 4)
dhondt_replica_counts-total_example =
    dhondt_replica_counts-total score greater (60 ∷ 20 ∷ []) 4 4 (omega arith) (omega arith)
      (omega arith) refl
