-- ===== src/BlockCache/Evict/Choice.antt =====
-- What pickBlockToEvict (pkg/kvcache/block_cache.go) chooses, and what evicting does to the maps.
use llm_d_inference_sim.BlockCache.{BlockCache, BlockKey, block_key_beq_iff, block_key_comparable}
use llm_d_inference_sim.BlockCache.Evict.{
  Candidates, no_candidates, consider, consider_all, chosen, pick_block_to_evict,
}
use llm_d_inference_sim.Common.Maps.{Map, lookup, has, IsMap}
use llm_d_inference_sim.Common.{
  ℕ, ◌≤◌, ◌<◌, ◌≡◌, refl, Bool, true, false, [], ◌∷◌, none, some, arith, inl, inr, Bool-cases, ◌⊎◌,
  String, string_comparable, nat_comparable,
}

-- The block belongs to a loaded model.
abbrev pub warm : Map String (Unit {0}) → BlockKey → Bool
warm loaded k = has k.model_name loaded

lookup-tail {ℓ} :
    {V : Type ℓ} (i : BlockKey) (w : V) (k : BlockKey) (t : V) (m : Map BlockKey V)
    → lookup i m ≡ none
    → lookup k m ≡ some t
    → lookup k ((i, w) ∷ m) ≡ some t
unfolding lookup
lookup-tail i w k t m d e = ground (arith, block_key_beq_iff i k)

module _ (loaded : Map String (Unit {0})) where
  consider_all-le :
      (b : Candidates) (m : Map BlockKey ℕ)
      → ((consider_all loaded b m).loaded_time ≤ b.loaded_time)
        × ((consider_all loaded b m).unloaded_time ≤ b.unloaded_time)
  unfolding consider_all consider
  consider_all-le b [] = (omega arith, omega arith)
  consider_all-le b ((k, t) ∷ m) = ground (arith, consider_all-le (consider loaded b k t) m)

  -- No block seen is older than the candidate of its kind, and candidates only get older.
  consider_all-oldest :
      (b : Candidates) (m : Map BlockKey ℕ) (k : BlockKey) (t : ℕ)
      → lookup k m ≡ some t
      → (warm loaded k ≡ true → (consider_all loaded b m).loaded_time ≤ t)
        × (warm loaded k ≡ false → (consider_all loaded b m).unloaded_time ≤ t)
  unfolding lookup consider_all consider
  consider_all-oldest b [] k t e = cc
  consider_all-oldest b ((i, w) ∷ m) k t e = ground (
    arith,
    consider_all-oldest (consider loaded b i w) m k t,
    consider_all-le (consider loaded b i w) m,
    block_key_beq_iff i k,
  )

  -- The candidate for the loaded models is a block seen, or still the first one.
  consider_all-warm :
      (b : Candidates) (m : Map BlockKey ℕ)
      → IsMap m
      → let r = consider_all loaded b m in
        ((r.loaded_hash ≡ b.loaded_hash) × (r.loaded_time ≡ b.loaded_time))
        ⊎ ((lookup r.loaded_hash m ≡ some r.loaded_time) × (warm loaded r.loaded_hash ≡ true))
  unfolding lookup consider_all consider
  consider_all-warm b [] d = inl (refl, refl)
  consider_all-warm b ((i, w) ∷ m) d = ground (
    arith,
    consider_all-warm (consider loaded b i w) m d.1,
    block_key_beq_iff i (consider_all loaded (consider loaded b i w) m).loaded_hash,
  )

  consider_all-cold :
      (b : Candidates) (m : Map BlockKey ℕ)
      → IsMap m
      → let r = consider_all loaded b m in
        ((r.unloaded_hash ≡ b.unloaded_hash)
          × (r.unloaded_time ≡ b.unloaded_time)
          × (r.has_unloaded_candidate ≡ b.has_unloaded_candidate))
        ⊎ ((lookup r.unloaded_hash m ≡ some r.unloaded_time)
            × (warm loaded r.unloaded_hash ≡ false)
            × (r.has_unloaded_candidate ≡ true))
  unfolding lookup consider_all consider
  consider_all-cold b [] d = inl (refl, refl, refl)
  consider_all-cold b ((i, w) ∷ m) d = ground (
    arith,
    consider_all-cold (consider loaded b i w) m d.1,
    block_key_beq_iff i (consider_all loaded (consider loaded b i w) m).unloaded_hash,
  )

-- A block that may be evicted: stored at time `t`, a block of an unloaded model if there is one, and
-- the oldest of its kind.
pub record Victim (c : BlockCache) (p : BlockKey) (t : ℕ) : Type 0 where
  pub stored : lookup p c.unused_blocks ≡ some t
  pub cold_first :
      warm c.loaded_models p ≡ true
      → (k : BlockKey) (u : ℕ) → lookup k c.unused_blocks ≡ some u
      → warm c.loaded_models k ≡ true
  pub oldest :
      (k : BlockKey) (u : ℕ)
      → lookup k c.unused_blocks ≡ some u
      → warm c.loaded_models k ≡ warm c.loaded_models p
      → t ≤ u

-- Every unused block was last used before `now`.
abbrev pub Before : BlockCache → ℕ → Type 0
Before c now = (k : BlockKey) (t : ℕ) → lookup k c.unused_blocks ≡ some t → t < now

module _ (c : BlockCache) (now : ℕ) (d : IsMap c.unused_blocks) (past : Before c now) where
  -- The loop's final candidates.
  final : Candidates
  final = consider_all c.loaded_models (no_candidates now) c.unused_blocks

  picked_cold :
      final.has_unloaded_candidate ≡ true → Victim c (pick_block_to_evict c now) final.unloaded_time
  unfolding final pick_block_to_evict chosen
  picked_cold f = record {
    stored =
        ground (arith, consider_all-cold c.loaded_models (no_candidates now) c.unused_blocks d);
    cold_first = λ w k u e.
        ground (arith, consider_all-cold c.loaded_models (no_candidates now) c.unused_blocks d);
    oldest = λ k u e w. ground (
      arith,
      consider_all-cold c.loaded_models (no_candidates now) c.unused_blocks d,
      consider_all-oldest c.loaded_models (no_candidates now) c.unused_blocks k u e,
    );
  }

  picked_warm :
      (q : BlockKey) (s : ℕ)
      → lookup q c.unused_blocks ≡ some s
      → final.has_unloaded_candidate ≡ false
      → Victim c (pick_block_to_evict c now) final.loaded_time
  unfolding final pick_block_to_evict chosen
  picked_warm q s e f = record {
    stored = ground (arith, facts q s e);
    cold_first = λ w k u e'. ground (arith, facts k u e');
    oldest = λ k u e' w. ground (arith, facts k u e', facts q s e);
  }
    where
      facts :
          (k : BlockKey) (u : ℕ)
          → lookup k c.unused_blocks ≡ some u
          → (warm c.loaded_models k ≡ true)
            × (final.loaded_time ≤ u)
            × (lookup final.loaded_hash c.unused_blocks ≡ some final.loaded_time)
            × (warm c.loaded_models final.loaded_hash ≡ true)
      facts k u e' = ground (
        arith,
        past k u e',
        consider_all-warm c.loaded_models (no_candidates now) c.unused_blocks d,
        consider_all-cold c.loaded_models (no_candidates now) c.unused_blocks d,
        consider_all-oldest c.loaded_models (no_candidates now) c.unused_blocks k u e',
      )

  -- If some block is unused and every unused block was last used before `now`, the choice is an unused
  -- block, one of an unloaded model if there is one, and the oldest of its kind.
  pub pick_block_to_evict-Victim :
      (q : BlockKey) (s : ℕ)
      → lookup q c.unused_blocks ≡ some s
      → (t : ℕ) × Victim c (pick_block_to_evict c now) t
  pick_block_to_evict-Victim q s e = elim (Bool-cases final.has_unloaded_candidate) [
    | inl f ↦ (final.unloaded_time, picked_cold f)
    | inr f ↦ (final.loaded_time, picked_warm q s e f)
  ]
