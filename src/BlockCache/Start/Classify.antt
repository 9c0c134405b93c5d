-- ===== src/BlockCache/Start/Classify.antt =====
-- The first loop of startRequest (pkg/kvcache/block_cache.go) divides the blocks into three lists.
use llm_d_inference_sim.BlockCache.{
  BlockCache, BlockKey, block_key_beq_iff, block_key_comparable, key_of, cached,
}
use llm_d_inference_sim.BlockCache.Start.{Classified, classify}
use llm_d_inference_sim.Common.Maps.{has}
use llm_d_inference_sim.Common.{
  ℕ, suc, ◌+◌, ◌<◌, ◌≡◌, refl, true, false, List, [], ◌∷◌, map, if◌then◌else◌, arith, count, String,
  length,
}

-- The keys of the blocks to add.
abbrev pub added : Classified → List BlockKey
added cl = map (λ b. b.key) cl.blocks_to_add

module _ (c : BlockCache) (model : String) where
  -- Every block goes to one of the lists.
  pub classify-count :
      (i : ℕ) (hs : List ℕ) (j : BlockKey)
      → let cl = classify c model i hs in
        count j cl.block_already_in_use + count j cl.block_to_move_to_used + count j (added cl)
        ≡ count j (map (key_of model) hs)
  unfolding classify
  classify-count i [] j = refl
  classify-count i (h ∷ hs) j = ground (arith, classify-count (suc i) hs j)

  -- The lists hold blocks in use, unused blocks and blocks that are not cached.
  pub classify-kinds :
      (i : ℕ) (hs : List ℕ) (j : BlockKey)
      → let cl = classify c model i hs in
        (0 < count j cl.block_already_in_use → has j c.used_blocks ≡ true)
        × (0 < count j cl.block_to_move_to_used → has j c.unused_blocks ≡ true)
        × (0 < count j (added cl) → (has j c.used_blocks ≡ false) × (has j c.unused_blocks ≡ false))
  unfolding classify
  classify-kinds i [] j =
      (λ p. absurd (omega arith), λ p. absurd (omega arith), λ p. absurd (omega arith))
  classify-kinds i (h ∷ hs) j =
      ground (arith, classify-kinds (suc i) hs j, block_key_beq_iff (key_of model h) j)

-- How many of the blocks are cached.
abbrev pub cached_total : BlockCache → String → List ℕ → ℕ
cached_total c model [] = 0
cached_total c model (h ∷ hs) =
    (if cached c (key_of model h) then 1 else 0) + cached_total c model hs

pub classify-total :
    (c : BlockCache) (model : String) (i : ℕ) (hs : List ℕ)
    → let cl = classify c model i hs in
      length cl.block_already_in_use + length cl.block_to_move_to_used ≡ cached_total c model hs
unfolding classify cached
classify-total c model i [] = refl
classify-total c model i (h ∷ hs) = ground (arith, classify-total c model (suc i) hs)
