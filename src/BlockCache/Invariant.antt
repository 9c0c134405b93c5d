-- ===== src/BlockCache/Invariant.antt =====
-- The maps of pkg/kvcache/block_cache.go against the references that requests hold.
use llm_d_inference_sim.BlockCache.{BlockCache, BlockKey, block_key_comparable, report_usage}
use llm_d_inference_sim.Common.Maps.{Map, lookup, insert, erase, has, IsMap}
use llm_d_inference_sim.Common.{
  ℕ, zero, suc, ◌+◌, ◌≤◌, ◌≡◌, refl, true, ◌||◌, List, [], ◌∷◌, Option, none, some, ltb, length,
  if◌then◌else◌, ◌==◌, arith, count, String, string_comparable,
}

-- The entry of `usedBlocks` for a number of references: none for 0.
abbrev pub entry : ℕ → Option ℕ
entry zero = none
entry (suc n) = some (suc n)

-- One more reference to a block.
abbrev pub bump : BlockKey → (BlockKey → ℕ) → BlockKey → ℕ
bump k r j = (if k == j then 1 else 0) + r j

-- The maps agree with the number of references `r k` to each block `k`.
pub record Core (r : BlockKey → ℕ) (c : BlockCache) : Type 0 where
  pub used_map : IsMap c.used_blocks
  pub unused_map : IsMap c.unused_blocks
  pub tokens_map : IsMap c.block_to_tokens
  pub counted : (k : BlockKey) → lookup k c.used_blocks ≡ entry (r k)
  pub apart : (k : BlockKey) → has k c.unused_blocks ≡ true → r k ≡ 0
  pub backed : (k : BlockKey) → has k c.block_to_tokens ≡ (ltb 0 (r k) || has k c.unused_blocks)
  pub bounded : length c.used_blocks + length c.unused_blocks ≤ c.max_blocks

-- `r` with one more reference for each occurrence in `ks`.
abbrev pub plus : List BlockKey → (BlockKey → ℕ) → BlockKey → ℕ
plus [] r = r
plus (k ∷ ks) r = plus ks (bump k r)

pub plus-count :
    (ks : List BlockKey) (r : BlockKey → ℕ) (j : BlockKey) → plus ks r j ≡ count j ks + r j
plus-count [] r j = omega arith
plus-count (k ∷ ks) r j = omega (arith, plus-count ks (bump k r) j)

-- The references that the running requests hold to a block.
abbrev pub refs : Map String (List BlockKey) → BlockKey → ℕ
refs [] j = 0
refs ((id, ks) ∷ m) j = count j ks + refs m j

-- The invariant of the cache between calls.
pub record Inv (c : BlockCache) : Type 0 where
  pub core : Core (refs c.request_to_blocks) c
  pub requests_map : IsMap c.request_to_blocks

pub refs-insert :
    (id : String) (ks : List BlockKey) (m : Map String (List BlockKey)) (j : BlockKey)
    → lookup id m ≡ none
    → refs (insert id ks m) j ≡ count j ks + refs m j
unfolding lookup insert
refs-insert id ks [] j h = refl
refs-insert id ks ((i, l) ∷ m) j h = ground (arith, refs-insert id ks m j)

pub refs-erase :
    (id : String) {ks : List BlockKey} (m : Map String (List BlockKey)) (j : BlockKey)
    → lookup id m ≡ some ks
    → count j ks + refs (erase id m) j ≡ refs m j
unfolding lookup erase
refs-erase id [] j h = cc
refs-erase id {ks} ((i, l) ∷ m) j h = ground (arith, refs-erase id {ks = ks} m j)

-- A call on the channels leaves the maps alone.
pub record SameMaps (c c' : BlockCache) : Type 0 where
  pub used_same : c'.used_blocks ≡ c.used_blocks
  pub unused_same : c'.unused_blocks ≡ c.unused_blocks
  pub tokens_same : c'.block_to_tokens ≡ c.block_to_tokens
  pub requests_same : c'.request_to_blocks ≡ c.request_to_blocks
  pub max_same : c'.max_blocks ≡ c.max_blocks
  pub disabled_same : c'.disabled ≡ c.disabled

pub report_usage-SameMaps : (c : BlockCache) → SameMaps c (report_usage c)
unfolding report_usage
report_usage-SameMaps c = ground arith

-- `Core` reads the maps and the limit alone, and the references pointwise.
pub Core-transfer :
    {r r' : BlockKey → ℕ} {c c' : BlockCache}
    → ((k : BlockKey) → r k ≡ r' k)
    → c'.used_blocks ≡ c.used_blocks
    → c'.unused_blocks ≡ c.unused_blocks
    → c'.block_to_tokens ≡ c.block_to_tokens
    → c'.max_blocks ≡ c.max_blocks
    → Core r c
    → Core r' c'
Core-transfer same u f t m h = record {
  used_map = rw u h.used_map;
  unused_map = rw f h.unused_map;
  tokens_map = rw t h.tokens_map;
  counted = λ k. rw (u, ← same k) (h.counted k);
  apart = λ k q. ground (arith, same k, h.apart k);
  backed = λ k. rw (f, t, ← same k) (h.backed k);
  bounded = ground (arith, h.bounded);
}
