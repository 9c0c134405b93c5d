-- ===== src/BlockCache/Start/Steps.antt =====
-- What each change of one block in startRequest (pkg/kvcache/block_cache.go) does to the maps.
use llm_d_inference_sim.BlockCache.{BlockCache, BlockKey, block_key_beq_iff, block_key_comparable}
use llm_d_inference_sim.BlockCache.Invariant.{Core, entry, bump}
use llm_d_inference_sim.BlockCache.Start.{reuse, revive, commit}
use llm_d_inference_sim.Common.Maps.{
  Map, lookup, has, get_or, lookup-insert, lookup-erase, insert-IsMap, erase-IsMap,
  length-insert_new, length-insert_old, length-erase,
}
use llm_d_inference_sim.Common.{
  ℕ, ◌+◌, ◌<◌, ◌≡◌, ◌≢◌, true, false, List, some, length, arith, inl, inr, Option-cases,
}

-- A key that passes the comma-ok test has a value.
pub has-lookup {ℓ} :
    {V : Type ℓ} (k : BlockKey) (m : Map BlockKey V)
    → has k m ≡ true
    → (v : V) × (lookup k m ≡ some v)
has-lookup k m h = elim (Option-cases (lookup k m)) [
  | inl e ↦ absurd (ground (arith, e))
  | inr p ↦ p
]

module _ {r : BlockKey → ℕ} {c : BlockCache} (k : BlockKey) (h : Core r c) where
  pub reuse-Core : r k ≢ 0 → Core (bump k r) (reuse c k)
  unfolding reuse
  reuse-Core p = record {
    used_map = insert-IsMap k _ c.used_blocks h.used_map;
    unused_map = h.unused_map;
    tokens_map = h.tokens_map;
    counted = λ j. ground (
      arith,
      h.counted k,
      h.counted j,
      block_key_beq_iff k j,
      lookup-insert k j (get_or k 0 c.used_blocks + 1) c.used_blocks,
    );
    apart = λ j q. ground (arith, h.apart j, block_key_beq_iff k j);
    backed = λ j. ground (arith, h.backed j, block_key_beq_iff k j);
    bounded =
        let q : lookup k c.used_blocks ≡ entry (r k) = h.counted k in
        ground (
          arith,
          h.bounded,
          length-insert_old k (get_or k 0 c.used_blocks + 1) {w = r k} c.used_blocks,
        );
  }

  pub revive-Core : has k c.unused_blocks ≡ true → Core (bump k r) (revive c k)
  unfolding revive
  revive-Core p = record {
    used_map = insert-IsMap k 1 c.used_blocks h.used_map;
    unused_map = erase-IsMap k c.unused_blocks h.unused_map;
    tokens_map = h.tokens_map;
    counted = λ j.
        ground (
          arith,
          h.counted j,
          h.apart k p,
          block_key_beq_iff k j,
          lookup-insert k j 1 c.used_blocks,
        );
    apart = λ j q.
        ground
          (arith, h.apart j, block_key_beq_iff k j, lookup-erase k j c.unused_blocks h.unused_map);
    backed = λ j.
        ground
          (arith, h.backed j, block_key_beq_iff k j, lookup-erase k j c.unused_blocks h.unused_map);
    bounded =
        let (t, e) = has-lookup k c.unused_blocks p in
        ground (
          arith,
          h.bounded,
          h.counted k,
          h.apart k p,
          length-insert_new k 1 c.used_blocks,
          length-erase k c.unused_blocks e,
        );
  }

  pub commit-Core :
      (ts : List ℕ)
      → r k ≡ 0
      → has k c.unused_blocks ≡ false
      → length c.used_blocks + length c.unused_blocks < c.max_blocks
      → Core (bump k r) (commit c k ts)
  unfolding commit
  commit-Core ts p q room = record {
    used_map = insert-IsMap k 1 c.used_blocks h.used_map;
    unused_map = h.unused_map;
    tokens_map = insert-IsMap k ts c.block_to_tokens h.tokens_map;
    counted =
        λ j. ground (arith, h.counted j, block_key_beq_iff k j, lookup-insert k j 1 c.used_blocks);
    apart = λ j x. ground (arith, h.apart j, block_key_beq_iff k j);
    backed = λ j.
        ground (arith, h.backed j, block_key_beq_iff k j, lookup-insert k j ts c.block_to_tokens);
    bounded = ground (arith, h.counted k, length-insert_new k 1 c.used_blocks);
  }
