-- ===== src/BlockCache/Evict/Room.antt =====
-- What evicting for a new block (startRequest, pkg/kvcache/block_cache.go) does to the maps.
use llm_d_inference_sim.BlockCache.{
  BlockCache, BlockKey, block_key_beq_iff, block_key_comparable, emit, plain_event,
  event_action_remove,
}
use llm_d_inference_sim.BlockCache.Invariant.{Core}
use llm_d_inference_sim.BlockCache.Evict.{pick_block_to_evict, make_room}
use llm_d_inference_sim.BlockCache.Evict.Choice.{Before, pick_block_to_evict-Victim}
use llm_d_inference_sim.Common.Maps.{
  Map, lookup, erase, get_or, lookup-erase, erase-IsMap, length-erase,
}
use llm_d_inference_sim.Common.{
  ℕ, ◌+◌, ◌<◌, ◌≡◌, refl, Bool, [], ◌∷◌, some, length, if◌then◌else◌, ◌==◌, arith, inl, inr,
  Bool-cases, nat_comparable, beq_refl,
}

some_entry : (m : Map BlockKey ℕ) → 0 < length m → (k : BlockKey) × (v : ℕ) × (lookup k m ≡ some v)
unfolding lookup
some_entry [] h = absurd (omega arith)
some_entry ((k, v) ∷ m) h = (k, v, rw (beq_refl k))

-- The cache after the eviction of `k`.
evict : BlockCache → BlockKey → BlockCache
unfolding emit plain_event
evict c k =
    record (emit (record c { unused_blocks = erase k c.unused_blocks })
      (plain_event event_action_remove (k.hash ∷ []) (get_or k [] c.block_to_tokens))) {
        block_to_tokens = erase k c.block_to_tokens;
      }

make_room-evict :
    (c : BlockCache) (now : ℕ)
    → make_room c now ≡ (
        if length c.used_blocks + length c.unused_blocks == c.max_blocks
        then evict c (pick_block_to_evict c now)
        else c)
unfolding make_room evict
make_room-evict c now = refl

evict-Core :
    {r : BlockKey → ℕ} (c : BlockCache) (k : BlockKey) {t : ℕ}
    → Core r c
    → lookup k c.unused_blocks ≡ some t
    → Core r (evict c k)
unfolding evict
evict-Core c k h e = record {
  used_map = h.used_map;
  unused_map = erase-IsMap k c.unused_blocks h.unused_map;
  tokens_map = erase-IsMap k c.block_to_tokens h.tokens_map;
  counted = h.counted;
  apart = λ j q. ground (arith, h.apart j, lookup-erase k j c.unused_blocks h.unused_map);
  backed = λ j. ground (
    arith,
    h.backed j,
    h.apart k,
    block_key_beq_iff k j,
    lookup-erase k j c.unused_blocks h.unused_map,
    lookup-erase k j c.block_to_tokens h.tokens_map,
  );
  bounded = omega (arith, h.bounded, length-erase k c.unused_blocks e);
}

-- Making room keeps the maps in agreement and leaves a free slot; it only drops unused blocks.
pub record Roomy (r : BlockKey → ℕ) (c c' : BlockCache) : Type 0 where
  pub core : Core r c'
  pub used_same : c'.used_blocks ≡ c.used_blocks
  pub requests_same : c'.request_to_blocks ≡ c.request_to_blocks
  pub max_same : c'.max_blocks ≡ c.max_blocks
  pub disabled_same : c'.disabled ≡ c.disabled
  pub free_slot : length c'.used_blocks + length c'.unused_blocks < c'.max_blocks
  pub fewer :
      (k : BlockKey) (t : ℕ)
      → lookup k c'.unused_blocks ≡ some t
      → lookup k c.unused_blocks ≡ some t

evict-Roomy :
    {r : BlockKey → ℕ} (c : BlockCache) (k : BlockKey) {t : ℕ}
    → Core r c
    → lookup k c.unused_blocks ≡ some t
    → Roomy r c (evict c k)
unfolding evict
evict-Roomy c k h e = record {
  core = evict-Core c k h e;
  used_same = refl;
  requests_same = refl;
  max_same = refl;
  disabled_same = refl;
  free_slot = omega (arith, h.bounded, length-erase k c.unused_blocks e);
  fewer = λ j t q. ground (arith, lookup-erase k j c.unused_blocks h.unused_map);
}

pub make_room-Roomy :
    {r : BlockKey → ℕ} (c : BlockCache) (now : ℕ)
    → Core r c
    → Before c now
    → length c.used_blocks < c.max_blocks
    → Roomy r c (make_room c now)
make_room-Roomy {r} c now h past room = rw (make_room-evict c now) (elim (Bool-cases full) [
  | inl f ↦
      let (q, s, e) = some_entry c.unused_blocks (ground arith) in
      let (t, v) = pick_block_to_evict-Victim c now h.unused_map past q s e in
      rw f (evict-Roomy c (pick_block_to_evict c now) h v.stored)
  | inr f ↦ rw f (record {
    core = h;
    used_same = refl;
    requests_same = refl;
    max_same = refl;
    disabled_same = refl;
    free_slot = ground (arith, h.bounded);
    fewer = λ k t e. e;
  })
])
  where
    full : Bool
    full = length c.used_blocks + length c.unused_blocks == c.max_blocks
