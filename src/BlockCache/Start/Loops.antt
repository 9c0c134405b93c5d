-- ===== src/BlockCache/Start/Loops.antt =====
-- The three loops of startRequest (pkg/kvcache/block_cache.go) that change the maps.
use llm_d_inference_sim.BlockCache.{BlockCache, BlockKey, block_key_beq_iff, block_key_comparable}
use llm_d_inference_sim.BlockCache.Invariant.{Core, bump, plus}
use llm_d_inference_sim.BlockCache.Evict.{make_room}
use llm_d_inference_sim.BlockCache.Evict.Choice.{Before}
use llm_d_inference_sim.BlockCache.Evict.Room.{make_room-Roomy}
use llm_d_inference_sim.BlockCache.Start.{
  NewBlock, Adding, reuse, reuse_all, revive, revive_all, commit, nth_tokens, add_block, add_blocks,
}
use llm_d_inference_sim.BlockCache.Start.Steps.{reuse-Core, revive-Core, commit-Core, has-lookup}
use llm_d_inference_sim.Common.Maps.{
  Map, lookup, has, get_or, lookup-erase, length-insert_new, length-insert_old,
}
use llm_d_inference_sim.Common.{
  ℕ, ◌+◌, ◌≤◌, ◌<◌, ◌≡◌, ◌≢◌, refl, ap, ◌∙◌, true, false, List, [], ◌∷◌, map, some, length, arith,
  inl, inr, Bool-cases, count, beq_refl,
}

-- From `c` the maps have grown to `c'`: `n` blocks more are in use, `r` became `r'`, and no block
-- became unused.
pub record Grown (r' : BlockKey → ℕ) (n : ℕ) (c c' : BlockCache) : Type 0 where
  pub core : Core r' c'
  pub more_used : length c'.used_blocks ≡ n + length c.used_blocks
  pub requests_same : c'.request_to_blocks ≡ c.request_to_blocks
  pub max_same : c'.max_blocks ≡ c.max_blocks
  pub disabled_same : c'.disabled ≡ c.disabled
  pub fewer :
      (k : BlockKey) (t : ℕ)
      → lookup k c'.unused_blocks ≡ some t
      → lookup k c.unused_blocks ≡ some t

pub Grown-trans :
    {r r' : BlockKey → ℕ} {l m n : ℕ} {a b c : BlockCache}
    → l ≡ m + n
    → Grown r m a b
    → Grown r' n b c
    → Grown r' l a c
Grown-trans e f g = record {
  core = g.core;
  more_used = omega (arith, f.more_used, g.more_used);
  requests_same = g.requests_same ∙ f.requests_same;
  max_same = g.max_same ∙ f.max_same;
  disabled_same = g.disabled_same ∙ f.disabled_same;
  fewer = λ k t e. f.fewer k t (g.fewer k t e);
}

Grown-refl : {r : BlockKey → ℕ} {c : BlockCache} → Core r c → Grown r 0 c c
Grown-refl h = record {
  core = h;
  more_used = omega arith;
  requests_same = refl;
  max_same = refl;
  disabled_same = refl;
  fewer = λ k t e. e;
}

module _ {r : BlockKey → ℕ} {c : BlockCache} (k : BlockKey) (h : Core r c) where
  reuse-Grown : r k ≢ 0 → Grown (bump k r) 0 c (reuse c k)
  unfolding reuse
  reuse-Grown p = record {
    core = reuse-Core k h p;
    more_used = ground (
      arith,
      h.counted k,
      length-insert_old k (get_or k 0 c.used_blocks + 1) {w = r k} c.used_blocks,
    );
    requests_same = refl;
    max_same = refl;
    disabled_same = refl;
    fewer = λ j t e. e;
  }

  revive-Grown : has k c.unused_blocks ≡ true → Grown (bump k r) 1 c (revive c k)
  unfolding revive
  revive-Grown p = record {
    core = revive-Core k h p;
    more_used = ground (arith, h.counted k, h.apart k p, length-insert_new k 1 c.used_blocks);
    requests_same = refl;
    max_same = refl;
    disabled_same = refl;
    fewer = λ j t e. ground (arith, lookup-erase k j c.unused_blocks h.unused_map);
  }

  commit-Grown :
      (ts : List ℕ)
      → r k ≡ 0
      → has k c.unused_blocks ≡ false
      → length c.used_blocks + length c.unused_blocks < c.max_blocks
      → Grown (bump k r) 1 c (commit c k ts)
  unfolding commit
  commit-Grown ts p q room = record {
    core = commit-Core k h ts p q room;
    more_used = ground (arith, h.counted k, length-insert_new k 1 c.used_blocks);
    requests_same = refl;
    max_same = refl;
    disabled_same = refl;
    fewer = λ j t e. e;
  }

pub reuse_all-Grown :
    (ks : List BlockKey) {r : BlockKey → ℕ} {c : BlockCache}
    → Core r c
    → ((j : BlockKey) → 0 < count j ks → r j ≢ 0)
    → Grown (plus ks r) 0 c (reuse_all c ks)
unfolding reuse_all
reuse_all-Grown [] h p = Grown-refl h
reuse_all-Grown (k ∷ ks) {r} h p =
    let first = reuse-Grown k h (p k (ground (arith, beq_refl k))) in
    Grown-trans (omega arith) first (reuse_all-Grown ks first.core (λ j q. ground (arith, p j)))

pub reuse_all-unused :
    (ks : List BlockKey) (c : BlockCache) → (reuse_all c ks).unused_blocks ≡ c.unused_blocks
unfolding reuse_all reuse
reuse_all-unused [] c = refl
reuse_all-unused (k ∷ ks) c = reuse_all-unused ks (reuse c k)

pub revive_all-Grown :
    (ks : List BlockKey) {r : BlockKey → ℕ} {c : BlockCache}
    → Core r c
    → ((j : BlockKey) → count j ks ≤ 1)
    → ((j : BlockKey) → 0 < count j ks → has j c.unused_blocks ≡ true)
    → Grown (plus ks r) (length ks) c (revive_all c ks)
unfolding revive_all
revive_all-Grown [] h d p = Grown-refl h
revive_all-Grown (k ∷ ks) {r} {c} h d p =
    let first = revive-Grown k h (p k (ground (arith, beq_refl k))) in
    Grown-trans (omega arith) first (
      revive_all-Grown ks first.core (λ j. ground (arith, d j))
        (λ j q.
          unfold revive in
          ground (
            arith,
            p j,
            d j,
            block_key_beq_iff k j,
            lookup-erase k j c.unused_blocks h.unused_map,
          )))

pub absent :
    (m m' : Map BlockKey ℕ) (k : BlockKey)
    → ((j : BlockKey) (t : ℕ) → lookup j m' ≡ some t → lookup j m ≡ some t)
    → has k m ≡ false
    → has k m' ≡ false
absent m m' k f h = elim (Bool-cases (has k m')) [
  | inl p ↦ let (t, e) = has-lookup k m' p in ground (arith, f k t e)
  | inr p ↦ p
]

module _ (block_tokens : List (List ℕ)) (clock : ℕ → ℕ) where
  add_block-Grown :
      {r : BlockKey → ℕ} (a : Adding) (b : NewBlock)
      → Core r a.cache
      → r b.key ≡ 0
      → has b.key a.cache.unused_blocks ≡ false
      → Before a.cache (clock b.token_idx)
      → length a.cache.used_blocks < a.cache.max_blocks
      → Grown (bump b.key r) 1 a.cache (add_block block_tokens clock a b).cache
  unfolding add_block
  add_block-Grown a b h p q past room =
      let m = make_room-Roomy a.cache (clock b.token_idx) h past room in
      let made : Grown _ 0 a.cache (make_room a.cache (clock b.token_idx)) = record {
        core = m.core;
        more_used = omega (arith, ap length m.used_same);
        requests_same = m.requests_same;
        max_same = m.max_same;
        disabled_same = m.disabled_same;
        fewer = m.fewer;
      } in
      Grown-trans (omega arith) made (
        commit-Grown b.key m.core (nth_tokens block_tokens b.token_idx) p
          (absent a.cache.unused_blocks _ b.key m.fewer q) m.free_slot)

  pub add_blocks-Grown :
      (bs : List NewBlock) {r : BlockKey → ℕ} (a : Adding)
      → Core r a.cache
      → ((j : BlockKey) → count j (map (λ b. b.key) bs) ≤ 1)
      → ((j : BlockKey)
          → 0 < count j (map (λ b. b.key) bs)
          → (r j ≡ 0) × (has j a.cache.unused_blocks ≡ false))
      → ((i : ℕ) → Before a.cache (clock i))
      → length a.cache.used_blocks + length bs ≤ a.cache.max_blocks
      → Grown
          (plus (map (λ b. b.key) bs) r)
          (length bs)
          a.cache
          (add_blocks block_tokens clock a bs).cache
  unfolding add_blocks
  add_blocks-Grown [] a h d p past room = Grown-refl h
  add_blocks-Grown (b ∷ bs) {r} a h d p past room =
      let fresh = p b.key (ground (arith, beq_refl b.key)) in
      let first = add_block-Grown a b h fresh.0 fresh.1 (past b.token_idx) (omega arith) in
      Grown-trans (omega arith) first (
        add_blocks-Grown bs (add_block block_tokens clock a b) first.core (λ j. ground (arith, d j))
          (λ j q. (
            ground (arith, p j, d j, block_key_beq_iff b.key j),
            absent a.cache.unused_blocks _ j first.fewer (ground (arith, p j)),
          ))
          (λ i k t e. past i k t (first.fewer k t e))
          (omega (arith, first.more_used, first.max_same)))
