-- ===== src/BlockCache/Start.antt =====
-- The admission of a request: startRequest of pkg/kvcache/block_cache.go.
-- `clock i` is the time that pickBlockToEvict reads while the i-th block is added.
pub mod Steps
pub mod Loops
pub mod Cases
pub mod Preserves
pub mod Classify
use llm_d_inference_sim.BlockCache.{
  BlockCache, BlockKey, block_key_comparable, Request, EventData, event_action_store, CacheError,
  request_exists, invalid_input, capacity_error, key_of, emit, report_usage,
}
use llm_d_inference_sim.BlockCache.Evict.{make_room}
use llm_d_inference_sim.Common.Maps.{Map, lookup, insert, erase, has, get_or}
use llm_d_inference_sim.Common.{
  ℕ, suc, ◌+◌, Bool, true, false, List, [], ◌∷◌, ◌++◌, map, Option, none, some, String, Result, ok,
  err, ltb, length, get_elem?, if◌then◌else◌, ◌==◌, not, string_comparable, nat_comparable,
}

pub record NewBlock : Type 0 where
  pub key : BlockKey
  pub token_idx : ℕ

pub record Classified : Type 0 where
  pub blocks_to_add : List NewBlock
  pub block_to_move_to_used : List BlockKey
  pub block_already_in_use : List BlockKey
  pub last_cached_idx : Option ℕ

pub or_else : Option ℕ → ℕ → Option ℕ
or_else none i = some i
or_else (some j) i = some j

-- The first loop, from index `i` on. What the loop appends later stands behind, and a later
-- `lastCachedIdx` wins; -1 is `none`.
pub classify : BlockCache → String → ℕ → List ℕ → Classified
unfolding or_else
classify c model i [] = record {
  blocks_to_add = [];
  block_to_move_to_used = [];
  block_already_in_use = [];
  last_cached_idx = none;
}
classify c model i (h ∷ hs) =
    let k = key_of model h in
    let rest = classify c model (suc i) hs in
    if has k c.unused_blocks
    then record rest {
      block_to_move_to_used = k ∷ rest.block_to_move_to_used;
      last_cached_idx = or_else rest.last_cached_idx i;
    }
    else if not (has k c.used_blocks)
    then record rest { blocks_to_add = record { key = k; token_idx = i } ∷ rest.blocks_to_add }
    else record rest {
      block_already_in_use = k ∷ rest.block_already_in_use;
      last_cached_idx = or_else rest.last_cached_idx i;
    }

pub reuse : BlockCache → BlockKey → BlockCache
reuse c k = record c { used_blocks = insert k (get_or k 0 c.used_blocks + 1) c.used_blocks }

pub reuse_all : BlockCache → List BlockKey → BlockCache
unfolding reuse
reuse_all c [] = c
reuse_all c (k ∷ ks) = reuse_all (reuse c k) ks

pub revive : BlockCache → BlockKey → BlockCache
revive c k = record c {
  used_blocks = insert k 1 c.used_blocks;
  unused_blocks = erase k c.unused_blocks;
}

pub revive_all : BlockCache → List BlockKey → BlockCache
unfolding revive
revive_all c [] = c
revive_all c (k ∷ ks) = revive_all (revive c k) ks

-- The cache with the hashes and tokens gathered for the store event.
pub record Adding : Type 0 where
  pub cache : BlockCache
  pub hashes : List ℕ
  pub tokens : List ℕ

pub commit : BlockCache → BlockKey → List ℕ → BlockCache
commit c k tokens = record c {
  block_to_tokens = insert k tokens c.block_to_tokens;
  used_blocks = insert k 1 c.used_blocks;
}

pub nth_tokens : List (List ℕ) → ℕ → List ℕ
nth_tokens ts i = elim (get_elem? ts i) [ none ↦ [] | some t ↦ t ]

pub add_block : List (List ℕ) → (ℕ → ℕ) → Adding → NewBlock → Adding
unfolding make_room commit nth_tokens
add_block block_tokens clock a b =
    let c =
      commit (make_room a.cache (clock b.token_idx)) b.key (nth_tokens block_tokens b.token_idx) in
    record {
      cache = c;
      hashes = a.hashes ++ b.key.hash ∷ [];
      tokens = a.tokens ++ get_or b.key [] c.block_to_tokens;
    }

pub add_blocks : List (List ℕ) → (ℕ → ℕ) → Adding → List NewBlock → Adding
unfolding add_block
add_blocks block_tokens clock a [] = a
add_blocks block_tokens clock a (b ∷ bs) =
    add_blocks block_tokens clock (add_block block_tokens clock a b) bs

-- `blockHashes[lastCachedIdx]`, if there is one.
pub parent_hash_of : List ℕ → Option ℕ → Option ℕ
parent_hash_of hashes none = none
parent_hash_of hashes (some i) = get_elem? hashes i

pub emit_store : Request → Option ℕ → Adding → BlockCache
emit_store req parent a = elim a.hashes [
  | [] ↦ a.cache
  | h ∷ hs ↦ emit a.cache (record {
    action = event_action_store;
    tokens = a.tokens;
    hashes = h ∷ hs;
    parent_hash = parent;
    lora_name = req.lora_name;
    lora_id = req.lora_id;
  })
]

-- What follows the capacity check.
pub admit : BlockCache → Request → List ℕ → List (List ℕ) → (ℕ → ℕ) → Classified → BlockCache
unfolding reuse_all revive_all add_blocks parent_hash_of emit_store emit report_usage
admit c req hashes block_tokens clock cl =
    let c₁ = revive_all (reuse_all c cl.block_already_in_use) cl.block_to_move_to_used in
    let a =
      add_blocks block_tokens clock (record { cache = c₁; hashes = []; tokens = [] })
        cl.blocks_to_add in
    let c₂ = emit_store req (parent_hash_of hashes cl.last_cached_idx) a in
    report_usage (record c₂ {
      request_to_blocks =
          insert req.request_id (map (key_of req.displayed_model) hashes) c₂.request_to_blocks;
    })

unfoldable pub start_request :
    BlockCache → Request → List ℕ → List (List ℕ) → (ℕ → ℕ) → BlockCache × Result CacheError ℕ
unfolding classify admit
start_request c req hashes block_tokens clock =
    let cl = classify c req.displayed_model 0 hashes in
    if c.disabled
    then (c, ok 0)
    else if has req.request_id c.request_to_blocks
    then (c, err (request_exists req.request_id))
    else if not (length hashes == length block_tokens)
    then (c, err (invalid_input (length hashes) (length block_tokens)))
    else if ltb c.max_blocks
        (length c.used_blocks + length cl.blocks_to_add + length cl.block_to_move_to_used)
    then (c, err capacity_error)
    else (
      admit c req hashes block_tokens clock cl,
      ok (length cl.block_already_in_use + length cl.block_to_move_to_used),
    )
