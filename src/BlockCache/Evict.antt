-- ===== src/BlockCache/Evict.antt =====
-- The choice of the block to evict: pickBlockToEvict of pkg/kvcache/block_cache.go.
-- `now` is the reading of the clock at the call. Go's loop over the map takes the list's order.
pub mod Choice
pub mod Room
use llm_d_inference_sim.BlockCache.{
  BlockCache, BlockKey, EventAction, event_action_remove, block_key_comparable, emit, plain_event,
}
use llm_d_inference_sim.Channel.{Channel}
use llm_d_inference_sim.Common.Maps.{Map, lookup, erase, has, get_or}
use llm_d_inference_sim.Common.{
  ℕ, Bool, true, false, List, [], ◌∷◌, ltb, length, if◌then◌else◌, ◌==◌, ◌+◌, nat_comparable,
  string_comparable, String,
}

-- The local variables of the loop.
pub record Candidates : Type 0 where
  pub loaded_hash : BlockKey
  pub loaded_time : ℕ
  pub unloaded_hash : BlockKey
  pub unloaded_time : ℕ
  pub has_unloaded_candidate : Bool

abbrev pub zero_key : BlockKey
zero_key = record { hash = 0; model_name = "" }

abbrev pub no_candidates : ℕ → Candidates
no_candidates now = record {
  loaded_hash = zero_key;
  loaded_time = now;
  unloaded_hash = zero_key;
  unloaded_time = now;
  has_unloaded_candidate = false;
}

-- The body of the loop.
pub consider : Map String (Unit {0}) → Candidates → BlockKey → ℕ → Candidates
consider loaded b k t =
    if has k.model_name loaded
    then if ltb t b.loaded_time then record b { loaded_hash = k; loaded_time = t } else b
    else if ltb t b.unloaded_time
    then record b { unloaded_hash = k; unloaded_time = t; has_unloaded_candidate = true }
    else b

pub consider_all : Map String (Unit {0}) → Candidates → Map BlockKey ℕ → Candidates
unfolding consider
consider_all loaded b [] = b
consider_all loaded b ((k, t) ∷ m) = consider_all loaded (consider loaded b k t) m

pub chosen : Candidates → BlockKey
chosen b = if b.has_unloaded_candidate then b.unloaded_hash else b.loaded_hash

unfoldable pub pick_block_to_evict : BlockCache → ℕ → BlockKey
unfolding consider_all chosen
pick_block_to_evict c now =
    chosen (consider_all c.loaded_models (no_candidates now) c.unused_blocks)

-- The branch of startRequest's loop for a full cache.
unfoldable pub make_room : BlockCache → ℕ → BlockCache
unfolding pick_block_to_evict emit plain_event
make_room c now =
    if length c.used_blocks + length c.unused_blocks == c.max_blocks
    then evicted (pick_block_to_evict c now)
    else c
  where
    evicted : BlockKey → BlockCache
    evicted k =
        record (emit (record c { unused_blocks = erase k c.unused_blocks })
          (plain_event event_action_remove (k.hash ∷ []) (get_or k [] c.block_to_tokens))) {
            block_to_tokens = erase k c.block_to_tokens;
          }
