-- ===== src/BlockCache.antt =====
-- The KV block cache: pkg/kvcache/block_cache.go.
-- A method takes the cache and returns the new one; the mutex makes each call one step. Times are
-- clock readings; the float usage ratio is kept as its numerator and denominator.
pub mod Evict
pub mod Start
pub mod Finish
pub mod Invariant
pub mod Create
pub mod History
pub mod Behaviour
mod Tests
use llm_d_inference_sim.Channel.{Channel, write_to_channel}
use llm_d_inference_sim.Common.Maps.{Map, lookup, insert, erase, has, get_or}
use llm_d_inference_sim.Common.{
  ℕ, suc, ◌+◌, ◌-◌, ◌≡◌, ◌↔◌, Bool, true, false, ◌&&◌, List, [], ◌∷◌, ◌++◌, map, Option, none, some,
  String, Result, ok, err, Comparable, ◌==◌, ltb, length, get_elem?, if◌then◌else◌, is_some, arith,
  string_comparable, nat_comparable,
}
use text.Mathlib.TextEquality.{eq_iff}

pub record BlockKey : Type 0 where
  pub hash : ℕ
  pub model_name : String

unfoldable pub block_key_beq : BlockKey → BlockKey → Bool
block_key_beq a b = a.hash == b.hash && a.model_name == b.model_name

pub block_key_beq_iff : (a b : BlockKey) → (block_key_beq a b ≡ true) ↔ (a ≡ b)
unfolding block_key_beq
block_key_beq_iff a b = ground (arith, eq_iff a.model_name b.model_name)

instance abbrev pub block_key_comparable : Comparable BlockKey
block_key_comparable = record { test = block_key_beq; test_iff = block_key_beq_iff }

-- What the cache asks of a request.
pub record Request : Type 0 where
  pub request_id : String
  pub displayed_model : String
  pub lora_name : Option String
  pub lora_id : Option ℕ

pub data EventAction : Type 0 where
  event_action_store event_action_remove event_action_all_blocks_cleared : EventAction

pub record EventData : Type 0 where
  pub action : EventAction
  pub tokens : List ℕ
  pub hashes : List ℕ
  pub parent_hash : Option ℕ
  pub lora_name : Option String
  pub lora_id : Option ℕ

pub record Usage : Type 0 where
  pub in_use : ℕ
  pub of_blocks : ℕ

pub record BlockCache : Type 0 where
  pub request_to_blocks : Map String (List BlockKey)
  pub used_blocks : Map BlockKey ℕ
  pub unused_blocks : Map BlockKey ℕ
  pub block_to_tokens : Map BlockKey (List ℕ)
  pub loaded_models : Map String (Unit {0})
  pub max_blocks : ℕ
  pub event_chan : Channel EventData
  pub usage_chan : Option (Channel Usage)
  pub disabled : Bool

pub data CacheError : Type 0 where
  request_exists : String → CacheError
  invalid_input : ℕ → ℕ → CacheError
  capacity_error : CacheError
  not_existing_blocks : List BlockKey → String → CacheError

pub emit : BlockCache → EventData → BlockCache
emit c e = record c { event_chan = write_to_channel c.event_chan e }

pub report_usage : BlockCache → BlockCache
report_usage c = elim c.usage_chan [
  | none ↦ c
  | some ch ↦ record c {
    usage_chan =
        some (
          write_to_channel ch (record { in_use = length c.used_blocks; of_blocks = c.max_blocks }));
  }
]

pub plain_event : EventAction → List ℕ → List ℕ → EventData
plain_event a hashes tokens = record {
  action = a;
  tokens = tokens;
  hashes = hashes;
  parent_hash = none;
  lora_name = none;
  lora_id = none;
}

pub discard : BlockCache → BlockCache
unfolding emit plain_event
discard c = emit cleared (plain_event event_action_all_blocks_cleared [] [])
  where
    cleared : BlockCache
    cleared = record c {
      disabled = true;
      request_to_blocks = [];
      used_blocks = [];
      unused_blocks = [];
      block_to_tokens = [];
    }

pub activate : BlockCache → BlockCache
activate c = record c { disabled = false }

pub set_model_loaded : BlockCache → String → BlockCache
set_model_loaded c model = record c { loaded_models = insert model tt c.loaded_models }

pub set_model_unloaded : BlockCache → String → BlockCache
set_model_unloaded c model = record c { loaded_models = erase model c.loaded_models }

pub get_stats : BlockCache → ℕ × ℕ × ℕ
get_stats c = (
  length c.request_to_blocks,
  length c.used_blocks + length c.unused_blocks,
  length c.unused_blocks,
)

pub get_block_info : BlockCache → BlockKey → ℕ × Bool
get_block_info c k = elim (lookup k c.used_blocks) [
  | some n ↦ (n, true)
  | none ↦ (0, has k c.unused_blocks)
]

-- The two tests of the lookup loops: in use, or used in the past.
pub cached : BlockCache → BlockKey → Bool
cached c k = if has k c.used_blocks then true else has k c.unused_blocks

abbrev pub key_of : String → ℕ → BlockKey
key_of model h = record { hash = h; model_name = model }

pub cached_prefix : BlockCache → List ℕ → String → ℕ
unfolding cached
cached_prefix c [] model = 0
cached_prefix c (h ∷ hs) model =
    let rest = cached_prefix c hs model in if cached c (key_of model h) then suc rest else 0

pub count_cached_block_prefix : BlockCache → List ℕ → String → ℕ
unfolding cached_prefix
count_cached_block_prefix c hashes model = if c.disabled then 0 else cached_prefix c hashes model
