-- ===== src/BlockCache/Create.antt =====
-- The construction of the cache: newBlockCache of pkg/kvcache/block_cache.go.
-- The connection of the publisher is code of another library: its outcome is an argument.
use llm_d_inference_sim.BlockCache.{BlockCache, Usage, set_model_loaded}
use llm_d_inference_sim.Channel.{Channel, absent}
use llm_d_inference_sim.Common.{
  ℕ, ◌*◌, String, List, [], ◌∷◌, Option, none, some, false, Result, ok, err, if◌then◌else◌, ◌==◌,
  string_comparable,
}

-- The fields of the configuration that are read.
pub record Config : Type 0 where
  pub ip : String
  pub zmq_endpoint : String
  pub model : String
  pub served_model_names : List String
  pub kv_cache_size : ℕ

pub data NewError : Type 0 where
  ip_undefined : NewError
  publisher_failed : String → NewError

unfoldable pub set_models_loaded : BlockCache → List String → BlockCache
set_models_loaded c [] = c
set_models_loaded c (m ∷ ms) = set_models_loaded (set_model_loaded c m) ms

unfoldable pub empty_cache : Config → Option (Channel Usage) → BlockCache
empty_cache cfg usage_chan = record {
  request_to_blocks = [];
  used_blocks = [];
  unused_blocks = [];
  block_to_tokens = [];
  loaded_models = [];
  max_blocks = cfg.kv_cache_size;
  event_chan = record {
    buffer = [];
    capacity = 10 * cfg.kv_cache_size;
    name = "block cache eventChan";
    shutdown = absent;
  };
  usage_chan = usage_chan;
  disabled = false;
}

unfoldable pub created : Config → Option (Channel Usage) → BlockCache
unfolding set_models_loaded empty_cache
created cfg usage_chan =
    set_models_loaded (set_model_loaded (empty_cache cfg usage_chan) cfg.model)
      cfg.served_model_names

-- `connect` is the error of the publisher's connection, if it fails.
unfoldable pub new_block_cache :
    Config → Option String → Option (Channel Usage) → Result NewError BlockCache
unfolding created
new_block_cache cfg connect usage_chan =
    if cfg.ip == ""
    then err ip_undefined
    else if cfg.zmq_endpoint == ""
    then ok (created cfg usage_chan)
    else elim connect [ none ↦ ok (created cfg usage_chan) | some e ↦ err (publisher_failed e) ]
