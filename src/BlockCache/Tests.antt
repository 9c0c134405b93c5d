-- ===== src/BlockCache/Tests.antt =====
-- Runs of the cache of pkg/kvcache/block_cache.go, and its theorems at concrete inputs.
use llm_d_inference_sim.BlockCache.{
  BlockCache, BlockKey, Request, block_key_beq, block_key_comparable, block_key_beq_iff, key_of,
  cached, get_block_info, count_cached_block_prefix, set_model_loaded,
}
use llm_d_inference_sim.BlockCache.Behaviour.{
  get_block_info-refs, running-get_block_info, finish_request-start_request,
  start_request-count_cached_block_prefix,
}
use llm_d_inference_sim.BlockCache.Create.{Config, new_block_cache, created}
use llm_d_inference_sim.BlockCache.Evict.{pick_block_to_evict}
use llm_d_inference_sim.BlockCache.Evict.Choice.{Victim, pick_block_to_evict-Victim}
use llm_d_inference_sim.BlockCache.Finish.{finish_request}
use llm_d_inference_sim.BlockCache.Finish.Preserves.{finish_request-Inv}
use llm_d_inference_sim.BlockCache.History.{starts, finishes, run, step, run-new_block_cache-Inv}
use llm_d_inference_sim.BlockCache.Invariant.{Inv}
use llm_d_inference_sim.BlockCache.Start.{start_request}
use llm_d_inference_sim.BlockCache.Start.Preserves.{start_request-Inv}
use llm_d_inference_sim.Channel.{absent}
use llm_d_inference_sim.Common.Maps.{lookup, insert, erase, has}
use llm_d_inference_sim.Common.{
  ℕ, ◌≤◌, ◌<◌, ◌≡◌, refl, [], ◌∷◌, none, some, true, false, ok, arith, string_comparable,
}

abbrev config : Config
config = record {
  ip = "10.0.0.1";
  zmq_endpoint = "";
  model = "m";
  served_model_names = "m" ∷ [];
  kv_cache_size = 2;
}

abbrev request : Request
request = record { request_id = "a"; displayed_model = "m"; lora_name = none; lora_id = none }

-- Two blocks of a finished request, unused since time 2, in a full cache.
abbrev idle : BlockCache
idle = record {
  request_to_blocks = [];
  used_blocks = [];
  unused_blocks = (key_of "m" 1, 2) ∷ (key_of "m" 2, 2) ∷ [];
  block_to_tokens = (key_of "m" 1, 10 ∷ []) ∷ (key_of "m" 2, 20 ∷ []) ∷ [];
  loaded_models = ("m", tt) ∷ [];
  max_blocks = 2;
  event_chan = record { buffer = []; capacity = 20; name = "events"; shutdown = absent };
  usage_chan = none;
  disabled = false;
}

program : Unit {0}
unfolding start_request finish_request new_block_cache lookup insert erase block_key_beq run step
    pick_block_to_evict count_cached_block_prefix get_block_info
program = tt

idle-Inv : Inv idle
unfolding lookup block_key_beq
idle-Inv = record {
  core = record {
    used_map = tt;
    unused_map = (refl, (refl, tt));
    tokens_map = (refl, (refl, tt));
    counted = λ k. refl;
    apart = λ k p. refl;
    backed = λ k. ground arith;
    bounded = omega arith;
  };
  requests_map = tt;
}

-- One block of a running request.
abbrev busy : BlockCache
busy = record idle {
  request_to_blocks = ("a", key_of "m" 1 ∷ []) ∷ [];
  used_blocks = (key_of "m" 1, 1) ∷ [];
  unused_blocks = [];
  block_to_tokens = (key_of "m" 1, 10 ∷ []) ∷ [];
}

busy-Inv : Inv busy
unfolding lookup block_key_beq
busy-Inv = record {
  core = record {
    used_map = (refl, tt);
    unused_map = tt;
    tokens_map = (refl, tt);
    counted = λ k. ground arith;
    apart = λ k p. cc;
    backed = λ k. ground arith;
    bounded = omega arith;
  };
  requests_map = (refl, tt);
}

idle_times :
    (now : ℕ) (k : BlockKey) (t : ℕ) → 2 < now → lookup k idle.unused_blocks ≡ some t → t < now
unfolding lookup
idle_times now k t h e =
    ground (arith, block_key_beq_iff (key_of "m" 1) k, block_key_beq_iff (key_of "m" 2) k)

-- The store evicts the block that the loop meets first: its successor stays behind.
evicts_first :
    count_cached_block_prefix
      (start_request idle
        (record request { displayed_model = "m" })
        (3 ∷ [])
        ((30 ∷ []) ∷ [])
        (λ i. 5)).0
      (1 ∷ 2 ∷ [])
      "m"
    ≡ 0
unfolding program
evicts_first = refl

-- Then the cached block of the chain 1, 2 is not its first one.
answers_total :
    (start_request
      (record idle {
        unused_blocks = (key_of "m" 2, 2) ∷ [];
        block_to_tokens = (key_of "m" 2, 20 ∷ []) ∷ [];
      })
      request
      (1 ∷ 2 ∷ [])
      ((10 ∷ []) ∷ (20 ∷ []) ∷ [])
      (λ i. 5)).1
    ≡ ok 1
unfolding program
answers_total = refl

history_cache : BlockCache
history_cache = run (created config none) (
    (1, starts request (1 ∷ 2 ∷ []) ((10 ∷ []) ∷ (20 ∷ []) ∷ []) (λ i. 0)) ∷ (2, finishes "a") ∷ [])

history_idle : history_cache.unused_blocks ≡ idle.unused_blocks
unfolding history_cache program created set_model_loaded
history_idle = refl

run-new_block_cache-Inv_example : Inv (
    run (created config none) (
      (1, starts request (1 ∷ 2 ∷ []) ((10 ∷ []) ∷ (20 ∷ []) ∷ []) (λ i. 0))
      ∷ (2, finishes "a")
      ∷ []))
unfolding program
run-new_block_cache-Inv_example =
    run-new_block_cache-Inv config none none
      ((1, starts request (1 ∷ 2 ∷ []) ((10 ∷ []) ∷ (20 ∷ []) ∷ []) (λ i. 0))
        ∷ (2, finishes "a")
        ∷ [])
      0 refl (omega arith, (refl, (refl, tt)), (omega arith, tt, tt))

start_request-Inv_example : Inv (start_request idle request (3 ∷ []) ((30 ∷ []) ∷ []) (λ i. 5)).0
start_request-Inv_example =
    start_request-Inv idle request (3 ∷ []) ((30 ∷ []) ∷ []) (λ i. 5) idle-Inv (refl, tt)
      (λ i k t e. idle_times 5 k t (omega arith) e)

finish_request-Inv_example :
    Inv (finish_request busy "a" 3).0 × ((finish_request busy "a" 3).1 ≡ ok tt)
finish_request-Inv_example = finish_request-Inv busy "a" 3 busy-Inv

pick_block_to_evict-Victim_example : (t : ℕ) × Victim idle (pick_block_to_evict idle 5) t
unfolding lookup block_key_beq
pick_block_to_evict-Victim_example =
    pick_block_to_evict-Victim idle 5 (refl, (refl, tt)) (λ k t e. idle_times 5 k t (omega arith) e)
      (key_of "m" 1) 2 refl

get_block_info-refs_example : get_block_info busy (key_of "m" 1) ≡ (1, true)
unfolding lookup block_key_beq
get_block_info-refs_example = get_block_info-refs busy (key_of "m" 1) busy-Inv

-- A full cache: a block of the running request, and one that the other request's block evicts.
abbrev full : BlockCache
full = record busy {
  unused_blocks = (key_of "m" 2, 2) ∷ [];
  block_to_tokens = (key_of "m" 1, 10 ∷ []) ∷ (key_of "m" 2, 20 ∷ []) ∷ [];
}

full-Inv : Inv full
unfolding lookup block_key_beq
full-Inv = record {
  core = record {
    used_map = (refl, tt);
    unused_map = (refl, tt);
    tokens_map = (refl, (refl, tt));
    counted = λ k. ground arith;
    apart = λ k p.
        ground (arith, p, block_key_beq_iff (key_of "m" 1) k, block_key_beq_iff (key_of "m" 2) k);
    backed = λ k. ground arith;
    bounded = omega arith;
  };
  requests_map = (refl, tt);
}

full_times : (k : BlockKey) (t : ℕ) → lookup k full.unused_blocks ≡ some t → t < 5
unfolding lookup
full_times k t e = ground (arith, block_key_beq_iff (key_of "m" 2) k)

abbrev other : Request
other = record request { request_id = "b" }

evicts_unused :
    has
      (key_of "m" 2)
      (start_request full other (3 ∷ []) ((30 ∷ []) ∷ []) (λ i. 5)).0.block_to_tokens
    ≡ false
unfolding program
evicts_unused = refl

running-get_block_info_example :
    let c = (start_request full other (3 ∷ []) ((30 ∷ []) ∷ []) (λ i. 5)).0 in
    (lookup "a" c.request_to_blocks ≡ some (key_of "m" 1 ∷ []))
    × (0 < (get_block_info c (key_of "m" 1)).0)
    × ((get_block_info full (key_of "m" 1)).0 ≤ (get_block_info c (key_of "m" 1)).0)
    × ((get_block_info c (key_of "m" 1)).1 ≡ true)
    × (has (key_of "m" 1) c.unused_blocks ≡ false)
unfolding lookup block_key_beq
running-get_block_info_example =
    running-get_block_info full other (3 ∷ []) ((30 ∷ []) ∷ []) (λ i. 5) "a" (key_of "m" 1 ∷ [])
      (key_of "m" 1) full-Inv (refl, tt) (λ i k t e. full_times k t e) refl refl

finish_request-start_request_example :
    (get_block_info
      (finish_request (start_request idle request (2 ∷ []) ((20 ∷ []) ∷ []) (λ i. 5)).0 "a" 6).0
      (key_of "m" 2)).0
    ≡ (get_block_info idle (key_of "m" 2)).0
unfolding program
finish_request-start_request_example =
    finish_request-start_request idle request (2 ∷ []) ((20 ∷ []) ∷ []) (λ i. 5) 6 1 idle-Inv
      (refl, tt) (λ i k t e. idle_times 5 k t (omega arith) e) refl refl (key_of "m" 2)

start_request-count_cached_block_prefix_example :
    1 ≡ count_cached_block_prefix idle (1 ∷ 3 ∷ []) "m"
unfolding program lookup cached
start_request-count_cached_block_prefix_example =
    (start_request-count_cached_block_prefix idle request (1 ∷ 3 ∷ []) ((10 ∷ []) ∷ (30 ∷ []) ∷ [])
        (λ i. 5) 1 refl refl).1
      (λ e. cc, (λ e. refl, tt))
