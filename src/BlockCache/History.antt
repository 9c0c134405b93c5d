-- ===== src/BlockCache/History.antt =====
-- Histories of calls on the cache of pkg/kvcache/block_cache.go, each call at its time.
use llm_d_inference_sim.BlockCache.{
  BlockCache, BlockKey, Request, Usage, key_of, discard, activate, set_model_loaded,
  set_model_unloaded, block_key_comparable,
}
use llm_d_inference_sim.BlockCache.Create.{
  Config, new_block_cache, created, empty_cache, set_models_loaded,
}
use llm_d_inference_sim.BlockCache.Evict.Choice.{Before}
use llm_d_inference_sim.BlockCache.Finish.{finish_request}
use llm_d_inference_sim.BlockCache.Finish.Preserves.{finish_request-Inv, finish_request-times}
use llm_d_inference_sim.BlockCache.Invariant.{Inv, Core-transfer}
use llm_d_inference_sim.BlockCache.Start.{start_request}
use llm_d_inference_sim.BlockCache.Start.Preserves.{start_request-Inv, start_request-fewer}
use llm_d_inference_sim.Channel.{Channel}
use llm_d_inference_sim.Common.Maps.{lookup}
use llm_d_inference_sim.Common.{
  ℕ, ◌+◌, ◌≤◌, ◌<◌, ◌≡◌, refl, String, List, [], ◌∷◌, map, Distinct, Option, some, ok, arith, inl,
  inr,
}

pub data Call : Type 0 where
  -- The last argument is the time from the call to the reading of the clock for each block.
  starts : Request → List ℕ → List (List ℕ) → (ℕ → ℕ) → Call
  finishes : String → Call
  discards activates : Call
  loads unloads : String → Call

unfoldable pub step : BlockCache → ℕ × Call → BlockCache
step c (now, starts req hashes tokens delay) =
    (start_request c req hashes tokens (λ i. now + delay i)).0
step c (now, finishes id) = (finish_request c id now).0
step c (now, discards) = discard c
step c (now, activates) = activate c
step c (now, loads model) = set_model_loaded c model
step c (now, unloads model) = set_model_unloaded c model

unfoldable pub run : BlockCache → List (ℕ × Call) → BlockCache
run c [] = c
run c (x ∷ xs) = run (step c x) xs

-- A request names each of its blocks once, as chained hashes do.
abbrev pub IsChained : Call → Type 0
IsChained (starts req hashes tokens delay) = Distinct (map (key_of req.displayed_model) hashes)
IsChained (finishes id) = Unit
IsChained discards = Unit
IsChained activates = Unit
IsChained (loads m) = Unit
IsChained (unloads m) = Unit

-- Each call comes later than the one before, on a clock that shows `last` at first.
abbrev pub Timely : ℕ → List (ℕ × Call) → Type 0
Timely last [] = Unit
Timely last ((now, x) ∷ xs) = (last < now) × IsChained x × Timely now xs

-- No block was last used after `now`.
abbrev pub Until : BlockCache → ℕ → Type 0
Until c now = (k : BlockKey) (t : ℕ) → lookup k c.unused_blocks ≡ some t → t ≤ now

discard-Inv : (c : BlockCache) → Inv (discard c)
unfolding discard lookup
discard-Inv c = record {
  core = record {
    used_map = tt;
    unused_map = tt;
    tokens_map = tt;
    counted = λ k. refl;
    apart = λ k p. cc;
    backed = λ k. refl;
    bounded = omega arith;
  };
  requests_map = tt;
}

step-Inv :
    (c : BlockCache) (now : ℕ) (x : Call) (last : ℕ)
    → Inv c
    → Until c last
    → last < now
    → IsChained x
    → Inv (step c (now, x)) × Until (step c (now, x)) now
unfolding step
step-Inv c now (starts req hashes tokens delay) last h u p d =
    let past : (i : ℕ) → Before c (now + delay i) = λ i k t e. omega (arith, u k t e) in
    (
      start_request-Inv c req hashes tokens _ h d past,
      λ k t e. omega (arith, u k t (start_request-fewer c req hashes tokens _ h d past k t e)),
    )
step-Inv c now (finishes id) last h u p d = (
  (finish_request-Inv c id now h).0,
  λ k t e. elim (finish_request-times c id now h k t e) [
    | inl q ↦ omega arith
    | inr q ↦ omega (arith, u k t q)
  ],
)
step-Inv c now discards last h u p d =
    (discard-Inv c, λ k t e. unfold discard lookup in absurd (cc))
step-Inv c now activates last h u p d =
    unfold activate in
    (
      record {
        core = Core-transfer (λ k. refl) refl refl refl refl h.core;
        requests_map = h.requests_map;
      },
      λ k t e. omega (arith, u k t e),
    )
step-Inv c now (loads m) last h u p d =
    unfold set_model_loaded in
    (
      record {
        core = Core-transfer (λ k. refl) refl refl refl refl h.core;
        requests_map = h.requests_map;
      },
      λ k t e. omega (arith, u k t e),
    )
step-Inv c now (unloads m) last h u p d =
    unfold set_model_unloaded in
    (
      record {
        core = Core-transfer (λ k. refl) refl refl refl refl h.core;
        requests_map = h.requests_map;
      },
      λ k t e. omega (arith, u k t e),
    )

run-Inv :
    (c : BlockCache) (xs : List (ℕ × Call)) (last : ℕ)
    → Inv c
    → Until c last
    → Timely last xs
    → Inv (run c xs)
unfolding run
run-Inv c [] last h u w = h
run-Inv c ((now, x) ∷ xs) last h u w =
    let (h', u') = step-Inv c now x last h u w.0 w.1 in run-Inv (step c (now, x)) xs now h' u' w.2

set_models_loaded-Inv :
    (c : BlockCache) (ms : List String)
    → c.used_blocks ≡ []
    → c.unused_blocks ≡ []
    → c.block_to_tokens ≡ []
    → c.request_to_blocks ≡ []
    → Inv (set_models_loaded c ms) × ((set_models_loaded c ms).unused_blocks ≡ [])
unfolding set_models_loaded set_model_loaded
set_models_loaded-Inv c [] u f t r = (
  record {
    core = record {
      used_map = rw u tt;
      unused_map = rw f tt;
      tokens_map = rw t tt;
      counted = λ k. unfold lookup in ground (arith, u, r);
      apart = λ k p. unfold lookup in ground (arith, r);
      backed = λ k. unfold lookup in ground (arith, f, t, r);
      bounded = ground (arith, u, f);
    };
    requests_map = rw r tt;
  },
  f,
)
set_models_loaded-Inv c (m ∷ ms) u f t r = set_models_loaded-Inv (set_model_loaded c m) ms u f t r

-- After any history of calls on a new cache, each call later than the one before and each request
-- naming its blocks once: the reference count of every block in use is the number of its occurrences in
-- the running requests, no block is both in use and unused, tokens are held for the cached blocks and
-- for no others, and used and unused blocks together are at most the capacity.
pub run-new_block_cache-Inv :
    (cfg : Config) (connect : Option String) (usage_chan : Option (Channel Usage)) {c : BlockCache}
    (xs : List (ℕ × Call)) (start : ℕ)
    → new_block_cache cfg connect usage_chan ≡ ok c
    → Timely start xs
    → Inv (run c xs)
unfolding new_block_cache created empty_cache set_model_loaded
run-new_block_cache-Inv cfg connect usage_chan {c} xs start e w =
    let made : c ≡ created cfg usage_chan = ground arith in
    let first =
      set_models_loaded-Inv (set_model_loaded (empty_cache cfg usage_chan) cfg.model)
        cfg.served_model_names refl refl refl refl in
    rw made (
      run-Inv (created cfg usage_chan) xs start first.0
        (λ k t q. unfold lookup in absurd (ground (arith, first.1))) w)
