-- ===== src/BlockCache/Finish.antt =====
-- The completion of a request: finishRequest of pkg/kvcache/block_cache.go.
pub mod Preserves
use llm_d_inference_sim.BlockCache.{
  BlockCache, BlockKey, block_key_comparable, CacheError, not_existing_blocks, report_usage,
}
use llm_d_inference_sim.Common.Maps.{Map, lookup, insert, erase}
use llm_d_inference_sim.Common.{
  ℕ, ◌-◌, Bool, true, false, List, [], ◌∷◌, ◌++◌, none, some, String, Result, ok, err, ltb,
  if◌then◌else◌, string_comparable,
}

-- One block of a finished request, with the blocks that were not found so far.
pub release : ℕ → BlockCache → List BlockKey → BlockKey → BlockCache × List BlockKey
release now c errs k = elim (lookup k c.used_blocks) [
  | none ↦ (c, errs ++ k ∷ [])
  | some n ↦
      if ltb 1 n then (record c { used_blocks = insert k (n - 1) c.used_blocks }, errs) else (
        record c {
          unused_blocks = insert k now c.unused_blocks;
          used_blocks = erase k c.used_blocks;
        },
        errs,
      )
]

pub release_all : ℕ → BlockCache → List BlockKey → List BlockKey → BlockCache × List BlockKey
unfolding release
release_all now c errs [] = (c, errs)
release_all now c errs (k ∷ ks) =
    let (c', errs') = release now c errs k in release_all now c' errs' ks

pub finish_result : String → List BlockKey → Result CacheError (Unit {0})
finish_result id [] = ok tt
finish_result id (k ∷ ks) = err (not_existing_blocks (k ∷ ks) id)

pub finished : BlockCache → String → BlockCache
unfolding report_usage
finished c id =
    let c' = report_usage c in record c' { request_to_blocks = erase id c'.request_to_blocks }

unfoldable pub finish_request : BlockCache → String → ℕ → BlockCache × Result CacheError (Unit {0})
unfolding release_all finish_result finished
finish_request c id now = if c.disabled then (c, ok tt) else elim (lookup id c.request_to_blocks) [
  | none ↦ (c, ok tt)
  | some ks ↦ let (c', errs) = release_all now c [] ks in (finished c' id, finish_result id errs)
]
