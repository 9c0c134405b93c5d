-- ===== src/BlockCache/Behaviour.antt =====
-- What the users of the cache of pkg/kvcache/block_cache.go observe.
use llm_d_inference_sim.BlockCache.{
  BlockCache, BlockKey, Request, CacheError, key_of, get_block_info, cached, cached_prefix,
  count_cached_block_prefix, block_key_comparable,
}
use llm_d_inference_sim.BlockCache.Evict.Choice.{Before}
use llm_d_inference_sim.BlockCache.Finish.{finish_request}
use llm_d_inference_sim.BlockCache.Finish.Preserves.{finish_request-Inv, finish_request-requests}
use llm_d_inference_sim.BlockCache.Invariant.{Inv, refs, refs-insert, refs-erase}
use llm_d_inference_sim.BlockCache.Start.{start_request}
use llm_d_inference_sim.BlockCache.Start.Cases.{start_request_cases}
use llm_d_inference_sim.BlockCache.Start.Classify.{cached_total, classify-total}
use llm_d_inference_sim.BlockCache.Start.Preserves.{
  start_request-Inv, start_request-booked, start_request-requests,
}
use llm_d_inference_sim.Common.Maps.{lookup, has, lookup-insert}
use llm_d_inference_sim.Common.{
  ℕ, ◌<◌, ◌≤◌, ◌==◌, none, Bool-cases, inl, inr, ◌≡◌, refl, ap, sym, ◌∙◌, String, List, [], ◌∷◌,
  map, Distinct, some, true, false, ok, Result, arith, count, contains, beq_refl, string_comparable,
  if◌then◌else◌,
}

-- In a cache with the invariant, the reference count that getBlockInfo reports is the number of times the running requests hold the
-- block, and the block is reported as cached exactly when its tokens are kept.
pub get_block_info-refs :
    (c : BlockCache) (k : BlockKey)
    → Inv c
    → get_block_info c k ≡ (refs c.request_to_blocks k, has k c.block_to_tokens)
unfolding get_block_info
get_block_info-refs c k h = ground (arith, h.core.counted k, h.core.backed k)

contains-count : (k : BlockKey) (ks : List BlockKey) → contains k ks ≡ true → 0 < count k ks
contains-count k [] h = cc
contains-count k (x ∷ xs) h = ground (arith, contains-count k xs)

-- The blocks of a running request are in use.
in_use :
    (c : BlockCache) (id : String) (ks : List BlockKey) (k : BlockKey)
    → Inv c
    → lookup id c.request_to_blocks ≡ some ks
    → contains k ks ≡ true
    → (0 < (get_block_info c k).0)
      × ((get_block_info c k).1 ≡ true)
      × (has k c.unused_blocks ≡ false)
in_use c id ks k h e m = rw (get_block_info-refs c k h) ground (
  arith,
  h.core.backed k,
  h.core.apart k,
  refs-erase id c.request_to_blocks k e,
  contains-count k ks m,
)

-- In a cache with the invariant, a call of startRequest for another request, with the evictions that it makes, takes no block from a
-- running request: it keeps running with the same blocks, and each of them is in use and cached, is not
-- among the unused blocks, and has at least the reference count of before. The other request's blocks
-- are distinct, and the clock is past the last use of every unused block.
pub running-get_block_info :
    (c : BlockCache) (req : Request) (hashes : List ℕ) (block_tokens : List (List ℕ))
    (clock : ℕ → ℕ) (id : String) (ks : List BlockKey) (k : BlockKey)
    → Inv c
    → Distinct (map (key_of req.displayed_model) hashes)
    → ((i : ℕ) → Before c (clock i))
    → lookup id c.request_to_blocks ≡ some ks
    → contains k ks ≡ true
    → let c' = (start_request c req hashes block_tokens clock).0 in
      (lookup id c'.request_to_blocks ≡ some ks)
      × (0 < (get_block_info c' k).0)
      × ((get_block_info c k).0 ≤ (get_block_info c' k).0)
      × ((get_block_info c' k).1 ≡ true)
      × (has k c'.unused_blocks ≡ false)
running-get_block_info c req hashes block_tokens clock id ks k h d past e m =
    let c' = (start_request c req hashes block_tokens clock).0 in
    let h' = start_request-Inv c req hashes block_tokens clock h d past in
    let keys = map (key_of req.displayed_model) hashes in
    let kept : (lookup id c'.request_to_blocks ≡ some ks)
        × (refs c.request_to_blocks k ≤ refs c'.request_to_blocks k) =
      elim (start_request-booked c req hashes block_tokens clock h d past) [
        | inl same ↦ (rw same e, rw same (omega arith))
        | inr (booked, new) ↦ (
          rw (booked, lookup-insert req.request_id id keys c.request_to_blocks)
              (ground (arith, other id req.request_id ks c e new, e)),
          omega (
            arith,
            ap (λ x. refs x k) booked,
            refs-insert req.request_id keys c.request_to_blocks k new,
          ),
        )
      ] in
    let (used, is_cached, apart) = in_use c' id ks k h' kept.0 m in
    (
      kept.0,
      used,
      rw (get_block_info-refs c k h, get_block_info-refs c' k h') kept.1,
      is_cached,
      apart,
    )
  where
    other :
        (id new : String) (ks : List BlockKey) (c : BlockCache)
        → lookup id c.request_to_blocks ≡ some ks
        → lookup new c.request_to_blocks ≡ none
        → (new == id) ≡ false
    other id new ks c e n = elim (Bool-cases (new == id)) [
      | inl same ↦
          let f =
            sym e
            ∙ ap (λ x. lookup x c.request_to_blocks)
                (sym ((string_comparable.test_iff new id).0 same))
            ∙ n in
          absurd (cc)
      | inr differs ↦ differs
    ]

-- In an enabled cache with the invariant, a request that is admitted and then finished leaves the
-- reference count of every block as it was before, if its blocks are distinct and the clock is past the
-- last use of every unused block.
pub finish_request-start_request :
    (c : BlockCache) (req : Request) (hashes : List ℕ) (block_tokens : List (List ℕ))
    (clock : ℕ → ℕ) (now n : ℕ)
    → Inv c
    → Distinct (map (key_of req.displayed_model) hashes)
    → ((i : ℕ) → Before c (clock i))
    → c.disabled ≡ false
    → (start_request c req hashes block_tokens clock).1 ≡ ok n
    → (k : BlockKey)
    → (get_block_info
        (finish_request (start_request c req hashes block_tokens clock).0 req.request_id now).0
        k).0
      ≡ (get_block_info c k).0
finish_request-start_request c req hashes block_tokens clock now n h d past on e k =
    let c' = (start_request c req hashes block_tokens clock).0 in
    let h' = start_request-Inv c req hashes block_tokens clock h d past in
    let (booked, on', new) =
      start_request-requests c req hashes block_tokens clock h d past n on e in
    let ks = map (key_of req.displayed_model) hashes in
    let found : lookup req.request_id c'.request_to_blocks ≡ some ks = rw booked (
      lookup-insert req.request_id req.request_id ks c.request_to_blocks
      ∙ rw (beq_refl req.request_id)) in
    ap (λ p. p.0) (get_block_info-refs _ k (finish_request-Inv c' req.request_id now h').0)
    ∙ ap (λ m. refs m k) (finish_request-requests c' req.request_id now h' on')
    ∙ omega (
      arith,
      refs-erase req.request_id c'.request_to_blocks k found,
      ap (λ m. refs m k) booked,
      refs-insert req.request_id ks c.request_to_blocks k new,
    )
    ∙ sym (ap (λ p. p.0) (get_block_info-refs c k h))

-- No cached block stands behind one that is not cached.
abbrev pub IsLeading : BlockCache → String → List ℕ → Type 0
IsLeading c model [] = Unit
IsLeading c model (h ∷ hs) =
    (cached c (key_of model h) ≡ false → cached_total c model hs ≡ 0) × IsLeading c model hs

prefix-total :
    (c : BlockCache) (model : String) (hs : List ℕ)
    → IsLeading c model hs
    → cached_total c model hs ≡ cached_prefix c hs model
unfolding cached_prefix
prefix-total c model [] d = refl
prefix-total c model (h ∷ hs) d = ground (arith, prefix-total c model hs d.1)

-- An enabled cache answers a request that it admits by the number of its blocks that were cached. If
-- these are its first blocks, that is what countCachedBlockPrefix counted before.
pub start_request-count_cached_block_prefix :
    (c : BlockCache) (req : Request) (hashes : List ℕ) (block_tokens : List (List ℕ))
    (clock : ℕ → ℕ) (n : ℕ)
    → c.disabled ≡ false
    → (start_request c req hashes block_tokens clock).1 ≡ ok n
    → (n ≡ cached_total c req.displayed_model hashes)
      × (IsLeading c req.displayed_model hashes
          → n ≡ count_cached_block_prefix c hashes req.displayed_model)
unfolding count_cached_block_prefix
start_request-count_cached_block_prefix c req hashes block_tokens clock n on =
    start_request_cases c req hashes block_tokens clock
      (λ x.
        x.1 ≡ ok n
        → (n ≡ cached_total c req.displayed_model hashes)
          × (IsLeading c req.displayed_model hashes
              → n ≡ (if c.disabled then 0 else cached_prefix c hashes req.displayed_model)))
      (λ e q. cc) (λ e q. cc)
      (λ a q.
        let total : n ≡ cached_total c req.displayed_model hashes =
          omega (arith, classify-total c req.displayed_model 0 hashes, num q) in
        (total, λ l. ground (arith, total, on, prefix-total c req.displayed_model hashes l)))
  where
    num : {a : ℕ} → ◌≡◌ {A = Result CacheError ℕ} (ok a) (ok n) → a ≡ n
    num q = cc
