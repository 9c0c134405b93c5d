-- ===== src/BlockCache/Start/Preserves.antt =====
-- startRequest (pkg/kvcache/block_cache.go) keeps the invariant of the cache.
use llm_d_inference_sim.BlockCache.{
  BlockCache, BlockKey, Request, block_key_comparable, key_of, emit,
}
use llm_d_inference_sim.BlockCache.Invariant.{
  Core, refs, Inv, refs-insert, plus, plus-count, SameMaps, report_usage-SameMaps, Core-transfer,
}
use llm_d_inference_sim.BlockCache.Evict.Choice.{Before}
use llm_d_inference_sim.BlockCache.Start.{
  Classified, Adding, classify, reuse_all, revive_all, add_blocks, emit_store, parent_hash_of,
  admit, start_request,
}
use llm_d_inference_sim.BlockCache.Start.Cases.{start_request_cases}
use llm_d_inference_sim.BlockCache.Start.Loops.{
  Grown, Grown-trans, reuse_all-Grown, reuse_all-unused, revive_all-Grown, add_blocks-Grown, absent,
}
use llm_d_inference_sim.BlockCache.Start.Classify.{added, classify-count, classify-kinds}
use llm_d_inference_sim.Common.Maps.{lookup, insert, insert-IsMap}
use llm_d_inference_sim.Common.{
  ℕ, ◌+◌, ◌≤◌, ◌<◌, ◌≡◌, refl, ap, ◌∙◌, false, List, [], map, Option, none, some, length, arith,
  count, Distinct, count_le_one, string_comparable, ok, ◌⊎◌, inl, inr,
}

emit_store-SameMaps :
    (req : Request) (parent : Option ℕ) (a : Adding) → SameMaps a.cache (emit_store req parent a)
unfolding emit_store emit
emit_store-SameMaps req parent a = ground arith

module _ (c : BlockCache) (req : Request) (hashes : List ℕ) (h : Inv c) where
  keys : List BlockKey
  keys = map (key_of req.displayed_model) hashes

  cl : Classified
  cl = classify c req.displayed_model 0 hashes

  module _ (d : Distinct keys) where
    reused :
        Grown
          (plus cl.block_already_in_use (refs c.request_to_blocks))
          0
          c
          (reuse_all c cl.block_already_in_use)
    unfolding cl
    reused =
        reuse_all-Grown cl.block_already_in_use h.core
          (λ j p. ground (arith, h.core.counted j, classify-kinds c req.displayed_model 0 hashes j))

    count_limit :
        (j : BlockKey)
        → count j cl.block_already_in_use + count j cl.block_to_move_to_used + count j (added cl)
          ≤ 1
    unfolding cl keys
    count_limit j =
        omega (arith, classify-count c req.displayed_model 0 hashes j, count_le_one j keys d)

    revived :
        Grown
          (plus cl.block_to_move_to_used (plus cl.block_already_in_use (refs c.request_to_blocks)))
          (length cl.block_to_move_to_used)
          c
          (revive_all (reuse_all c cl.block_already_in_use) cl.block_to_move_to_used)
    unfolding cl
    revived = Grown-trans (omega arith) reused (
        revive_all-Grown cl.block_to_move_to_used reused.core (λ j. omega (arith, count_limit j))
          (λ j p.
            rw (reuse_all-unused cl.block_already_in_use c)
              ((classify-kinds c req.displayed_model 0 hashes j).1 p)))

    fresh :
        (j : BlockKey)
        → 0 < count j (added cl)
        → plus cl.block_to_move_to_used (plus cl.block_already_in_use (refs c.request_to_blocks)) j
          ≡ 0
    unfolding cl
    fresh j p = ground (
      arith,
      count_limit j,
      h.core.counted j,
      classify-kinds c req.displayed_model 0 hashes j,
      plus-count cl.block_to_move_to_used (plus cl.block_already_in_use (refs c.request_to_blocks))
          j,
      plus-count cl.block_already_in_use (refs c.request_to_blocks) j,
    )

    module _ (block_tokens : List (List ℕ)) (clock : ℕ → ℕ)
        (past : (i : ℕ) → Before c (clock i)) where
      -- The local variable of `admit` after the loops.
      filled : Adding
      unfolding cl
      filled =
          add_blocks block_tokens clock
            (record {
              cache = revive_all (reuse_all c cl.block_already_in_use) cl.block_to_move_to_used;
              hashes = [];
              tokens = [];
            })
            cl.blocks_to_add

      module _
          (room : length c.used_blocks + length cl.blocks_to_add + length cl.block_to_move_to_used
            ≤ c.max_blocks) where
        filled-Grown :
            Grown
              (plus (added cl) (
                plus cl.block_to_move_to_used
                  (plus cl.block_already_in_use (refs c.request_to_blocks))))
              (length cl.block_to_move_to_used + length cl.blocks_to_add)
              c
              filled.cache
        unfolding cl filled
        filled-Grown = Grown-trans refl revived (
            add_blocks-Grown block_tokens clock cl.blocks_to_add _ revived.core
              (λ j. omega (arith, count_limit j))
              (λ j p. (
                fresh j p,
                absent c.unused_blocks _ j revived.fewer
                    ((classify-kinds c req.displayed_model 0 hashes j).2 p).1,
              ))
              (λ i k t e. past i k t (revived.fewer k t e))
              (omega (arith, revived.more_used, revived.max_same)))

        -- The cache of `admit` before the usage is reported.
        booked : BlockCache
        unfolding keys filled
        booked =
            let c₂ = emit_store req (parent_hash_of hashes cl.last_cached_idx) filled in
            record c₂ { request_to_blocks = insert req.request_id keys c₂.request_to_blocks }

        admit-SameMaps : SameMaps booked (admit c req hashes block_tokens clock cl)
        unfolding admit booked filled keys
        admit-SameMaps = report_usage-SameMaps booked

        stored :
            SameMaps filled.cache (emit_store req (parent_hash_of hashes cl.last_cached_idx) filled)
        stored = emit_store-SameMaps req (parent_hash_of hashes cl.last_cached_idx) filled

        admit-Core :
            Core
              (plus (added cl) (
                plus cl.block_to_move_to_used
                  (plus cl.block_already_in_use (refs c.request_to_blocks))))
              (admit c req hashes block_tokens clock cl)
        unfolding booked
        admit-Core =
            Core-transfer (λ k. refl) (admit-SameMaps.used_same ∙ stored.used_same)
              (admit-SameMaps.unused_same ∙ stored.unused_same)
              (admit-SameMaps.tokens_same ∙ stored.tokens_same)
              (admit-SameMaps.max_same ∙ stored.max_same) filled-Grown.core

        admit-requests :
            (admit c req hashes block_tokens clock cl).request_to_blocks
            ≡ insert req.request_id keys c.request_to_blocks
        unfolding booked
        admit-requests =
            admit-SameMaps.requests_same
            ∙ ap (insert req.request_id keys) (stored.requests_same ∙ filled-Grown.requests_same)

        admit-Inv :
            lookup req.request_id c.request_to_blocks ≡ none
            → Inv (admit c req hashes block_tokens clock cl)
        admit-Inv new = record {
          core = Core-transfer same refl refl refl refl admit-Core;
          requests_map =
              rw admit-requests
                (insert-IsMap req.request_id keys c.request_to_blocks h.requests_map);
        }
          where
            same :
                (k : BlockKey)
                → plus
                    (added cl)
                    (plus cl.block_to_move_to_used
                      (plus cl.block_already_in_use (refs c.request_to_blocks)))
                    k
                  ≡ refs (admit c req hashes block_tokens clock cl).request_to_blocks k
            same k =
                rw (admit-requests, refs-insert req.request_id keys c.request_to_blocks k new)
                  (unfold cl keys in
                    omega (
                      arith,
                      classify-count c req.displayed_model 0 hashes k,
                      plus-count (added cl)
                          (plus cl.block_to_move_to_used
                            (plus cl.block_already_in_use (refs c.request_to_blocks)))
                          k,
                      plus-count cl.block_to_move_to_used
                          (plus cl.block_already_in_use (refs c.request_to_blocks)) k,
                      plus-count cl.block_already_in_use (refs c.request_to_blocks) k,
                    ))

        admit-disabled : (admit c req hashes block_tokens clock cl).disabled ≡ c.disabled
        unfolding booked
        admit-disabled =
            admit-SameMaps.disabled_same ∙ stored.disabled_same ∙ filled-Grown.disabled_same

        admit-fewer :
            (k : BlockKey) (t : ℕ)
            → lookup k (admit c req hashes block_tokens clock cl).unused_blocks ≡ some t
            → lookup k c.unused_blocks ≡ some t
        unfolding booked
        admit-fewer k t e =
            filled-Grown.fewer k t (rw (admit-SameMaps.unused_same ∙ stored.unused_same) at e)

-- A call of startRequest keeps the invariant, also when it is refused, if the request's blocks are
-- distinct and the clock is past the last use of every unused block.
pub start_request-Inv :
    (c : BlockCache) (req : Request) (hashes : List ℕ) (block_tokens : List (List ℕ))
    (clock : ℕ → ℕ)
    → Inv c
    → Distinct (map (key_of req.displayed_model) hashes)
    → ((i : ℕ) → Before c (clock i))
    → Inv (start_request c req hashes block_tokens clock).0
unfolding keys
start_request-Inv c req hashes block_tokens clock h d past =
    start_request_cases c req hashes block_tokens clock (λ x. Inv x.0) (λ e. h) (λ e. h)
      (λ a. unfold cl in admit-Inv c req hashes h d block_tokens clock past a.room a.new)

-- A call of startRequest makes no block unused.
pub start_request-fewer :
    (c : BlockCache) (req : Request) (hashes : List ℕ) (block_tokens : List (List ℕ))
    (clock : ℕ → ℕ)
    → Inv c
    → Distinct (map (key_of req.displayed_model) hashes)
    → ((i : ℕ) → Before c (clock i))
    → (k : BlockKey) (t : ℕ)
    → lookup k (start_request c req hashes block_tokens clock).0.unused_blocks ≡ some t
    → lookup k c.unused_blocks ≡ some t
unfolding keys
start_request-fewer c req hashes block_tokens clock h d past k t =
    start_request_cases c req hashes block_tokens clock
      (λ x. lookup k x.0.unused_blocks ≡ some t → lookup k c.unused_blocks ≡ some t) (λ e q. q)
      (λ e q. q) (λ a. unfold cl in admit-fewer c req hashes h d block_tokens clock past a.room k t)

-- What a call that succeeds on an enabled cache leaves behind besides the blocks.
pub start_request-requests :
    (c : BlockCache) (req : Request) (hashes : List ℕ) (block_tokens : List (List ℕ))
    (clock : ℕ → ℕ)
    → Inv c
    → Distinct (map (key_of req.displayed_model) hashes)
    → ((i : ℕ) → Before c (clock i))
    → (n : ℕ) → c.disabled ≡ false
    → (start_request c req hashes block_tokens clock).1 ≡ ok n
    → ((start_request c req hashes block_tokens clock).0.request_to_blocks
        ≡ insert req.request_id (map (key_of req.displayed_model) hashes) c.request_to_blocks)
      × ((start_request c req hashes block_tokens clock).0.disabled ≡ false)
      × (lookup req.request_id c.request_to_blocks ≡ none)
unfolding keys
start_request-requests c req hashes block_tokens clock h d past n on =
    start_request_cases c req hashes block_tokens clock
      (λ x.
        x.1 ≡ ok n
        → (x.0.request_to_blocks
            ≡ insert req.request_id (map (key_of req.displayed_model) hashes) c.request_to_blocks)
          × (x.0.disabled ≡ false)
          × (lookup req.request_id c.request_to_blocks ≡ none))
      (λ e q. cc) (λ e q. cc)
      (λ a q.
        unfold cl in
        (
          admit-requests c req hashes h d block_tokens clock past a.room,
          admit-disabled c req hashes h d block_tokens clock past a.room ∙ on,
          a.new,
        ))

-- The running requests after a call: as before, or with the new request.
pub start_request-booked :
    (c : BlockCache) (req : Request) (hashes : List ℕ) (block_tokens : List (List ℕ))
    (clock : ℕ → ℕ)
    → Inv c
    → Distinct (map (key_of req.displayed_model) hashes)
    → ((i : ℕ) → Before c (clock i))
    → let c' = (start_request c req hashes block_tokens clock).0 in
      (c'.request_to_blocks ≡ c.request_to_blocks)
      ⊎ ((c'.request_to_blocks
            ≡ insert req.request_id (map (key_of req.displayed_model) hashes) c.request_to_blocks)
          × (lookup req.request_id c.request_to_blocks ≡ none))
unfolding keys
start_request-booked c req hashes block_tokens clock h d past =
    start_request_cases c req hashes block_tokens clock
      (λ x.
        (x.0.request_to_blocks ≡ c.request_to_blocks)
        ⊎ ((x.0.request_to_blocks
              ≡ insert req.request_id (map (key_of req.displayed_model) hashes) c.request_to_blocks)
            × (lookup req.request_id c.request_to_blocks ≡ none)))
      (λ e. inl refl) (λ e. inl refl)
      (λ a.
        unfold cl in inr (admit-requests c req hashes h d block_tokens clock past a.room, a.new))
