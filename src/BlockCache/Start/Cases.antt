-- ===== src/BlockCache/Start/Cases.antt =====
-- The guards of startRequest (pkg/kvcache/block_cache.go).
use llm_d_inference_sim.BlockCache.{BlockCache, Request, CacheError}
use llm_d_inference_sim.BlockCache.Start.{classify, admit, start_request}
use llm_d_inference_sim.Common.Maps.{lookup, has}
use llm_d_inference_sim.Common.{
  ℕ, ◌+◌, ◌≤◌, ◌≡◌, true, false, List, none, Result, ok, err, length, arith, Bool-cases, inl, inr,
  string_comparable, ltb, ◌==◌, nat_comparable, Bool,
}

-- What holds when a request passes every guard.
pub record Admitted (c : BlockCache) (req : Request) (hashes : List ℕ)
    (block_tokens : List (List ℕ)) : Type 0 where
  pub enabled : c.disabled ≡ false
  pub new : lookup req.request_id c.request_to_blocks ≡ none
  pub paired : length hashes ≡ length block_tokens
  pub room :
      let cl = classify c req.displayed_model 0 hashes in
      length c.used_blocks + length cl.blocks_to_add + length cl.block_to_move_to_used
      ≤ c.max_blocks

-- A call is ignored by a disabled cache, refused with the cache unchanged, or admitted.
pub start_request_cases {ℓ} :
    (c : BlockCache) (req : Request) (hashes : List ℕ) (block_tokens : List (List ℕ))
    (clock : ℕ → ℕ) (P : BlockCache × Result CacheError ℕ → Type ℓ)
    → (c.disabled ≡ true → P (c, ok 0))
    → ((e : CacheError) → P (c, err e))
    → (Admitted c req hashes block_tokens
        → let cl = classify c req.displayed_model 0 hashes in
          P (
            admit c req hashes block_tokens clock cl,
            ok (length cl.block_already_in_use + length cl.block_to_move_to_used),
          ))
    → P (start_request c req hashes block_tokens clock)
unfolding start_request
start_request_cases c req hashes block_tokens clock P off refused admitted =
    elim (Bool-cases c.disabled) [
      | inl e ↦ simp e (off e)
      | inr e ↦ simp e (elim (Bool-cases (has req.request_id c.request_to_blocks)) [
        | inl f ↦ rw f (refused _)
        | inr f ↦ rw f (elim (Bool-cases (length hashes == length block_tokens)) [
          | inr g ↦ rw g (refused _)
          | inl g ↦ rw g (elim (Bool-cases over) [
            | inl w ↦ rw w (refused _)
            | inr w ↦ rw w (
                admitted (record {
                  enabled = e;
                  new = ground (arith, f);
                  paired = ground (arith, g);
                  room = ground (arith, w);
                }))
          ])
        ])
      ])
    ]
  where
    over : Bool
    over = ltb c.max_blocks (
        length c.used_blocks
        + length (classify c req.displayed_model 0 hashes).blocks_to_add
        + length (classify c req.displayed_model 0 hashes).block_to_move_to_used)
