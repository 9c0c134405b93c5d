-- ===== src/BlockCache/Finish/Preserves.antt =====
-- finishRequest (pkg/kvcache/block_cache.go) keeps the invariant of the cache and reports no error.
use llm_d_inference_sim.BlockCache.{
  BlockCache, BlockKey, CacheError, block_key_beq_iff, block_key_comparable,
}
use llm_d_inference_sim.BlockCache.Invariant.{
  Core, bump, refs, Inv, refs-erase, plus, plus-count, report_usage-SameMaps, Core-transfer,
}
use llm_d_inference_sim.BlockCache.Finish.{
  release, release_all, finished, finish_result, finish_request,
}
use llm_d_inference_sim.Common.Maps.{
  lookup, insert, erase, lookup-insert, lookup-erase, insert-IsMap, erase-IsMap, length-insert_new,
  length-insert_old, length-erase, erase_absent,
}
use llm_d_inference_sim.Common.{
  ℕ, suc, ◌+◌, ◌-◌, ◌≤◌, ◌<◌, ◌≡◌, ◌⊎◌, refl, sym, ap, ◌∙◌, true, false, List, [], ◌∷◌, none, some,
  length, ltb, arith, beq_refl, ok, Result, String, string_comparable, Bool-cases, inl, inr,
  Option-cases,
}

-- The two ways in which a reference to a block is given up.
drop : BlockCache → BlockKey → ℕ → BlockCache
drop c k n = record c { used_blocks = insert k n c.used_blocks }

retire : ℕ → BlockCache → BlockKey → BlockCache
retire now c k = record c {
  unused_blocks = insert k now c.unused_blocks;
  used_blocks = erase k c.used_blocks;
}

-- From `c` to `c'` references are given up at time `now`: no block leaves the cache.
pub record Shrunk (r : BlockKey → ℕ) (now : ℕ) (c c' : BlockCache) : Type 0 where
  pub core : Core r c'
  pub requests_same : c'.request_to_blocks ≡ c.request_to_blocks
  pub max_same : c'.max_blocks ≡ c.max_blocks
  pub disabled_same : c'.disabled ≡ c.disabled
  pub times :
      (j : BlockKey) (t : ℕ)
      → lookup j c'.unused_blocks ≡ some t
      → (t ≡ now) ⊎ (lookup j c.unused_blocks ≡ some t)

held :
    (r : BlockKey → ℕ) (c : BlockCache) (k : BlockKey)
    → Core (bump k r) c
    → lookup k c.used_blocks ≡ some (suc (r k))
held r c k h = ground (arith, h.counted k, beq_refl k)

module _ {r : BlockKey → ℕ} (now : ℕ) (c : BlockCache) (k : BlockKey) (h : Core (bump k r) c) where
  drop-Shrunk : (n : ℕ) → n ≡ r k → 0 < n → Shrunk r now c (drop c k n)
  unfolding drop
  drop-Shrunk n e p = record {
    core = record {
      used_map = insert-IsMap k n c.used_blocks h.used_map;
      unused_map = h.unused_map;
      tokens_map = h.tokens_map;
      counted = λ j.
          ground (arith, h.counted j, block_key_beq_iff k j, lookup-insert k j n c.used_blocks);
      apart = λ j q. ground (arith, h.apart j);
      backed = λ j. ground (arith, h.backed j, block_key_beq_iff k j);
      bounded =
          ground
            (arith, h.bounded, length-insert_old k n {w = suc (r k)} c.used_blocks, held r c k h);
    };
    requests_same = refl;
    max_same = refl;
    disabled_same = refl;
    times = λ j t q. inr q;
  }

  retire-Shrunk : r k ≡ 0 → Shrunk r now c (retire now c k)
  unfolding retire
  retire-Shrunk p = record {
    core = record {
      used_map = erase-IsMap k c.used_blocks h.used_map;
      unused_map = insert-IsMap k now c.unused_blocks h.unused_map;
      tokens_map = h.tokens_map;
      counted = λ j.
          ground
            (arith, h.counted j, block_key_beq_iff k j, lookup-erase k j c.used_blocks h.used_map);
      apart = λ j q.
          ground (arith, h.apart j, block_key_beq_iff k j, lookup-insert k j now c.unused_blocks);
      backed = λ j.
          ground (arith, h.backed j, block_key_beq_iff k j, lookup-insert k j now c.unused_blocks);
      bounded = bound;
    };
    requests_same = refl;
    max_same = refl;
    disabled_same = refl;
    times = λ j t e. ground (arith, lookup-insert k j now c.unused_blocks);
  }
    where
      idle : lookup k c.unused_blocks ≡ none
      idle = elim (Option-cases (lookup k c.unused_blocks)) [
        | inl e ↦ e
        | inr (t, e) ↦ absurd (ground (arith, h.apart k, beq_refl k, e))
      ]

      bound : length (erase k c.used_blocks) + length (insert k now c.unused_blocks) ≤ c.max_blocks
      bound = omega (
        arith,
        h.bounded,
        length-erase k c.used_blocks (held r c k h),
        length-insert_new k now c.unused_blocks idle,
      )

  release-Shrunk :
      (errs : List BlockKey)
      → Shrunk r now c (release now c errs k).0 × ((release now c errs k).1 ≡ errs)
  unfolding release
  release-Shrunk errs =
      rw (held r c k h, release)
        (elim (Bool-cases (ltb 1 (suc (r k)))) [
          | inl e ↦
              rw e (unfold drop in drop-Shrunk (suc (r k) - 1) (omega arith) (ground arith), refl)
          | inr e ↦ rw e (unfold retire in retire-Shrunk (ground arith), refl)
        ])

Shrunk-trans :
    {r r' : BlockKey → ℕ} {now : ℕ} {a b c : BlockCache}
    → Shrunk r now a b
    → Shrunk r' now b c
    → Shrunk r' now a c
Shrunk-trans f g = record {
  core = g.core;
  requests_same = g.requests_same ∙ f.requests_same;
  max_same = g.max_same ∙ f.max_same;
  disabled_same = g.disabled_same ∙ f.disabled_same;
  times = λ j t e. elim (g.times j t e) [ inl q ↦ inl q | inr q ↦ f.times j t q ];
}

release_all-Shrunk :
    (ks : List BlockKey) {r : BlockKey → ℕ} (now : ℕ) (c : BlockCache) (errs : List BlockKey)
    → Core (plus ks r) c
    → Shrunk r now c (release_all now c errs ks).0 × ((release_all now c errs ks).1 ≡ errs)
unfolding release_all
release_all-Shrunk [] now c errs h = (
  record {
    core = h;
    requests_same = refl;
    max_same = refl;
    disabled_same = refl;
    times = λ j t e. inr e;
  },
  refl,
)
release_all-Shrunk (k ∷ ks) {r} now c errs h =
    let turned : Core (bump k (plus ks r)) c =
      Core-transfer (λ j. omega (arith, plus-count ks r j, plus-count ks (bump k r) j)) refl refl
        refl refl h in
    let (first, same) = release-Shrunk now c k turned errs in
    let (rest, same') = release_all-Shrunk ks now _ (release now c errs k).1 first.core in
    (Shrunk-trans first rest, same' ∙ same)

module _ (c : BlockCache) (id : String) (now : ℕ) (ks : List BlockKey) (h : Inv c)
    (e : lookup id c.request_to_blocks ≡ some ks) where
  owned : Core (plus ks (refs (erase id c.request_to_blocks))) c
  owned =
      Core-transfer
        (λ j. omega (
          arith,
          refs-erase id c.request_to_blocks j e,
          plus-count ks (refs (erase id c.request_to_blocks)) j,
        ))
        refl refl refl refl h.core

  released : Shrunk (refs (erase id c.request_to_blocks)) now c (release_all now c [] ks).0
  released = (release_all-Shrunk ks now c [] owned).0

  released_errs : (release_all now c [] ks).1 ≡ []
  released_errs = (release_all-Shrunk ks now c [] owned).1

  finished-requests :
      (finished (release_all now c [] ks).0 id).request_to_blocks ≡ erase id c.request_to_blocks
  unfolding finished
  finished-requests =
      ap (erase id)
        ((report_usage-SameMaps (release_all now c [] ks).0).requests_same ∙ released.requests_same)

  finished-Shrunk :
      Shrunk
        (refs (erase id c.request_to_blocks))
        now
        c
        (record (finished (release_all now c [] ks).0 id) {
          request_to_blocks = c.request_to_blocks;
        })
  unfolding finished
  finished-Shrunk =
      let s = report_usage-SameMaps (release_all now c [] ks).0 in
      record {
        core =
            Core-transfer (λ j. refl) s.used_same s.unused_same s.tokens_same s.max_same
              released.core;
        requests_same = refl;
        max_same = s.max_same ∙ released.max_same;
        disabled_same = s.disabled_same ∙ released.disabled_same;
        times = λ j t q. released.times j t (rw s.unused_same at q);
      }

  finished-Inv : Inv (finished (release_all now c [] ks).0 id)
  finished-Inv = record {
    core = Core-transfer (λ j. rw finished-requests) refl refl refl refl finished-Shrunk.core;
    requests_map = rw finished-requests (erase-IsMap id c.request_to_blocks h.requests_map);
  }

-- Under the invariant a call does nothing, or releases every block of the request with no error.
pub finish_request_cases {ℓ} :
    (c : BlockCache) (id : String) (now : ℕ)
    (P : BlockCache × Result CacheError (Unit {0}) → Type ℓ)
    → Inv c
    → ((c.disabled ≡ true) ⊎ (lookup id c.request_to_blocks ≡ none) → P (c, ok tt))
    → ((ks : List BlockKey)
        → c.disabled ≡ false
        → lookup id c.request_to_blocks ≡ some ks
        → P (finished (release_all now c [] ks).0 id, ok tt))
    → P (finish_request c id now)
unfolding finish_request finish_result
finish_request_cases c id now P h nothing found = elim (Bool-cases c.disabled) [
  | inl off ↦ simp off (nothing (inl off))
  | inr on ↦ simp on (elim (Option-cases (lookup id c.request_to_blocks)) [
    | inl e ↦ simp e (nothing (inr e))
    | inr (ks, e) ↦ simp (e, released_errs c id now ks h e) (found ks on e)
  ])
]

-- A call of finishRequest keeps the invariant, and under it the call never fails: every block of the
-- request is found in use.
pub finish_request-Inv :
    (c : BlockCache) (id : String) (now : ℕ)
    → Inv c
    → Inv (finish_request c id now).0 × ((finish_request c id now).1 ≡ ok tt)
finish_request-Inv c id now h =
    finish_request_cases c id now (λ x. Inv x.0 × (x.1 ≡ ok tt)) h (λ e. (h, refl))
      (λ ks on e. (finished-Inv c id now ks h e, refl))

-- A block that is unused after a call of finishRequest was so before, or became so at the call.
pub finish_request-times :
    (c : BlockCache) (id : String) (now : ℕ)
    → Inv c
    → (k : BlockKey) (t : ℕ) → lookup k (finish_request c id now).0.unused_blocks ≡ some t
    → (t ≡ now) ⊎ (lookup k c.unused_blocks ≡ some t)
finish_request-times c id now h k t =
    finish_request_cases c id now
      (λ x. lookup k x.0.unused_blocks ≡ some t → (t ≡ now) ⊎ (lookup k c.unused_blocks ≡ some t)) h
      (λ e q. inr q) (λ ks on e. (finished-Shrunk c id now ks h e).times k t)

-- On an enabled cache a call of finishRequest drops the request from the running ones.
pub finish_request-requests :
    (c : BlockCache) (id : String) (now : ℕ)
    → Inv c
    → c.disabled ≡ false
    → (finish_request c id now).0.request_to_blocks ≡ erase id c.request_to_blocks
finish_request-requests c id now h on =
    finish_request_cases c id now (λ x. x.0.request_to_blocks ≡ erase id c.request_to_blocks) h
      (λ e. elim e [ inl off ↦ cc | inr q ↦ sym (erase_absent id c.request_to_blocks q) ])
      (λ ks _ e. finished-requests c id now ks h e)
