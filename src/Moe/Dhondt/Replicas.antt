-- ===== src/Moe/Dhondt/Replicas.antt =====
-- The replica counts of dhondtPlaceOneLayer of pkg/simulator/moe.go.
use llm_d_inference_sim.Moe.Dhondt.{
  ones, increment_at, better, best_expert, allocate, dhondt_replica_counts,
}
use llm_d_inference_sim.Common.{
  sum, ℕ, zero, suc, ◌+◌, ◌-◌, ◌*◌, ◌%◌, ◌≤◌, ◌<◌, ◌≡◌, ◌⊎◌, refl, sym, ap, ◌∙◌, Bool, List, [],
  ◌∷◌, Option, none, some, leb, length, get_elem?, All, nat_comparable, ok, arith, Bool-cases, inl,
  inr,
}
use native.Mathlib.Nat.{suc-mul}

-- At least one replica and at most one per rank.
abbrev pub IsAllowed : ℕ → ℕ → Type 0
IsAllowed num_gpus n = (1 ≤ n) × (n ≤ num_gpus)

increment_at-IsAllowed :
    (num_gpus i : ℕ) (ns : List ℕ) {n : ℕ}
    → get_elem? ns i ≡ some n
    → n < num_gpus
    → All (IsAllowed num_gpus) ns
    → All (IsAllowed num_gpus) (increment_at i ns)
      × (sum (increment_at i ns) ≡ suc (sum ns))
      × (length (increment_at i ns) ≡ length ns)
unfolding increment_at
increment_at-IsAllowed num_gpus i [] e l h = cc
increment_at-IsAllowed num_gpus zero (x ∷ ns) e l h =
    ((ground (arith, e, l, h.0), h.1), omega arith, refl)
increment_at-IsAllowed num_gpus (suc i) (x ∷ ns) e l h =
    let (allowed, total, size) = increment_at-IsAllowed num_gpus i ns e l h.1 in
    ((h.0, allowed), omega (arith, total), ap suc size)

all_full : (num_gpus : ℕ) (ns : List ℕ) → All (λ n. num_gpus ≤ n) ns → length ns * num_gpus ≤ sum ns
all_full num_gpus [] h = omega arith
all_full num_gpus (n ∷ ns) h =
    omega (arith, h.0, all_full num_gpus ns h.1, suc-mul (length ns) num_gpus)

module _ {Load Score : Type 0} (score : Load → ℕ → Score) (greater : Score → Score → Bool) where
  better-some :
      (b : Option (ℕ × Score)) (expert : ℕ) (s : Score)
      → (i : ℕ) × (t : Score) × (better score greater b expert s ≡ some (i, t))
        × ((i ≡ expert) ⊎ (b ≡ some (i, t)))
  better-some none expert s = (expert, s, refl, inl refl)
  better-some (some (best, t)) expert s = elim (Bool-cases (greater s t)) [
    | inl g ↦ (expert, s, rw g refl, inl refl)
    | inr g ↦ (best, t, rw g refl, inr refl)
  ]

  -- The answer of the inner loop: all counts are at the limit, or a count below it.
  abbrev Searched : ℕ → ℕ → List ℕ → Option (ℕ × Score) → Option (ℕ × Score) → Type 0
  Searched num_gpus first ns b none = (b ≡ none) × All (λ n. num_gpus ≤ n) ns
  Searched num_gpus first ns b (some (i, s)) =
      (b ≡ some (i, s))
      ⊎ ((j : ℕ) × (n : ℕ) × (i ≡ first + j) × (get_elem? ns j ≡ some n) × (n < num_gpus))

  skipped :
      (num_gpus first n : ℕ) (ns : List ℕ) (b o : Option (ℕ × Score))
      → num_gpus ≤ n
      → Searched num_gpus (suc first) ns b o
      → Searched num_gpus first (n ∷ ns) b o
  skipped num_gpus first n ns b none full h = (h.0, (full, h.1))
  skipped num_gpus first n ns b (some (i, s)) full (inl e) = inl e
  skipped num_gpus first n ns b (some (i, s)) full (inr (j, m, at_j, found, below)) =
      inr (suc j, m, omega (arith, at_j), found, below)

  weighed :
      (num_gpus first n : ℕ) (ns : List ℕ) (b : Option (ℕ × Score)) (t : Score)
      (o : Option (ℕ × Score))
      → n < num_gpus
      → Searched num_gpus (suc first) ns (better score greater b first t) o
      → Searched num_gpus first (n ∷ ns) b o
  weighed num_gpus first n ns b t none below h = let (i, u, e, _) = better-some b first t in cc
  weighed num_gpus first n ns b t (some (i, s)) below (inl same) =
      let (i', u, e, way) = better-some b first t in
      let pair : some (i', u) ≡ some (i, s) = sym e ∙ same in
      elim way [
        | inl here ↦ inr (0, n, ground (arith, pair, here), refl, below)
        | inr before ↦ inl (before ∙ pair)
      ]
  weighed num_gpus first n ns b t (some (i, s)) below (inr (j, m, at_j, found, less)) =
      inr (suc j, m, omega (arith, at_j), found, less)

  best_expert-Searched :
      (num_gpus first : ℕ) (loads : List Load) (ns : List ℕ) (b : Option (ℕ × Score))
      → length loads ≡ length ns
      → Searched num_gpus first ns b (best_expert score greater num_gpus first loads ns b)
  unfolding best_expert
  best_expert-Searched num_gpus first [] [] none e = (refl, tt)
  best_expert-Searched num_gpus first [] [] (some x) e = inl refl
  best_expert-Searched num_gpus first [] (n ∷ ns) b e = absurd (omega (arith, e))
  best_expert-Searched num_gpus first (load ∷ loads) [] b e = absurd (omega (arith, e))
  best_expert-Searched num_gpus first (load ∷ loads) (n ∷ ns) b e =
      let rest = λ (b' : Option (ℕ × Score)).
        best_expert-Searched num_gpus (suc first) loads ns b' (omega (arith, e)) in
      elim (Bool-cases (leb num_gpus n)) [
        | inl full ↦ rw full (skipped num_gpus first n ns b _ (ground (arith, full)) (rest b))
        | inr small ↦ rw small (weighed num_gpus first n ns b _ _ (ground (arith, small)) (rest _))
      ]

  -- The outer loop gives out all remaining slots.
  allocate-total :
      (num_gpus remaining : ℕ) (loads : List Load) (ns : List ℕ)
      → length loads ≡ length ns
      → All (IsAllowed num_gpus) ns
      → sum ns + remaining ≤ length ns * num_gpus
      → (counts : List ℕ) × (allocate score greater num_gpus loads remaining ns ≡ ok counts)
        × (length counts ≡ length loads)
        × All (IsAllowed num_gpus) counts
        × (sum counts ≡ sum ns + remaining)
  unfolding allocate
  allocate-total num_gpus zero loads ns e h room = (ns, refl, sym e, h, omega arith)
  allocate-total num_gpus (suc remaining) loads ns e h room =
      go (best_expert score greater num_gpus 0 loads ns none) refl
        (best_expert-Searched num_gpus 0 loads ns none e)
        (λ ns'. allocate-total num_gpus remaining loads ns')
    where
      go :
          (o : Option (ℕ × Score))
          → best_expert score greater num_gpus 0 loads ns none ≡ o
          → Searched num_gpus 0 ns none o
          → ((ns' : List ℕ)
              → length loads ≡ length ns'
              → All (IsAllowed num_gpus) ns'
              → sum ns' + remaining ≤ length ns' * num_gpus
              → (counts : List ℕ) × (allocate score greater num_gpus loads remaining ns'
                  ≡ ok counts)
                × (length counts ≡ length loads)
                × All (IsAllowed num_gpus) counts
                × (sum counts ≡ sum ns' + remaining))
          → (counts : List ℕ) × (allocate score greater num_gpus loads (suc remaining) ns
              ≡ ok counts)
            × (length counts ≡ length loads)
            × All (IsAllowed num_gpus) counts
            × (sum counts ≡ sum ns + suc remaining)
      go none found (_, full) again = absurd (omega (arith, room, all_full num_gpus ns full))
      go (some (i, s)) found (inl x) again = cc
      go (some (i, s)) found (inr (j, n, at_j, held, below)) again =
          let place : i ≡ j = omega (arith, at_j) in
          let (allowed, total, size) =
            increment_at-IsAllowed num_gpus i ns (rw place held) below h in
          let (counts, done, long, fine, all) =
            again (increment_at i ns) (e ∙ sym size) allowed
              (rw size (omega (arith, room, total))) in
          (counts, rw (found, allocate) done, long, fine, omega (arith, all, total))

  -- With at least one rank, as many slots as experts at least and at most as many as experts on every
  -- rank, and slots divisible by the number of ranks, the replica counts are given out without a panic,
  -- whatever the scores: one count for each expert, each between one and the number of ranks, together
  -- all slots.
  pub dhondt_replica_counts-total :
      (loads : List Load) (physical_slots num_gpus : ℕ)
      → 1 ≤ num_gpus
      → length loads ≤ physical_slots
      → physical_slots ≤ length loads * num_gpus
      → physical_slots % num_gpus ≡ 0
      → (counts : List ℕ) × (dhondt_replica_counts score greater loads physical_slots num_gpus
          ≡ ok counts)
        × (length counts ≡ length loads)
        × All (IsAllowed num_gpus) counts
        × (sum counts ≡ physical_slots)
  unfolding dhondt_replica_counts
  dhondt_replica_counts-total loads physical_slots num_gpus a b c whole =
      let n = length loads in
      let (counts, done, long, fine, all) =
        allocate-total num_gpus (physical_slots - n) loads (ones n) (sym (length-ones n))
          (ones-IsAllowed n) (rw (length-ones n) (omega (arith, sum-ones n, b, c))) in
      (counts, ground (arith, b, c, whole, done), long, fine, omega (arith, all, sum-ones n, b))
    where
      length-ones : (n : ℕ) → length (ones n) ≡ n
      length-ones zero = refl
      length-ones (suc n) = ap suc (length-ones n)

      sum-ones : (n : ℕ) → sum (ones n) ≡ n
      sum-ones zero = refl
      sum-ones (suc n) = omega (arith, sum-ones n)

      ones-IsAllowed : (n : ℕ) → All (IsAllowed num_gpus) (ones n)
      ones-IsAllowed zero = tt
      ones-IsAllowed (suc n) = ((omega arith, a), ones-IsAllowed n)
