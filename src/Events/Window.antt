-- ===== src/Events/Window.antt =====
-- The queue of published batches of pkg/kvcache/kv_events_replayer.go as a window on what was sent.
use llm_d_inference_sim.Events.Replay.{
  ReplayEntry, ReplayQueue, push, from_first, since, new_replay_queue,
}
use llm_d_inference_sim.Common.{
  ℕ, zero, suc, ◌-◌, ◌≤◌, ◌<◌, ◌≡◌, refl, sym, ap, ◌∙◌, List, [], ◌∷◌, ◌++◌, some, leb, length,
  if◌then◌else◌, nat_comparable, arith, All, All-append, Bool-cases, inl, inr, ltb, length-append,
}

abbrev pub drop {ℓ} : {A : Type ℓ} → ℕ → List A → List A
drop zero xs = xs
drop (suc n) [] = []
drop (suc n) (x ∷ xs) = drop n xs

-- The last `n` elements.
abbrev pub last_n {ℓ} : {A : Type ℓ} → ℕ → List A → List A
last_n n xs = drop (length xs - n) xs

module _ {ℓ} {A : Type ℓ} where
  drop-append : (n : ℕ) (xs ys : List A) → n ≤ length xs → drop n (xs ++ ys) ≡ drop n xs ++ ys
  drop-append zero xs ys h = refl
  drop-append (suc n) [] ys h = absurd (omega (arith, h))
  drop-append (suc n) (x ∷ xs) ys h = drop-append n xs ys (omega (arith, h))

  drop-step : (n : ℕ) (xs : List A) → n < length xs → (x : A) × (drop n xs ≡ x ∷ drop (suc n) xs)
  drop-step n [] h = absurd (omega (arith, h))
  drop-step zero (x ∷ xs) h = (x, refl)
  drop-step (suc n) (x ∷ xs) h = drop-step n xs (omega (arith, h))

  length-drop : (n : ℕ) (xs : List A) → length (drop n xs) ≡ length xs - n
  length-drop zero xs = omega arith
  length-drop (suc n) [] = omega arith
  length-drop (suc n) (x ∷ xs) = omega (arith, length-drop n xs)

-- Sequence numbers increase strictly.
abbrev pub IsSorted : {Payload : Type 0} → List (ReplayEntry Payload) → Type 0
IsSorted [] = Unit
IsSorted (x ∷ xs) = All (λ y. x.seq < y.seq) xs × IsSorted xs

-- The entries from a sequence number on.
abbrev pub newer : {Payload : Type 0} → ℕ → List (ReplayEntry Payload) → List (ReplayEntry Payload)
newer start [] = []
newer start (e ∷ es) = if leb start e.seq then e ∷ newer start es else newer start es

module _ {Payload : Type 0} where
  newer_all :
      (start : ℕ) (es : List (ReplayEntry Payload))
      → All (λ y. start ≤ y.seq) es
      → newer start es ≡ es
  newer_all start [] h = refl
  newer_all start (e ∷ es) h = ground (arith, h.0, newer_all start es h.1)

  All-later :
      (x : ReplayEntry Payload) (start : ℕ) (es : List (ReplayEntry Payload))
      → start ≤ x.seq
      → All (λ y. x.seq < y.seq) es
      → All (λ y. start ≤ y.seq) es
  All-later x start [] l h = tt
  All-later x start (e ∷ es) l h = (omega (arith, l, h.0), All-later x start es l h.1)

  from_first-newer :
      (start : ℕ) (es : List (ReplayEntry Payload))
      → IsSorted es
      → from_first start es ≡ newer start es
  unfolding from_first
  from_first-newer start [] h = refl
  from_first-newer start (e ∷ es) h = elim (Bool-cases (leb start e.seq)) [
    | inl l ↦
        rw l (ap (◌∷◌ e) (sym (newer_all start es (All-later e start es (ground (arith, l)) h.0))))
    | inr l ↦ rw l (from_first-newer start es h.1)
  ]

  IsSorted-drop : (n : ℕ) (es : List (ReplayEntry Payload)) → IsSorted es → IsSorted (drop n es)
  IsSorted-drop zero es h = h
  IsSorted-drop (suc n) [] h = tt
  IsSorted-drop (suc n) (e ∷ es) h = IsSorted-drop n es h.1

  -- A later entry may be added at the end.
  pub IsSorted-add :
      (es : List (ReplayEntry Payload)) (e : ReplayEntry Payload)
      → IsSorted es
      → All (λ y. y.seq < e.seq) es
      → IsSorted (es ++ e ∷ [])
  IsSorted-add [] e h l = (tt, tt)
  IsSorted-add (x ∷ es) e h l =
      (All-append (λ y. x.seq < y.seq) es (e ∷ []) h.0 (l.0, tt), IsSorted-add es e h.1 l.1)

-- A queue that can hold an entry and holds the last ones of those that were sent.
pub record Window {Payload : Type 0} (sent : List (ReplayEntry Payload)) (q : ReplayQueue Payload)
    : Type 0 where
  pub has_room : 0 < q.capacity
  pub latest : q.buf ≡ last_n q.capacity sent

pub new_replay_queue-Window :
    {Payload : Type 0} (capacity : ℕ)
    → 0 < capacity
    → Window {Payload = Payload} [] (new_replay_queue capacity)
new_replay_queue-Window capacity h = record { has_room = h; latest = rw empty refl }
  where
    empty : 0 - capacity ≡ 0
    empty = omega arith

push_below :
    {Payload : Type 0} (q : ReplayQueue Payload) (e : ReplayEntry Payload)
    → length q.buf < q.capacity
    → push q e ≡ some (record q { buf = q.buf ++ e ∷ [] })
unfolding push
push_below q e h = ground (arith, h)

push_full :
    {Payload : Type 0} (q : ReplayQueue Payload) (e x : ReplayEntry Payload)
    (rest : List (ReplayEntry Payload))
    → length q.buf ≡ q.capacity
    → q.buf ≡ x ∷ rest
    → push q e ≡ some (record q { buf = rest ++ e ∷ [] })
unfolding push
push_full q e x rest h f = ground (arith, h, f)

-- Adding an entry to a window with room never panics, and leaves a window on one entry more.
pub push-Window :
    {Payload : Type 0} (sent : List (ReplayEntry Payload)) (q : ReplayQueue Payload)
    (e : ReplayEntry Payload)
    → Window sent q
    → (q' : ReplayQueue Payload) × (push q e ≡ some q')
      × Window (sent ++ e ∷ []) q'
      × (q'.capacity ≡ q.capacity)
push-Window sent q e h = elim (Bool-cases (ltb (length sent) q.capacity)) [
  | inl less ↦
      let none_dropped : length sent - q.capacity ≡ 0 = ground (arith, less) in
      let still_none : length (sent ++ e ∷ []) - q.capacity ≡ 0 =
        ground (arith, less, length-append sent (e ∷ [])) in
      let whole : q.buf ≡ sent = h.latest ∙ ap (λ n. drop n sent) none_dropped in
      (
        record q { buf = q.buf ++ e ∷ [] },
        push_below q e (ground (arith, less, ap length whole)),
        record {
          has_room = h.has_room;
          latest = ap (λ b. b ++ e ∷ []) whole ∙ sym (ap (λ n. drop n (sent ++ e ∷ [])) still_none);
        },
        refl,
      )
  | inr more ↦
      let first = length sent - q.capacity in
      let within : first < length sent = ground (arith, more, h.has_room) in
      let (x, split) = drop-step first sent within in
      let next : length (sent ++ e ∷ []) - q.capacity ≡ suc first =
        ground (arith, more, length-append sent (e ∷ [])) in
      (
        record q { buf = drop (suc first) sent ++ e ∷ [] },
        push_full q e x (drop (suc first) sent)
            (ground (arith, more, ap length h.latest, length-drop first sent)) (h.latest ∙ split),
        record {
          has_room = h.has_room;
          latest = sym (
              ap (λ n. drop n (sent ++ e ∷ [])) next
              ∙ drop-append (suc first) sent (e ∷ []) (omega (arith, within)));
        },
        refl,
      )
]

-- A replay request gets the entries from its number on that are among the last ones, in order, as
-- many as the queue holds.
pub since-Window :
    {Payload : Type 0} (sent : List (ReplayEntry Payload)) (q : ReplayQueue Payload) (start : ℕ)
    → Window sent q
    → IsSorted sent
    → since q start ≡ newer start (last_n q.capacity sent)
unfolding since
since-Window sent q start h o =
    ap (from_first start) h.latest
    ∙ from_first-newer start (last_n q.capacity sent)
        (IsSorted-drop (length sent - q.capacity) sent o)
