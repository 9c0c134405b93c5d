-- ===== src/Events/Sender.antt =====
-- What holds of the sender of pkg/kvcache/kv_cache_sender.go after every turn of Run.
use llm_d_inference_sim.BlockCache.{EventData}
use llm_d_inference_sim.Events.{
  Wire, Publisher, KvEventSender, SendError, EventBatch, Input, event_input, timer_input, entry_of,
  publish_event, marshal_all, store, publish_helper, on_event, on_timer, turn, run_sender,
  event_not_marshalled,
}
use llm_d_inference_sim.Events.Replay.{
  ReplayEntry, ReplayQueue, batch_reply, sentinel_reply, replay_sentinel, handle_replay_request,
}
use llm_d_inference_sim.Events.Window.{
  Window, IsSorted, IsSorted-add, push-Window, since-Window, newer, last_n,
}
use llm_d_inference_sim.Common.{
  ℕ, ◌+◌, ◌≤◌, ◌<◌, ◌≡◌, refl, ap, subst, ◌∙◌, List, [], ◌∷◌, ◌++◌, Option, none, some, leb, length,
  if◌then◌else◌, arith, All, All-append, Bool-cases, Option-cases, inl, inr, length-append, map,
}

-- The replayer, if there is one, holds the last messages.
abbrev pub IsReplay :
    {Payload : Type 0} → List (ReplayEntry Payload) → Option (ReplayQueue Payload) → Type 0
IsReplay sent none = Unit
IsReplay sent (some q) = Window sent q

-- Messages have increasing numbers up to the last one given, and the replayer holds the last ones.
pub record Numbered {Payload : Type 0} (p : Publisher Payload) (r : Option (ReplayQueue Payload))
    : Type 0 where
  pub sorted : IsSorted p.sent
  pub given : All (λ y. y.seq ≤ p.seq_num) p.sent
  pub replay : IsReplay p.sent r

abbrev pub IsNumbered :
    {Payload : Type 0} → Option (Publisher Payload) → Option (ReplayQueue Payload) → Type 0
IsNumbered none r = Unit
IsNumbered (some p) r = Numbered p r

pub record Valid {Payload : Type 0} (s : KvEventSender Payload) : Type 0 where
  pub small : length s.batch ≤ s.max_batch_size
  pub numbered : IsNumbered s.publisher s.replayer

module _ {Raw Payload : Type 0} (w : Wire Raw Payload) where
  given-suc :
      (n : ℕ) (es : List (ReplayEntry Payload))
      → All (λ y. y.seq ≤ n) es
      → All (λ y. y.seq ≤ n + 1) es
  given-suc n [] h = tt
  given-suc n (e ∷ es) h = (omega (arith, h.0), given-suc n es h.1)

  given-below :
      (n : ℕ) (es : List (ReplayEntry Payload))
      → All (λ y. y.seq ≤ n) es
      → All (λ y. y.seq < n + 1) es
  given-below n [] h = tt
  given-below n (e ∷ es) h = (omega (arith, h.0), given-below n es h.1)

  -- What a call of PublishEvent and the store after it leave behind.
  abbrev pub Published :
      Publisher Payload
      → Option (ReplayQueue Payload)
      → Publisher Payload × Option (ℕ × Payload) × Option SendError
      → Type 0
  Published p r x = (r' : Option (ReplayQueue Payload)) × (store r x.1 ≡ some r') × Numbered x.0 r'

  store_nothing : (r : Option (ReplayQueue Payload)) → store {Payload = Payload} r none ≡ some r
  unfolding store
  store_nothing none = refl
  store_nothing (some q) = refl

  store_message :
      (p : Publisher Payload) (r : Option (ReplayQueue Payload)) (payload : Payload)
      → Numbered p r
      → (r' : Option (ReplayQueue Payload)) × (store r (some (p.seq_num + 1, payload)) ≡ some r')
        × IsReplay (p.sent ++ record { seq = p.seq_num + 1; payload = payload } ∷ []) r'
  unfolding store
  store_message p none payload h = (none, refl, tt)
  store_message p (some q) payload h =
      let (q', e, win, _) =
        push-Window p.sent q (record { seq = p.seq_num + 1; payload = payload }) h.replay in
      (some q', rw (e, store), win)

  pub publish_event-Published :
      (p : Publisher Payload) (r : Option (ReplayQueue Payload)) (b : EventBatch Raw)
      → Numbered p r
      → Published p r (publish_event w p b)
  unfolding publish_event
  publish_event-Published p r b h = elim (Option-cases (w.marshal_batch b)) [
    | inl e ↦ rw (e, publish_event) (r, store_nothing r, h)
    | inr (payload, e) ↦ elim (Bool-cases (w.socket_send (p.seq_num + 1))) [
      | inl ok ↦
          let (r', stored, replay) = store_message p r payload h in
          rw (e, publish_event)
            (rw ok (
              r',
              stored,
              record {
                sorted =
                    IsSorted-add p.sent (record { seq = p.seq_num + 1; payload = payload }) h.sorted
                      (given-below p.seq_num p.sent h.given);
                given =
                    All-append (λ y. y.seq ≤ p.seq_num + 1) p.sent _
                      (given-suc p.seq_num p.sent h.given) (omega arith, tt);
                replay = replay;
              },
            ))
      | inr failed ↦
          rw (e, publish_event)
            (rw failed (
              r,
              store_nothing r,
              record {
                sorted = h.sorted;
                given = given-suc p.seq_num p.sent h.given;
                replay = h.replay;
              },
            ))
    ]
  ]

  -- A turn returns, keeps what holds, and leaves room in the batch unless it ends with an error.
  abbrev pub Turned :
      KvEventSender Payload → Option (KvEventSender Payload × Option SendError) → Type 0
  Turned s o =
      (s' : KvEventSender Payload) × (e : Option SendError) × (o ≡ some (s', e))
      × Valid s'
      × (s'.max_batch_size ≡ s.max_batch_size)
      × (e ≡ none → length s'.batch < s.max_batch_size)

  publish_helper-Turned :
      (s : KvEventSender Payload) (p : Publisher Payload) (now : ℕ)
      → length s.batch ≤ s.max_batch_size
      → 0 < s.max_batch_size
      → s.publisher ≡ some p
      → Numbered p s.replayer
      → Turned s (publish_helper w s p now)
  unfolding publish_helper
  publish_helper-Turned s p now small some_room is h =
      let valid : Valid s = record { small = small; numbered = rw is h } in
      elim (Bool-cases (leb (length s.batch) 0)) [
        | inl e ↦
            (s, none, rw (e, publish_helper) refl, valid, refl, λ _. ground (arith, e, some_room))
        | inr e ↦
            elim (Option-cases (marshal_all w s.use_vllm_map_event_format s.block_size s.batch)) [
              | inl f ↦ (
                s,
                some event_not_marshalled,
                rw (e, publish_helper) (rw f refl),
                valid,
                refl,
                λ x. cc,
              )
              | inr (raws, f) ↦
                  let b : EventBatch Raw = record {
                    ts = now;
                    events = raws;
                    data_parallel_rank = s.dp_rank;
                  } in
                  let (r', stored, after) = publish_event-Published p s.replayer b h in
                  (
                    record s {
                      publisher = some (publish_event w p b).0;
                      replayer = r';
                      batch = [];
                    },
                    (publish_event w p b).2,
                    rw (e, publish_helper) (rw f (rw stored refl)),
                    record { small = omega arith; numbered = after },
                    refl,
                    λ _. some_room,
                  )
            ]
      ]

  pub on_event_publishes :
      (s : KvEventSender Payload) (p : Publisher Payload) (d : EventData) (now : ℕ)
      → s.publisher ≡ some p
      → on_event w s d now ≡ (
          if leb s.max_batch_size (length (s.batch ++ entry_of d ∷ []))
          then publish_helper w (record s { batch = s.batch ++ entry_of d ∷ [] }) p now
          else some (record s { batch = s.batch ++ entry_of d ∷ [] }, none))
  unfolding on_event
  on_event_publishes s p d now e =
      let s₁ = record s { batch = s.batch ++ entry_of d ∷ [] } in
      ap
        (λ o. elim o [
          | none ↦ some (s, none)
          | some p ↦
              if leb s₁.max_batch_size (length s₁.batch)
              then publish_helper w s₁ p now
              else some (s₁, none)
        ])
        e

  pub on_timer_publishes :
      (s : KvEventSender Payload) (p : Publisher Payload) (now : ℕ)
      → s.publisher ≡ some p
      → on_timer w s now ≡ publish_helper w s p now
  unfolding on_timer
  on_timer_publishes s p now e =
      ap (λ o. elim o [ none ↦ some (s, none) | some p ↦ publish_helper w s p now ]) e

  on_event-Turned :
      (s : KvEventSender Payload) (d : EventData) (now : ℕ)
      → Valid s
      → length s.batch < s.max_batch_size
      → Turned s (on_event w s d now)
  unfolding on_event
  on_event-Turned s d now h room = elim (Option-cases s.publisher) [
    | inl e ↦ (s, none, ground (arith, e), h, refl, λ _. room)
    | inr (p, e) ↦
        let s₁ = record s { batch = s.batch ++ entry_of d ∷ [] } in
        let longer : length s₁.batch ≡ length s.batch + 1 =
          length-append s.batch (entry_of d ∷ []) in
        let numbered : Numbered p s.replayer = subst (λ o. IsNumbered o s.replayer) e h.numbered in
        elim (Bool-cases (leb s.max_batch_size (length s₁.batch))) [
          | inl full ↦
              let (s', r, done, valid, same, left) =
                publish_helper-Turned s₁ p now (omega (arith, longer, room)) (omega (arith, room)) e
                  numbered in
              (s', r, on_event_publishes s p d now e ∙ rw full done, valid, same, left)
          | inr small ↦ (
            s₁,
            none,
            on_event_publishes s p d now e ∙ rw small refl,
            record { small = omega (arith, longer, room); numbered = h.numbered },
            refl,
            λ _. ground (arith, small),
          )
        ]
  ]

  on_timer-Turned :
      (s : KvEventSender Payload) (now : ℕ)
      → Valid s
      → length s.batch < s.max_batch_size
      → Turned s (on_timer w s now)
  unfolding on_timer
  on_timer-Turned s now h room = elim (Option-cases s.publisher) [
    | inl e ↦ (s, none, ground (arith, e), h, refl, λ _. room)
    | inr (p, e) ↦
        let (s', r, done, valid, same, left) =
          publish_helper-Turned s p now h.small (omega (arith, room)) e
            (subst (λ o. IsNumbered o s.replayer) e h.numbered) in
        (s', r, on_timer_publishes s p now e ∙ done, valid, same, left)
  ]

  turn-Turned :
      (s : KvEventSender Payload) (i : ℕ × Input)
      → Valid s
      → length s.batch < s.max_batch_size
      → Turned s (turn w s i)
  unfolding turn
  turn-Turned s (now, event_input d) h room = on_event-Turned s d now h room
  turn-Turned s (now, timer_input) h room = on_timer-Turned s now h room

  -- From a valid sender with room in its batch, Run never panics: whatever the encoder and the socket
  -- answer, the batch stays within its size, the messages have increasing numbers, and the replayer
  -- holds the last ones.
  pub run_sender-Valid :
      (s : KvEventSender Payload) (is : List (ℕ × Input))
      → Valid s
      → length s.batch < s.max_batch_size
      → Turned s (run_sender w s is)
  unfolding run_sender
  run_sender-Valid s [] h room = (s, none, refl, h, refl, λ _. room)
  run_sender-Valid s (i ∷ is) h room =
      let (s₁, e, done, valid, same, left) = turn-Turned s i h room in
      go s₁ e (λ v r. run_sender-Valid s₁ is v r) done valid same left
    where
      go :
          (s₁ : KvEventSender Payload) (e : Option SendError)
          → (Valid s₁ → length s₁.batch < s₁.max_batch_size → Turned s₁ (run_sender w s₁ is))
          → turn w s i ≡ some (s₁, e)
          → Valid s₁
          → s₁.max_batch_size ≡ s.max_batch_size
          → (e ≡ none → length s₁.batch < s.max_batch_size)
          → Turned s (run_sender w s (i ∷ is))
      go s₁ (some e) again done valid same left =
          (s₁, some e, rw (done, run_sender) refl, valid, same, left)
      go s₁ none again done valid same left =
          let (s₂, e₂, done₂, valid₂, same₂, left₂) =
            again valid (omega (arith, left refl, same)) in
          (
            s₂,
            e₂,
            rw (done, run_sender) done₂,
            valid₂,
            same₂ ∙ same,
            λ x. omega (arith, left₂ x, same),
          )

  -- For a valid sender, a replay request is answered with the messages from its number on that are among the last ones
  -- sent, as many as the replayer holds, in order, then with the end marker.
  pub handle_replay_request-Valid :
      (s : KvEventSender Payload) (p : Publisher Payload) (q : ReplayQueue Payload) (start : ℕ)
      → Valid s
      → s.publisher ≡ some p
      → s.replayer ≡ some q
      → handle_replay_request q (some start)
        ≡ map batch_reply (newer start (last_n q.capacity p.sent))
          ++ sentinel_reply replay_sentinel ∷ []
  unfolding handle_replay_request
  handle_replay_request-Valid s p q start h is has =
      let n : Numbered p s.replayer = subst (λ o. IsNumbered o s.replayer) is h.numbered in
      rw (since-Window p.sent q start (subst (IsReplay p.sent) has n.replay) n.sorted) refl
