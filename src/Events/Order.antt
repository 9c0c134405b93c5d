-- ===== src/Events/Order.antt =====
-- What the sender of pkg/kvcache/kv_cache_sender.go publishes, and in which order.
use llm_d_inference_sim.BlockCache.{EventData}
use llm_d_inference_sim.Events.{
  Wire, Publisher, KvEventSender, SendError, EventBatch, Input, event_input, timer_input, entry_of,
  publish_event, marshal_all, publish_helper, on_event, turn, run_sender, EncodedEvent, BatchEntry,
  encode_event,
}
use llm_d_inference_sim.Events.Replay.{ReplayEntry}
use llm_d_inference_sim.Events.Sender.{
  Numbered, publish_event-Published, on_event_publishes, on_timer_publishes,
}
use llm_d_inference_sim.Common.{
  append_nil, append_assoc, ℕ, ◌+◌, ◌≡◌, refl, sym, ap, subst, ◌∙◌, Bool, true, List, [], ◌∷◌, ◌++◌,
  Option, none, some, leb, length, Bool-cases, inl, inr, map,
}

-- An encoder that can be read back, and a socket that takes every message.
pub record Faithful {Raw Payload : Type 0} (w : Wire Raw Payload) (read : Raw → EncodedEvent)
    (read_events : Payload → List Raw) : Type 0 where
  pub event_ok : (e : EncodedEvent) → (raw : Raw) × (w.marshal_event e ≡ some raw) × (read raw ≡ e)
  pub batch_ok :
      (b : EventBatch Raw)
      → (payload : Payload) × (w.marshal_batch b ≡ some payload) × (read_events payload ≡ b.events)
  pub send_ok : (n : ℕ) → w.socket_send n ≡ true

map-append {ℓ} :
    {A B : Type ℓ} (f : A → B) (xs ys : List A) → map f (xs ++ ys) ≡ map f xs ++ map f ys
map-append f [] ys = refl
map-append f (x ∷ xs) ys = ap (◌∷◌ (f x)) (map-append f xs ys)

-- The events that the sender received.
abbrev pub received : List (ℕ × Input) → List EventData
received [] = []
received ((now, event_input d) ∷ is) = d ∷ received is
received ((now, timer_input) ∷ is) = received is

abbrev pub encoded_of : Bool → ℕ → List (ℕ × Input) → List EncodedEvent
encoded_of map_format block_size is =
    map (λ d. encode_event (entry_of d) map_format block_size) (received is)

module _ {Raw Payload : Type 0} (read : Raw → EncodedEvent) (read_events : Payload → List Raw) where
  -- What a subscriber reads from the messages.
  abbrev pub subscribed : List (ReplayEntry Payload) → List EncodedEvent
  subscribed [] = []
  subscribed (m ∷ ms) = map read (read_events m.payload) ++ subscribed ms

  subscribed-append :
      (xs : List (ReplayEntry Payload)) (x : ReplayEntry Payload)
      → subscribed (xs ++ x ∷ []) ≡ subscribed xs ++ map read (read_events x.payload)
  subscribed-append [] x = append_nil (map read (read_events x.payload))
  subscribed-append (y ∷ xs) x =
      ap (◌++◌ (map read (read_events y.payload))) (subscribed-append xs x)
      ∙ sym (
          append_assoc (map read (read_events y.payload)) (subscribed xs)
            (map read (read_events x.payload)))

  abbrev pub sent_by : Option (Publisher Payload) → List EncodedEvent
  sent_by none = []
  sent_by (some p) = subscribed p.sent

  -- What was published and what waits in the batch, encoded.
  abbrev pub flow : KvEventSender Payload → List EncodedEvent
  flow s =
      sent_by s.publisher
      ++ map (λ e. encode_event e s.use_vllm_map_event_format s.block_size) s.batch

  module _ (w : Wire Raw Payload) (f : Faithful w read read_events) where
    marshal_all-read :
        (map_format : Bool) (block_size : ℕ) (es : List BatchEntry)
        → (raws : List Raw) × (marshal_all w map_format block_size es ≡ some raws)
          × (map read raws ≡ map (λ e. encode_event e map_format block_size) es)
    unfolding marshal_all
    marshal_all-read map_format block_size [] = ([], refl, refl)
    marshal_all-read map_format block_size (e ∷ es) =
        let (raw, marshalled, back) = f.event_ok (encode_event e map_format block_size) in
        let (raws, rest, backs) = marshal_all-read map_format block_size es in
        (raw ∷ raws, rw (marshalled, marshal_all) (rw rest refl), rw (back, backs) refl)

    -- The effect of a turn: no error, the settings stay, and the events `added` follow the others.
    abbrev pub Flows :
        KvEventSender Payload
        → List EncodedEvent
        → Option (KvEventSender Payload × Option SendError)
        → Type 0
    Flows s added o =
        (s' : KvEventSender Payload) × (o ≡ some (s', none))
        × (flow s' ≡ flow s ++ added)
        × (s'.use_vllm_map_event_format ≡ s.use_vllm_map_event_format)
        × (s'.block_size ≡ s.block_size)
        × ((p : Publisher Payload) × (s'.publisher ≡ some p) × Numbered p s'.replayer)

    publish_event-some :
        (p : Publisher Payload) (b : EventBatch Raw) (payload : Payload)
        → w.marshal_batch b ≡ some payload
        → publish_event w p b ≡ (
          record {
            seq_num = p.seq_num + 1;
            sent = p.sent ++ record { seq = p.seq_num + 1; payload = payload } ∷ [];
          },
          some (p.seq_num + 1, payload),
          none,
        )
    unfolding publish_event
    publish_event-some p b payload e = rw (e, publish_event) (rw (f.send_ok (p.seq_num + 1)) refl)

    publish_helper-Flows :
        (s : KvEventSender Payload) (p : Publisher Payload) (now : ℕ)
        → s.publisher ≡ some p
        → Numbered p s.replayer
        → Flows s [] (publish_helper w s p now)
    unfolding publish_helper
    publish_helper-Flows s p now is h = elim (Bool-cases (leb (length s.batch) 0)) [
      | inl e ↦ (s, rw (e, publish_helper) refl, sym (append_nil (flow s)), refl, refl, (p, is, h))
      | inr e ↦
          let (raws, marshalled, backs) =
            marshal_all-read s.use_vllm_map_event_format s.block_size s.batch in
          let b : EventBatch Raw = record {
            ts = now;
            events = raws;
            data_parallel_rank = s.dp_rank;
          } in
          let (payload, packed, events) = f.batch_ok b in
          let done = publish_event-some p b payload packed in
          let m : ReplayEntry Payload = record { seq = p.seq_num + 1; payload = payload } in
          let p' : Publisher Payload = record {
            seq_num = p.seq_num + 1;
            sent = p.sent ++ m ∷ [];
          } in
          let (r', stored, after) = publish_event-Published w p s.replayer b h in
          let encoded =
            map (λ e. encode_event e s.use_vllm_map_event_format s.block_size) s.batch in
          let read_back : map read (read_events payload) ≡ encoded = ap (map read) events ∙ backs in
          (
            record s { publisher = some p'; replayer = r'; batch = [] },
            rw (e, publish_helper) (rw marshalled (rw stored (rw done refl))),
            append_nil (subscribed (p.sent ++ m ∷ []))
                ∙ subscribed-append p.sent m
                ∙ ap (◌++◌ (subscribed p.sent)) read_back
                ∙ ap (λ o. sent_by o ++ encoded) (sym is)
                ∙ sym (append_nil (flow s)),
            refl,
            refl,
            (p', refl, rw done at after),
          )
    ]

    on_event-Flows :
        (s : KvEventSender Payload) (p : Publisher Payload) (d : EventData) (now : ℕ)
        → s.publisher ≡ some p
        → Numbered p s.replayer
        → Flows s
            (encode_event (entry_of d) s.use_vllm_map_event_format s.block_size ∷ [])
            (on_event w s d now)
    on_event-Flows s p d now is h =
        let s₁ = record s { batch = s.batch ++ entry_of d ∷ [] } in
        let enc : BatchEntry → EncodedEvent =
          λ e. encode_event e s.use_vllm_map_event_format s.block_size in
        let grown : flow s₁ ≡ flow s ++ enc (entry_of d) ∷ [] =
          ap (◌++◌ (sent_by s.publisher)) (map-append enc s.batch (entry_of d ∷ []))
          ∙ sym (append_assoc (sent_by s.publisher) (map enc s.batch) (enc (entry_of d) ∷ [])) in
        elim (Bool-cases (leb s.max_batch_size (length s₁.batch))) [
          | inl full ↦
              let (s', done, flows, same, size, held) = publish_helper-Flows s₁ p now is h in
              (
                s',
                on_event_publishes w s p d now is ∙ rw full done,
                flows ∙ append_nil (flow s₁) ∙ grown,
                same,
                size,
                held,
              )
          | inr small ↦
              (s₁, on_event_publishes w s p d now is ∙ rw small refl, grown, refl, refl, (p, is, h))
        ]

    -- The turns of two stretches of input, one after the other.
    Flows-trans :
        (s s₁ : KvEventSender Payload) (added more : List EncodedEvent)
        (o : Option (KvEventSender Payload × Option SendError))
        → flow s₁ ≡ flow s ++ added
        → s₁.use_vllm_map_event_format ≡ s.use_vllm_map_event_format
        → s₁.block_size ≡ s.block_size
        → Flows s₁ more o
        → Flows s (added ++ more) o
    Flows-trans s s₁ added more o grown same size (s₂, done, flows, same₂, size₂, held) = (
      s₂,
      done,
      flows ∙ ap (λ xs. xs ++ more) grown ∙ append_assoc (flow s) added more,
      same₂ ∙ same,
      size₂ ∙ size,
      held,
    )

    turn-Flows :
        (s : KvEventSender Payload) (p : Publisher Payload) (i : ℕ × Input)
        → s.publisher ≡ some p
        → Numbered p s.replayer
        → Flows s (encoded_of s.use_vllm_map_event_format s.block_size (i ∷ [])) (turn w s i)
    unfolding turn
    turn-Flows s p (now, event_input d) is h = on_event-Flows s p d now is h
    turn-Flows s p (now, timer_input) is h =
        subst (Flows s []) (sym (on_timer_publishes w s p now is))
          (publish_helper-Flows s p now is h)

    encoded_of-cons :
        (map_format : Bool) (block_size : ℕ) (i : ℕ × Input) (is : List (ℕ × Input))
        → encoded_of map_format block_size (i ∷ is)
          ≡ encoded_of map_format block_size (i ∷ []) ++ encoded_of map_format block_size is
    encoded_of-cons map_format block_size (now, event_input d) is = refl
    encoded_of-cons map_format block_size (now, timer_input) is = refl

    -- If the encoder can be read back and the socket takes every message, then Run handles every input
    -- without an error, and what subscribers read, followed by the waiting batch, grows by exactly the
    -- received events, in their order.
    pub run_sender-flow :
        (s : KvEventSender Payload) (p : Publisher Payload) (is : List (ℕ × Input))
        → s.publisher ≡ some p
        → Numbered p s.replayer
        → (s' : KvEventSender Payload) × (run_sender w s is ≡ some (s', none))
          × (flow s' ≡ flow s ++ encoded_of s.use_vllm_map_event_format s.block_size is)
          × (s'.use_vllm_map_event_format ≡ s.use_vllm_map_event_format)
          × (s'.block_size ≡ s.block_size)
          × ((p' : Publisher Payload) × (s'.publisher ≡ some p') × Numbered p' s'.replayer)
    unfolding run_sender
    run_sender-flow s p [] has h = (s, refl, sym (append_nil (flow s)), refl, refl, (p, has, h))
    run_sender-flow s p (i ∷ is) has h =
        let (s₁, done, grown, same, size, (p₁, has₁, h₁)) = turn-Flows s p i has h in
        let rest : Flows s₁ (encoded_of s.use_vllm_map_event_format s.block_size is)
            (run_sender w s₁ is) =
          subst (λ b. Flows s₁ (encoded_of s.use_vllm_map_event_format b is) (run_sender w s₁ is))
            size
            (subst (λ b. Flows s₁ (encoded_of b s₁.block_size is) (run_sender w s₁ is)) same
              (run_sender-flow s₁ p₁ is has₁ h₁)) in
        let (s₂, ended, flows, same₂, size₂, held) = Flows-trans s s₁ _ _ _ grown same size rest in
        (
          s₂,
          rw (done, run_sender) ended,
          flows
              ∙ ap (◌++◌ (flow s))
                  (sym (encoded_of-cons s.use_vllm_map_event_format s.block_size i is)),
          same₂,
          size₂,
          held,
        )
