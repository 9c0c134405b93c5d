-- ===== src/Events.antt =====
-- The sender of the KV cache's events: pkg/kvcache/kv_cache_sender.go, with PublishEvent of
-- pkg/common/publisher.go. Times are arguments.
pub mod Replay
pub mod Window
pub mod Sender
pub mod Order
mod Tests
use llm_d_inference_sim.BlockCache.{
  EventData, EventAction, event_action_store, event_action_remove, event_action_all_blocks_cleared,
}
use llm_d_inference_sim.Events.Replay.{ReplayEntry, ReplayQueue, push}
use llm_d_inference_sim.Common.{
  ℕ, suc, ◌+◌, Bool, true, false, List, [], ◌∷◌, ◌++◌, Option, none, some, String, leb, length,
  if◌then◌else◌,
}

pub record BlockStored : Type 0 where
  pub block_hashes : List ℕ
  pub tokens : List ℕ
  pub device_tier : String
  pub parent_hash : ℕ
  pub lora_id : Option ℕ
  pub lora_name : Option String

-- What the sender makes of an event.
pub data GenericEvent : Type 0 where
  block_stored_event : BlockStored → GenericEvent
  block_removed_event : List ℕ → String → GenericEvent
  all_blocks_cleared_event : String → GenericEvent

pub record BatchEntry : Type 0 where
  pub event : GenericEvent
  pub parent_hash : Option ℕ

-- The structures that are marshalled: the positional (legacy) and the map format.
pub data EncodedEvent : Type 0 where
  stored_array : List ℕ → ℕ → List ℕ → ℕ → Option ℕ → String → Option String → EncodedEvent
  stored_map : List ℕ → Option ℕ → List ℕ → ℕ → Option ℕ → String → Option String → EncodedEvent
  removed_array : List ℕ → String → EncodedEvent
  removed_map : List ℕ → String → EncodedEvent
  cleared_array : EncodedEvent
  cleared_map : EncodedEvent

pub record EventBatch (Raw : Type 0) : Type 0 where
  pub ts : ℕ
  pub events : List Raw
  pub data_parallel_rank : ℕ

pub data SendError : Type 0 where
  event_not_marshalled batch_not_marshalled message_not_sent : SendError

-- The msgpack encoder, and whether the socket takes the message with a sequence number.
pub record Wire (Raw Payload : Type 0) : Type 0 where
  pub marshal_event : EncodedEvent → Option Raw
  pub marshal_batch : EventBatch Raw → Option Payload
  pub socket_send : ℕ → Bool

-- `sent` holds the numbers and payloads of the messages that the socket took, oldest first.
pub record Publisher (Payload : Type 0) : Type 0 where
  pub seq_num : ℕ
  pub sent : List (ReplayEntry Payload)

pub record KvEventSender (Payload : Type 0) : Type 0 where
  pub publisher : Option (Publisher Payload)
  pub max_batch_size : ℕ
  pub block_size : ℕ
  pub batch : List BatchEntry
  pub use_vllm_map_event_format : Bool
  pub dp_rank : ℕ
  pub replayer : Option (ReplayQueue Payload)

abbrev pub gpu : String
gpu = "GPU"

-- kvblock.EmptyBlockHash
abbrev pub empty_block_hash : ℕ
empty_block_hash = 0

abbrev pub parent_or_empty : Option ℕ → ℕ
parent_or_empty none = empty_block_hash
parent_or_empty (some p) = p

-- The entry of a received event.
unfoldable pub entry_of : EventData → BatchEntry
entry_of e = elim e.action [
  | event_action_store ↦ record {
    event = block_stored_event (record {
      block_hashes = e.hashes;
      tokens = e.tokens;
      device_tier = gpu;
      parent_hash = parent_or_empty e.parent_hash;
      lora_id = e.lora_id;
      lora_name = e.lora_name;
    });
    parent_hash = e.parent_hash;
  }
  | event_action_remove ↦ record { event = block_removed_event e.hashes gpu; parent_hash = none }
  | event_action_all_blocks_cleared ↦ record {
    event = all_blocks_cleared_event gpu;
    parent_hash = none;
  }
]

unfoldable pub encode_event : BatchEntry → Bool → ℕ → EncodedEvent
encode_event entry map_format block_size = elim entry.event [
  | block_stored_event e ↦
      if map_format
      then stored_map e.block_hashes entry.parent_hash e.tokens block_size e.lora_id e.device_tier
          e.lora_name
      else stored_array e.block_hashes e.parent_hash e.tokens block_size e.lora_id e.device_tier
          e.lora_name
  | block_removed_event hashes tier ↦
      if map_format then removed_map hashes gpu else removed_array hashes gpu
  | all_blocks_cleared_event tier ↦ if map_format then cleared_map else cleared_array
]

-- PublishEvent: the publisher afterwards, and the sequence number and payload if all went well.
unfoldable pub publish_event :
    {Raw Payload : Type 0}
    → Wire Raw Payload
    → Publisher Payload
    → EventBatch Raw
    → Publisher Payload × Option (ℕ × Payload) × Option SendError
publish_event w p batch = elim (w.marshal_batch batch) [
  | none ↦ (p, none, some batch_not_marshalled)
  | some payload ↦
      let seq = p.seq_num + 1 in
      if w.socket_send seq
      then (
        record { seq_num = seq; sent = p.sent ++ record { seq = seq; payload = payload } ∷ [] },
        some (seq, payload),
        none,
      )
      else (record p { seq_num = seq }, none, some message_not_sent)
]

-- The loop of publishHelper.
unfoldable pub marshal_all :
    {Raw Payload : Type 0} → Wire Raw Payload → Bool → ℕ → List BatchEntry → Option (List Raw)
marshal_all w map_format block_size [] = some []
marshal_all w map_format block_size (e ∷ es) =
    elim (w.marshal_event (encode_event e map_format block_size)) [
      | none ↦ none
      | some raw ↦ elim (marshal_all w map_format block_size es) [
        | none ↦ none
        | some raws ↦ some (raw ∷ raws)
      ]
    ]

-- The call of the replayer's store; `none` is a panic.
unfoldable pub store :
    {Payload : Type 0}
    → Option (ReplayQueue Payload)
    → Option (ℕ × Payload)
    → Option (Option (ReplayQueue Payload))
store none published = some none
store (some q) none = some (some q)
store (some q) (some (seq, payload)) = elim (push q (record { seq = seq; payload = payload })) [
  | none ↦ none
  | some q' ↦ some (some q')
]

-- publishHelper with a publisher; `none` is a panic.
unfoldable pub publish_helper :
    {Raw Payload : Type 0}
    → Wire Raw Payload
    → KvEventSender Payload
    → Publisher Payload
    → ℕ
    → Option (KvEventSender Payload × Option SendError)
unfolding marshal_all store
publish_helper w s p now =
    if leb (length s.batch) 0
    then some (s, none)
    else elim (marshal_all w s.use_vllm_map_event_format s.block_size s.batch) [
      | none ↦ some (s, some event_not_marshalled)
      | some raws ↦
          let (p', published, e) =
            publish_event w p
              (record { ts = now; events = raws; data_parallel_rank = s.dp_rank }) in
          elim (store s.replayer published) [
            | none ↦ none
            | some r ↦ some (record s { publisher = some p'; replayer = r; batch = [] }, e)
          ]
    ]

-- The case of a received event in Run.
unfoldable pub on_event :
    {Raw Payload : Type 0}
    → Wire Raw Payload
    → KvEventSender Payload
    → EventData
    → ℕ
    → Option (KvEventSender Payload × Option SendError)
on_event w s e now = elim s.publisher [
  | none ↦ some (s, none)
  | some p ↦
      let s' = record s { batch = s.batch ++ entry_of e ∷ [] } in
      if leb s'.max_batch_size (length s'.batch) then publish_helper w s' p now else some (s', none)
]

-- The case of the timer in Run.
unfoldable pub on_timer :
    {Raw Payload : Type 0}
    → Wire Raw Payload
    → KvEventSender Payload
    → ℕ
    → Option (KvEventSender Payload × Option SendError)
on_timer w s now = elim s.publisher [ none ↦ some (s, none) | some p ↦ publish_helper w s p now ]

pub data Input : Type 0 where
  event_input : EventData → Input
  timer_input : Input

unfoldable pub turn :
    {Raw Payload : Type 0}
    → Wire Raw Payload
    → KvEventSender Payload
    → ℕ × Input
    → Option (KvEventSender Payload × Option SendError)
turn w s (now, event_input e) = on_event w s e now
turn w s (now, timer_input) = on_timer w s now

-- Run: it ends with the first error.
unfoldable pub run_sender :
    {Raw Payload : Type 0}
    → Wire Raw Payload
    → KvEventSender Payload
    → List (ℕ × Input)
    → Option (KvEventSender Payload × Option SendError)
run_sender w s [] = some (s, none)
run_sender w s (i ∷ is) = elim (turn w s i) [
  | none ↦ none
  | some (s', some e) ↦ some (s', some e)
  | some (s', none) ↦ run_sender w s' is
]
