-- ===== src/Events/Replay.antt =====
-- The queue of published batches: replayQueue of pkg/kvcache/kv_events_replayer.go.
-- `none` stands for the panic of a slice out of range.
use llm_d_inference_sim.Common.{
  ℕ, List, [], ◌∷◌, ◌++◌, Option, none, some, leb, length, if◌then◌else◌, ◌==◌, nat_comparable, map,
}

pub record ReplayEntry (Payload : Type 0) : Type 0 where
  pub seq : ℕ
  pub payload : Payload

pub record ReplayQueue (Payload : Type 0) : Type 0 where
  pub buf : List (ReplayEntry Payload)
  pub capacity : ℕ

abbrev pub new_replay_queue : {Payload : Type 0} → ℕ → ReplayQueue Payload
new_replay_queue capacity = record { buf = []; capacity = capacity }

-- The oldest entry is dropped from a full queue.
unfoldable pub push :
    {Payload : Type 0} → ReplayQueue Payload → ReplayEntry Payload → Option (ReplayQueue Payload)
push q entry =
    if length q.buf == q.capacity
    then elim q.buf [ [] ↦ none | oldest ∷ rest ↦ some (record q { buf = rest ++ entry ∷ [] }) ]
    else some (record q { buf = q.buf ++ entry ∷ [] })

-- The search for the first entry to send, and what follows it.
unfoldable pub from_first :
    {Payload : Type 0} → ℕ → List (ReplayEntry Payload) → List (ReplayEntry Payload)
from_first start [] = []
from_first start (e ∷ es) = if leb start e.seq then e ∷ es else from_first start es

unfoldable pub since : {Payload : Type 0} → ReplayQueue Payload → ℕ → List (ReplayEntry Payload)
unfolding from_first
since q start = from_first start q.buf

-- What a client receives: the batches with the topic, then the end marker.
pub data Reply (Payload : Type 0) : Type 0 where
  batch_reply : ReplayEntry Payload → Reply Payload
  sentinel_reply : ℕ → Reply Payload

abbrev pub replay_sentinel : ℕ
replay_sentinel = 18446744073709551615

-- The replies to a request whose frame is long enough, if every send works; a short frame is ignored.
unfoldable pub handle_replay_request :
    {Payload : Type 0} → ReplayQueue Payload → Option ℕ → List (Reply Payload)
unfolding since
handle_replay_request q none = []
handle_replay_request q (some start) =
    map batch_reply (since q start) ++ sentinel_reply replay_sentinel ∷ []
