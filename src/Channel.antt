-- ===== src/Channel.antt =====
-- Bounded channels with a non-blocking write: pkg/common/utils.go.
-- A Go channel is its buffer, oldest first, with its capacity; `Done` is the optional shutdown
-- signal of the wrapper: absent, open or closed.
use llm_d_inference_sim.Common.{
  ℕ, List, ◌∷◌, [], ◌++◌, ltb, length, if◌then◌else◌, Option, none, some, String,
}

pub data Done : Type 0 where
  absent pending closed : Done

pub record Channel (A : Type 0) : Type 0 where
  pub buffer : List A
  pub capacity : ℕ
  pub name : String
  pub shutdown : Done

pub data WriteError : Type 0 where
  channel_full : String → WriteError

-- The second `select`: a closed `Done` hides the error.
refused : {A : Type 0} → Channel A → Done → Option WriteError
refused ch closed = none
refused ch pending = some (channel_full ch.name)
refused ch absent = some (channel_full ch.name)

unfoldable pub write_to_channel_with_error :
    {A : Type 0} → Channel A → A → Channel A × Option WriteError
unfolding refused
write_to_channel_with_error ch x =
    if ltb (length ch.buffer) ch.capacity
    then (record ch { buffer = ch.buffer ++ x ∷ [] }, none)
    else (ch, refused ch ch.shutdown)

-- The error is only logged.
unfoldable pub write_to_channel : {A : Type 0} → Channel A → A → Channel A
unfolding write_to_channel_with_error
write_to_channel ch x = (write_to_channel_with_error ch x).0
