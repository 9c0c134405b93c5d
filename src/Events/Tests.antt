-- ===== src/Events/Tests.antt =====
-- Runs of the event sender of pkg/kvcache/kv_cache_sender.go, and its theorems at concrete inputs.
use llm_d_inference_sim.BlockCache.{EventData, event_action_store, event_action_remove}
use llm_d_inference_sim.Events.{
  Wire, Publisher, KvEventSender, Input, event_input, timer_input, EncodedEvent, run_sender,
  encode_event, entry_of, turn, on_event, on_timer, publish_helper, publish_event, marshal_all,
  store, message_not_sent,
}
use llm_d_inference_sim.Events.Replay.{
  ReplayEntry, ReplayQueue, new_replay_queue, push, since, handle_replay_request, from_first,
  batch_reply, sentinel_reply, replay_sentinel,
}
use llm_d_inference_sim.Events.Window.{
  Window, new_replay_queue-Window, push-Window, since-Window, newer, last_n,
}
use llm_d_inference_sim.Events.Sender.{
  Valid, Numbered, Turned, run_sender-Valid, handle_replay_request-Valid,
}
use llm_d_inference_sim.Events.Order.{Faithful, flow, encoded_of, run_sender-flow}
use llm_d_inference_sim.Common.{
  ℕ, ◌+◌, ◌≡◌, refl, [], ◌∷◌, ◌++◌, List, none, some, true, false, arith,
}

-- The events and batches themselves on the wire, and a socket that takes all.
abbrev wire : Wire EncodedEvent (List EncodedEvent)
wire = record {
  marshal_event = λ e. some e;
  marshal_batch = λ b. some b.events;
  socket_send = λ n. true;
}

-- Batches of at most two events, and a replayer for one batch.
abbrev sender : KvEventSender (List EncodedEvent)
sender = record {
  publisher = some (record { seq_num = 0; sent = [] });
  max_batch_size = 2;
  block_size = 16;
  batch = [];
  use_vllm_map_event_format = true;
  dp_rank = 0;
  replayer = some (new_replay_queue 1);
}

abbrev stored_block : EventData
stored_block = record {
  action = event_action_store;
  tokens = 5 ∷ [];
  hashes = 9 ∷ [];
  parent_hash = none;
  lora_name = none;
  lora_id = none;
}

abbrev removed_block : EventData
removed_block = record stored_block { action = event_action_remove }

abbrev inputs : List (ℕ × Input)
inputs =
    (1, event_input stored_block)
    ∷ (2, event_input removed_block)
    ∷ (3, event_input stored_block)
    ∷ (4, timer_input)
    ∷ []

rest-Numbered :
    Numbered {Payload = List EncodedEvent}
      (record { seq_num = 0; sent = [] })
      (some (new_replay_queue 1))
rest-Numbered = record { sorted = tt; given = tt; replay = new_replay_queue-Window 1 (omega arith) }

sender-Valid : Valid sender
sender-Valid = record { small = omega arith; numbered = rest-Numbered }

sending : Unit {0}
unfolding run_sender turn on_event on_timer publish_helper publish_event marshal_all store push
    entry_of encode_event since from_first handle_replay_request
sending = tt

-- The socket refuses the first message: the run ends, and the batch is gone with it.
refused_batch :
    run_sender (record wire { socket_send = λ n. false }) sender inputs
    ≡ some (
      record sender { publisher = some (record { seq_num = 1; sent = [] }) },
      some message_not_sent,
    )
unfolding sending
refused_batch = refl

run_sender-Valid_example : Turned wire sender (run_sender wire sender inputs)
run_sender-Valid_example = run_sender-Valid wire sender inputs sender-Valid (omega arith)

-- Three batches were sent, and the replayer holds the last two.
abbrev batch : ℕ → ReplayEntry (List EncodedEvent)
batch n = record { seq = n; payload = [] }

abbrev last_two : ReplayQueue (List EncodedEvent)
last_two = record { buf = batch 2 ∷ batch 3 ∷ []; capacity = 2 }

abbrev numbered : Publisher (List EncodedEvent)
numbered = record { seq_num = 3; sent = batch 1 ∷ batch 2 ∷ batch 3 ∷ [] }

abbrev later_sender : KvEventSender (List EncodedEvent)
later_sender = record sender { publisher = some numbered; replayer = some last_two }

later_sender-Valid : Valid later_sender
later_sender-Valid = record {
  small = omega arith;
  numbered = record {
    sorted = omega arith;
    given = omega arith;
    replay = record { has_room = omega arith; latest = refl };
  };
}

handle_replay_request-Valid_example :
    handle_replay_request last_two (some 3)
    ≡ batch_reply (batch 3) ∷ sentinel_reply replay_sentinel ∷ []
handle_replay_request-Valid_example =
    handle_replay_request-Valid wire later_sender numbered last_two 3 later_sender-Valid refl refl

abbrev message : ℕ → ReplayEntry ℕ
message n = record { seq = n; payload = n + 10 }

abbrev window : ReplayQueue ℕ
window = record { buf = message 2 ∷ message 3 ∷ []; capacity = 2 }

window-Window : Window (message 1 ∷ message 2 ∷ message 3 ∷ []) window
window-Window = record { has_room = omega arith; latest = refl }

push-Window_example :
    (q' : ReplayQueue ℕ) × (push window (message 4) ≡ some q')
    × Window ((message 1 ∷ message 2 ∷ message 3 ∷ []) ++ message 4 ∷ []) q'
    × (q'.capacity ≡ window.capacity)
push-Window_example =
    push-Window (message 1 ∷ message 2 ∷ message 3 ∷ []) window (message 4) window-Window

since-Window_example : since window 3 ≡ newer 3 (last_n 2 (message 1 ∷ message 2 ∷ message 3 ∷ []))
since-Window_example =
    since-Window (message 1 ∷ message 2 ∷ message 3 ∷ []) window 3 window-Window
      ((omega arith, (omega arith, tt)), ((omega arith, tt), (tt, tt)))

wire-Faithful : Faithful wire (λ e. e) (λ p. p)
wire-Faithful = record {
  event_ok = λ e. (e, refl, refl);
  batch_ok = λ b. (b.events, refl, refl);
  send_ok = λ n. refl;
}

run_sender-flow_example :
    (s' : KvEventSender (List EncodedEvent)) × (run_sender wire sender inputs ≡ some (s', none))
    × (flow (λ e. e) (λ p. p) s' ≡ flow (λ e. e) (λ p. p) sender ++ encoded_of true 16 inputs)
    × (s'.use_vllm_map_event_format ≡ true)
    × (s'.block_size ≡ 16)
    × ((p' : Publisher (List EncodedEvent)) × (s'.publisher ≡ some p') × Numbered p' s'.replayer)
run_sender-flow_example =
    run_sender-flow (λ e. e) (λ p. p) wire wire-Faithful sender (record { seq_num = 0; sent = [] })
      inputs refl rest-Numbered
