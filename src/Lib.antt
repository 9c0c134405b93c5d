-- ===== src/Lib.antt =====
-- Verification library of the inference simulator: a server that answers OpenAI-style requests with
-- simulated latencies, and keeps the state that a real inference server would keep.
--
-- The parts of the program and the files that model them:
--   Common, Common/*: lists, Go maps as association lists, tests and equality.
--   Channel: the non-blocking writes to bounded channels of pkg/common/utils.go.
--   BlockCache, BlockCache/*: the KV block cache of pkg/kvcache/block_cache.go. BlockCache has the
--     state and the small methods, Evict pickBlockToEvict, Start startRequest, Finish finishRequest,
--     Create newBlockCache; History runs sequences of calls.
--   Lora, Lora/*: the LoRA adaptors, their counts and slots of pkg/simulator/lora.go. The KV cache is
--     told about loaded models through BlockCache.
--   Scheduler, Scheduler/*: the waiting queue and the cases of the processing loop of
--     pkg/simulator/simulator.go, which load LoRAs and hand requests to workers. The loop of the
--     removable LoRA runs on fuel; one more than the number of waiting requests is enough.
--   Events, Events/*: the sender of the KV cache's events of pkg/kvcache/kv_cache_sender.go with
--     PublishEvent of pkg/common/publisher.go, and the queue and the replies of
--     pkg/kvcache/kv_events_replayer.go. The msgpack encoder and the outcome of each send are the
--     fields of a record, `Wire`.
--   Moe, Moe/*: the first placement of experts on ranks of pkg/simulator/moe.go, and the checks of its
--     dimensions in pkg/common/config.go; Moe/Dhondt has the replica counts of dhondtPlaceOneLayer,
--     with the float64 score and its comparison as parameters. A panic is an error value.
--   MoeTrace, MoeTrace/*: the files of recorded expert routes of pkg/moetrace. Accumulator has the routes
--     of one prompt (accumulator.go), Words, Header and Length the binary format with its checked sizes
--     (format.go), Slices and Writer the writer (writer.go), Reader and Open the reader (reader.go),
--     Source the checks of the source and the loop over its records (source.go), Open/Convert the case of
--     the trace field and the end of Convert (converter.go). encoding/json is a pair of functions, and
--     the records are decoded.
--   StartOptions, StartOptions/*: ParseStartOptions of pkg/simulator/start_options.go; strconv.ParseBool
--     is a parameter.
--
-- Not modelled: the other parts of the MoE simulation, and the use of its traces, the rest of the configuration,
-- latencies, metrics, datasets and tool calls; network and file access, generated code, tokenizers
-- and random sources, which are I/O or other libraries.
--
-- How the model stands to the code. A Go struct is a record and a method a function that returns the
-- new record; a mutex makes each method one step. A map is an association list whose order stands for
-- Go's unspecified order of iteration, so theorems hold for every order. Machine integers are natural
-- numbers; those of the trace format wrap at their widths, the others do not. Clock readings are
-- arguments. Errors are values; their texts are left out. Log lines are left out.
pub mod Common
pub mod Channel
pub mod BlockCache
pub mod Lora
pub mod Scheduler
pub mod Events
pub mod Moe
pub mod MoeTrace
pub mod StartOptions
