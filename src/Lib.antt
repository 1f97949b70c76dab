-- ===== src/Lib.antt =====
-- The HurriCache Python client: hurricache/grpc of the repository, less the generated code.
--
-- The parts of the program, and where they are modelled:
-- - hurricache/grpc/models.py, exceptions.py: Models, Errors. A function that raises returns a
--   `Result`; `Errors.Mapping` is `mapped_rpc_error`.
-- - proto/cache.proto: Messages and Rpc, the messages and the remote procedures that the client
--   uses, with the type of each answer.
-- - hurricache/grpc/operation.py: Effects and Operation. The context variables, the clocks' readings
--   and the requests sent are a `World` that is passed on explicitly; `operation` sets the
--   variables for its body and restores them.
-- - hurricache/grpc/utils.py: Wire (keys, values and hints, to messages and back; `Wire.Packing` is
--   `chunk_messages`) and the first half of Streams (`decode_batch`).
-- - hurricache/grpc/batching.py: Batching. `plan` is written over an interface, `Batchable`, of what
--   it does with a message type; Batching.Shapes fills it for the four types.
-- - hurricache/grpc/client.py: Streams (`_collect_stream`), Client (`_call`, `_call_add_chunked`,
--   `_create_container_chunked`), and the public operations under their own names in Client.Values,
--   Client.Reads, Client.Collections, Client.Creations, Client.Insertions and Client.Atomics, which
--   plan with Batching, encode with Wire and send through `call`.
-- - hurricache/grpc/async_client.py: Async (`_unary`, `_stream`, `_send_add_chunks`,
--   `_create_container_chunked`), and the public operations under their own names in Async.Values,
--   Async.Reads, Async.Collections, Async.Containers, Async.Insertions and Async.Atomics. They plan,
--   encode and decode with the modules that the synchronous client uses.
-- - The channel of both direct clients, its stub and `close`: Connection.
-- - hurricache/grpc/smart_client.py: Topology (`_topology_from`, `_merge_topology`), Routing (the
--   shard, the endpoints and the two attempts of `_execute`), Smart.Targets (`_split_target`,
--   `_coordinator_addresses`), Smart (the state of `HurriCacheSmartClient`, `_apply_topology`,
--   `_execute`, `close`), Smart.Refresh (`_refresh_once`), Smart.Routed (`_execute` in the scope of
--   its deadline, behind `wait_until_ready`), Smart.Modes (`set_mode`, `clear_mode`, `mode`) and
--   Smart.Steps, where the threads of a smart client alternate in any order: a step is a section
--   under the lock, or one close of a client in a loop behind the lock, or in `close`, which holds
--   the lock from the first to the last of them. A client of an endpoint is a number there, and the
--   state has the numbers of the clients that were closed.
--   AsyncSmart is the asynchronous smart client, as functions that run between two `await`s; in
--   AsyncSmart.Steps its tasks alternate at the `await`s that close clients, and may be cancelled
--   there. The state of a step has a list, `dropped`, of the clients that a cancelled loop did not
--   come to; the program has none.
-- The theorems stand below the module of the code that they are about; Samples applies each of them
-- to concrete inputs.
--
-- What the client does not implement is a parameter: `Env` has the server, as a function of the
-- requests sent before, the clocks, gzip, UTF-8 and the size of an encoded message. `GzipLaws` says
-- that decompression undoes compression, `SizeLaws` that a larger key hint makes no message smaller.
--
-- Bounds and fuel: sizes and hashes are natural numbers with the source's own checks; a hash is cut
-- to 32 bits as the code cuts it. The client id, the order and the expiration of keys and values are
-- natural numbers too, and raise where the field of the message is too narrow, by `Wire.unsigned`.
-- The binary search and the loop of `plan` run on fuel, the number of items each: every round of the
-- loop takes one item at least, and every round of the search makes its interval shorter. Where the
-- fuel is out before the end, the error is `out_of_fuel`, which the program does not have. A refresh
-- makes as many attempts as there are coordinators.
--
-- Not modelled: rounding of floats (a float is a whole number of microseconds), the causes of
-- chained exceptions, negative client ids and orders, the range checks of protobuf setters for other
-- fields than those named above, what gRPC channels do, the waits between attempts, a refreshing
-- thread that outlives its join, and `_hint_from_call`, which reads the hint from a call's
-- arguments. Overlapping calls of `close` on one client are not either.
pub mod Base
pub mod Models
pub mod Errors
pub mod Messages
pub mod Rpc
pub mod Effects
pub mod Operation
pub mod Wire
pub mod Batching
pub mod Streams
pub mod Client
pub mod Topology
pub mod Routing
pub mod Smart
pub mod Async
pub mod AsyncSmart
pub mod Samples
pub mod Connection
