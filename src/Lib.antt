-- ===== src/Lib.antt =====
-- xuanqiong: a coroutine RPC library over TCP, and what holds of it.
--
-- The program. A server accepts connections, and a client opens one; each end runs two coroutines
-- on a connection. The receiving one reads frames (a header and a body, each a protobuf message
-- behind its length as a uint32_t) from the connection's read buffer; the writing one empties its
-- write buffer. A connection fills and drains its buffers by ::read and ::writev (poll) or by an
-- io_uring; where it cannot go on, the coroutine is suspended by an awaiter, and the executor, one
-- thread with an epoll descriptor or a ring and a queue of tasks, resumes it.
--
-- The files, and the code that each is about:
--   Base                shared names: lists, byte arrays (Memory), machine words (Words), int (Int)
--   Util/Block          util/buffer_block.h: blocks of 8192 bytes, and chains of them
--   Util/Input          util/input_stream.{h,cc}: InputBuffer, one function per member function.
--                       Its well-formedness is Input/Inv; Recv, Stream, Drain, Fetch, Straddle and
--                       Skip are about the operations, Position about the index in a block
--   Util/Output         util/output_stream.{h,cc}: OutputBuffer likewise; Output/Inv, Write, Send
--   Util/Controller     util/service.{h,cc}: RpcController
--   Util/Queue          util/mpmc_queue.h, util/mpmc_queue.inl.h: push and pop as accesses that any
--                       threads interleave. Queue/Inv is the invariant; Fifo, Slots, Refs and
--                       Deleted are about tasks, offsets, the counts, and the deletion of chunks,
--                       to which Solo leads a thread
--   Net/Socket          net/socket.{h,cc}
--   Net/Accepter        net/accepter.{h,cc} and net/socket_utils.{h,cc}, and the constructor of
--                       ClientChannel, as system calls; Accepter/Closing is about their failures
--   Net/Connection      net/connection.h
--   Net/Poll            net/poll_connection.{h,cc}: async_read (Poll/Read), async_write (Poll/Write);
--                       Poll/Kernel is how a kernel offers bytes to ::read
--   Net/Uring           net/uring_connection.{h,cc}; Uring/Flow is about its writes
--   Scheduler/Policy    scheduler/scheduler.{h,cc}: which executor a policy makes
--   Scheduler/Event     scheduler/scheduler.h: event types, and the user_data of a submission
--   Scheduler/Awaiter   scheduler/awaitable.{h,cc}
--   Scheduler/Wakeup    scheduler/epoll_exector.cc: spawn and the executor's thread, as steps
--   Scheduler/Batch     the loop of an executor's thread, as all three executors have it
--   Scheduler/Epoll     scheduler/epoll_exector.cc: add_event, the handling of an event, and the loop (Thread)
--   Scheduler/Uring     scheduler/uring_exector.cc: the handling of a completion, spawn, and the
--                       loop (Thread); Outcome tells what a completion does for all types and results
--   Scheduler/Kqueue    scheduler/kqueue_executor.cc: add_event, spawn, stop, an event's handling,
--                       the loop (Thread), and spawn with the thread as steps (Wakeup)
--   Scheduler/Backends  the epoll and the kqueue executor side by side, on one connection (Own), on
--                       the flag (Flag), and over their whole loops (Threads)
--   Rpc/Codec           proto/message.proto, and the parameters that stand for the protobuf runtime
--                       and the services; Codec/Contract is how the runtime uses a stream
--   Rpc/Stream          how both ends use a connection's streams; Stream/Reading is the way of a
--                       receiving coroutine through bytes of which some are still to arrive
--   Rpc/Server          server/rpc_server.cc: recv_fn, one round at each place where it may wait
--                       (Serving); Loop is its loop, and Session what it makes of a list of requests
--                       (Requests) of which the bytes arrive in any pieces: Going is the state
--                       within them, Rounds its rounds, Stop where it lacks bytes. Start is the
--                       loop that accepts connections
--   Rpc/Client          client/client_channel.{h,cc}: CallMethod (Sessions) and recv_fn, one round at
--                       each place (Receiving); Loop, Replies, Rounds and Handling are its loop over
--                       a list of responses, as for the server. Lifetime is a channel over calls and
--                       rounds in any order: Lifetime/Rounds is what a round does to the table of
--                       sessions, Lifetime/Once what holds of it
--   Rpc/Sending         send_fn of both ends; Sending/Room is send_fn with the epoll executor, where
--                       the kernel takes the bytes in pieces
--   Rpc/Exchange        both ends together: Calls is a list of calls on a channel, Table what they
--                       leave in the table of sessions, Answered their way to the server and back
--   Press               press/rpc_press.cc: the workers and the handling of responses
--   Examples            inputs at which the theorems apply
--
-- State. A buffer is the block that cur_block_ names, the blocks after it, and the counters; the
-- read buffer also keeps the blocks behind. last_block_ always names the last block of the chain.
-- The unread bytes of a read buffer and the unsent bytes of a write buffer are the bytes in use of
-- the chain from cur_block_ on, and a buffer is valid if its chain is well formed and its counter
-- is their number modulo 2 ^ 64. Bytes are natural numbers; a size_t wraps at 2 ^ 64; an int is
-- taken where the code has it within its range, and where it converts a size_t to an int, as
-- async_write does, the conversion is written out. The limit of a read buffer is not negative.
--
-- Loops. Those of skip, append and send_add run on fuel, and `none` means that it ran out. append
-- takes its own fuel, two rounds more than it has bytes; skip and send_add are given theirs, and
-- more than the number of bytes is enough, since every round takes one byte at least. async_write
-- gives send_add one round more than the bytes that it counted. The recv_fn of either end runs on fuel,
-- a round each, and four for each request or response and one more are enough. The loops around system calls run
-- on the list of the calls' results.
--
-- Parameters. The results of system calls, whether a call of epoll_ctl succeeds, and whether a ring
-- has a free entry are arguments; IOV_MAX is one too. The protobuf runtime, the services, and the
-- client's response messages are records of functions. Of the runtime a contract is assumed: a
-- parser that succeeds calls next on a limited stream until it fails, and a printer fills regions
-- of next with the message's bytes and gives the rest of the last back. Examples/Runtime keeps it.
-- The memory of a variable before it is set is an argument. The server's loop takes what the
-- writing coroutine does when it is resumed as a parameter, and each constructor that makes system
-- calls whether the kernel lets a call succeed after the calls before it. The loop of an executor's
-- thread takes what a coroutine does to its connection when it is resumed; the tasks are functions
-- on the connections, which are named by their addresses.
--
-- Threads. Four parts are concurrent. The steps of the queue are its threads' single accesses, in
-- any order that is sequentially consistent; an exchange that may fail without cause may fail at
-- any time, indices stay below 2 ^ 64, and the address of a deleted chunk is not used again. The
-- steps of the two wake-ups are the accesses to the queue, the flag and the eventfd or event; the
-- queue of tasks is there a list, as Util/Queue/Fifo has it. Those of the load generator are the
-- accesses to its counters.
--
-- Not modelled: the set-up and the end of executors; the registering of services, which are a
-- parameter; the writing coroutine over a ring connection; the conversions of addresses; the main
-- function of the load generator, which waits and prints; the examples, the tests and the vendored
-- libraries. The destructors, which only free, are left out.
pub mod Base
pub mod Util
pub mod Net
pub mod Scheduler
pub mod Rpc
pub mod Press
mod Examples
