-- ===== src/Rpc/Server/Start.antt =====
-- server/rpc_server.cc: the constructor's scheduler, and `start`, which makes a connection for each
-- accepted descriptor and has two coroutines started for it. What the calls of `accept` return, and
-- whether a task is queued, are arguments.
use Prim.Native.String.{String}
use xuanqiong.Base.{ℕ, suc, ◌≡◌, refl, sym, ap, ◌∙◌, false, some, List, [], ◌∷◌}
use xuanqiong.Util.Output
use xuanqiong.Net.Socket.{open_socket}
use xuanqiong.Net.Connection.{Connection, closed, set_write_handle}
use xuanqiong.Net.Connection
use xuanqiong.Scheduler.Awaiter.{wait_write_ready}
use xuanqiong.Scheduler.Policy.{
  SchedPolicy, poll_policy, uring_policy, Platform, apple, linux, make_executor, ConnectionClass,
  poll_connection, uring_connection, cast_class,
}
use xuanqiong.Rpc.Sending.{waits_bytes, send_fn}

-- The class that `start` makes a connection of.
unfoldable pub class_of : Platform → SchedPolicy → ConnectionClass
class_of apple p = poll_connection
class_of linux poll_policy = poll_connection
class_of linux uring_policy = uring_connection

-- A task that is spawned: one of the coroutines, for a connection of a class.
pub data Task : Type 0 where
  send_task recv_task : ConnectionClass → Connection → Task

-- What a call of `accept` gives: a descriptor, with the two ends that the kernel reports for it, or
-- nothing, with `errno` being EINTR or not.
pub data Accepted : Type 0 where
  interrupted failed : Accepted
  accepted : ℕ → String × ℕ → String × ℕ → Accepted

-- `start` over the calls of `accept`: the tasks spawned, and how many errors are reported.
unfoldable pub start : Platform → SchedPolicy → List Accepted → List Task × ℕ
unfolding class_of Connection.init open_socket
start platform policy [] = ([], 0)
start platform policy (interrupted ∷ calls) = start platform policy calls
start platform policy (failed ∷ calls) =
    let (tasks, errors) = start platform policy calls in (tasks, suc errors)
start platform policy (accepted fd here peer ∷ calls) =
    let (tasks, errors) = start platform policy calls in
    let c = Connection.init (open_socket fd here peer) false in
    let k = class_of platform policy in (send_task k c ∷ recv_task k c ∷ tasks, errors)

-- The connections that were accepted, and the two tasks of each, in order.
unfoldable pub connections : List Accepted → List Connection
unfolding Connection.init open_socket
connections [] = []
connections (interrupted ∷ calls) = connections calls
connections (failed ∷ calls) = connections calls
connections (accepted fd here peer ∷ calls) =
    Connection.init (open_socket fd here peer) false ∷ connections calls

unfoldable pub both_tasks : ConnectionClass → List Connection → List Task
both_tasks k [] = []
both_tasks k (c ∷ cs) = send_task k c ∷ recv_task k c ∷ both_tasks k cs

cast_matches :
    (platform : Platform) (policy : SchedPolicy)
    → cast_class (make_executor platform policy) ≡ class_of platform policy
unfolding cast_class make_executor class_of
cast_matches apple poll_policy = refl
cast_matches apple uring_policy = refl
cast_matches linux poll_policy = refl
cast_matches linux uring_policy = refl

tasks_lem :
    (platform : Platform) (policy : SchedPolicy) (calls : List Accepted)
    → (start platform policy calls).0 ≡ both_tasks (class_of platform policy) (connections calls)
unfolding start connections both_tasks
tasks_lem platform policy [] = refl
tasks_lem platform policy (interrupted ∷ calls) = tasks_lem platform policy calls
tasks_lem platform policy (failed ∷ calls) = tasks_lem platform policy calls
tasks_lem platform policy (accepted fd here peer ∷ calls) =
    let c = Connection.init (open_socket fd here peer) false in
    let k = class_of platform policy in
    ap (λ ts. send_task k c ∷ recv_task k c ∷ ts) (tasks_lem platform policy calls)

-- The sending coroutine, run on a new connection, waits for bytes.
first_wait :
    (iov_max handle fd : ℕ) (here peer : String × ℕ)
    → let c = Connection.init (open_socket fd here peer) false in
      send_fn iov_max handle [] c [] ≡ some (waits_bytes (set_write_handle c handle) [])
unfolding send_fn wait_write_ready Connection.init Output.init open_socket
first_wait iov_max handle fd here peer = refl

-- On either platform, with either policy, and whatever the calls of `accept` return: `start`
-- spawns for each accepted descriptor, in order, the writing and then the reading coroutine of a
-- new connection, of the class that the thread of the scheduler's executor takes its connections
-- to be. And the writing coroutine, run first on a new poll connection, waits for bytes with its
-- handle set, having written nothing.
pub start_lem :
    (platform : Platform) (policy : SchedPolicy) (calls : List Accepted) (iov_max handle fd : ℕ)
    (here peer : String × ℕ)
    → ((start platform policy calls).0
        ≡ both_tasks (cast_class (make_executor platform policy)) (connections calls))
      × (let c = Connection.init (open_socket fd here peer) false in
          send_fn iov_max handle [] c [] ≡ some (waits_bytes (set_write_handle c handle) []))
start_lem platform policy calls iov_max handle fd here peer = (
  tasks_lem platform policy calls
      ∙ ap (λ k. both_tasks k (connections calls)) (sym (cast_matches platform policy)),
  first_wait iov_max handle fd here peer,
)
