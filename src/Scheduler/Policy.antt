-- ===== src/Scheduler/Policy.antt =====
-- scheduler/scheduler.h and scheduler/scheduler.cc: which executor a scheduler makes, and of which
-- class each executor takes its connections to be.

-- `SchedPolicy`.
pub data SchedPolicy : Type 0 where
  poll_policy uring_policy : SchedPolicy

-- Whether `__APPLE__` is defined.
pub data Platform : Type 0 where
  apple linux : Platform

pub data Executor : Type 0 where
  kqueue_executor epoll_executor uring_executor : Executor

-- The constructor of `Scheduler`.
unfoldable pub make_executor : Platform → SchedPolicy → Executor
make_executor apple poll_policy = kqueue_executor
make_executor apple uring_policy = kqueue_executor
make_executor linux poll_policy = epoll_executor
make_executor linux uring_policy = uring_executor

-- The classes of connections, and the one that an executor's thread casts every connection to.
pub data ConnectionClass : Type 0 where
  poll_connection uring_connection : ConnectionClass

unfoldable pub cast_class : Executor → ConnectionClass
cast_class kqueue_executor = poll_connection
cast_class epoll_executor = poll_connection
cast_class uring_executor = uring_connection
