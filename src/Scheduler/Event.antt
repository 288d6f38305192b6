-- ===== src/Scheduler/Event.antt =====
-- scheduler/scheduler.h: event types and events. An event's connection is named by its address.
use xuanqiong.Base.{ℕ, ◌+◌, ◌*◌, ◌/◌, ◌%◌, ◌^◌, ◌<◌, ◌≡◌, arith, ◌==◌, if◌then◌else◌}

pub data EventType : Type 0 where
  read write delete unknown : EventType

pub record EventItem : Type 0 where
  pub type : EventType
  pub conn : ℕ

-- The `uint8_t` of an event type, and the type of a number. A number past the enumerators is none
-- of them; the code that reads it compares with READ and WRITE alone, as with `unknown`.
abbrev pub code : EventType → ℕ
code read = 0
code write = 1
code delete = 2
code unknown = 3

abbrev pub type_of : ℕ → EventType
type_of n = if n == 0 then read else if n == 1 then write else if n == 2 then delete else unknown

-- `(static_cast<uint64_t>(type) << 56) | reinterpret_cast<uint64_t>(conn)`, at an address below
-- 2 ^ 56, where `|` adds; and its two halves again.
unfoldable pub user_data : EventType → ℕ → ℕ
user_data t conn = code t * 2 ^ 56 + conn

unfoldable pub event_type : ℕ → EventType
event_type u = type_of (u / 2 ^ 56)

unfoldable pub conn_part : ℕ → ℕ
conn_part u = u % 2 ^ 56

-- For a connection's address below 2 ^ 56: the event type and the address put into `user_data`
-- are what a completion takes out of it, and the word is below 2 ^ 64.
pub user_data_parts :
    (t : EventType) (conn : ℕ)
    → conn < 2 ^ 56
    → (event_type (user_data t conn) ≡ t)
      × (conn_part (user_data t conn) ≡ conn)
      × (user_data t conn < 2 ^ 64)
unfolding event_type conn_part user_data
user_data_parts read conn h = ground arith
user_data_parts write conn h = ground arith
user_data_parts delete conn h = ground arith
user_data_parts unknown conn h = ground arith
