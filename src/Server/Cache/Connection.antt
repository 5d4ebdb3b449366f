-- ===== src/Server/Cache/Connection.antt =====
-- The connection of apps/server/src/cache.rs: the breaker in front of reconnects, the slot of the
-- connection manager, the health that the snapshot shows, and the fixed-window limiter in Redis.
-- A connection manager is known by a number of its own, and an instant is a number of nanoseconds.
pub mod Backoff
pub mod Leases
pub mod Window
mod Tests
use open_soverign_blog.Prelude.{
  ℕ, ◌+◌, ◌-◌, ◌*◌, ◌^◌, ◌%◌, Bool, true, false, ◌&&◌, ◌||◌, not, Option, none, some, List, ltb,
  leb, ◌==◌, if◌then◌else◌, is_some_and, is_some, min, max, is_empty, all, Result, ok, err, ◌>>=◌,
  ◌>>◌, reject_if,
}
use open_soverign_blog.Text.{Text, byte_len, is_ascii_alphanumeric}
use open_soverign_blog.Server.Cache.Word.{u64_mod, reads_safe}

-- `RECONNECT_BACKOFF_MIN`, 100 milliseconds, and `RECONNECT_BACKOFF_MAX`, 2 seconds
abbrev pub reconnect_backoff_min : ℕ
reconnect_backoff_min = 100 * 1000000

abbrev pub reconnect_backoff_max : ℕ
reconnect_backoff_max = 2 * 1000000000

pub data ConnectionError : Type 0 where
  paused_after_failure in_progress could_not_connect invalid_parameters : ConnectionError

pub record BreakerState : Type 0 where
  pub consecutive_failures : ℕ
  pub retry_not_before : Option ℕ

-- `ReconnectControl::new`, without the gate
abbrev pub breaker_new : BreakerState
breaker_new = record { consecutive_failures = 0; retry_not_before = none }

-- `ReconnectControl::ensure_retry_allowed`
unfoldable pub ensure_retry_allowed : ℕ → BreakerState → Result (Unit {0}) ConnectionError
ensure_retry_allowed now b =
    reject_if (is_some_and b.retry_not_before (λ deadline. ltb now deadline)) paused_after_failure

-- `ReconnectControl::begin_attempt`: the first look at the breaker, the gate, the second look. Other
-- requests may fail in between, so the breaker is read twice.
unfoldable pub begin_attempt :
    ℕ → BreakerState → Bool → ℕ → BreakerState → Result (Unit {0}) ConnectionError
begin_attempt now breaker held later breaker' = do
  ensure_retry_allowed now breaker
  reject_if held in_progress
  ensure_retry_allowed later breaker'

unfoldable pub backoff : ℕ → ℕ
backoff consecutive_failures =
    let exponent = min (consecutive_failures - 1) 31 in
    min (reconnect_backoff_min * 2 ^ exponent) reconnect_backoff_max

-- `ReconnectControl::record_failure`; the counter is a u32 that stops at its maximum
unfoldable pub breaker_failure : ℕ → BreakerState → BreakerState
breaker_failure now b =
    let failures = min (b.consecutive_failures + 1) (2 ^ 32 - 1) in
    record { consecutive_failures = failures; retry_not_before = some (now + backoff failures) }

-- `ReconnectControl::record_success`
abbrev pub breaker_success : BreakerState → BreakerState
breaker_success b = record { consecutive_failures = 0; retry_not_before = none }

pub record ManagerSlot : Type 0 where
  pub manager : Option ℕ
  pub generation : ℕ

pub record ManagerLease : Type 0 where
  pub manager : ℕ
  pub generation : ℕ

abbrev lease_of : Option ℕ → ℕ → Option ManagerLease
lease_of none generation = none
lease_of (some manager) generation = some (record { manager = manager; generation = generation })

-- `current_manager`
unfoldable pub current_manager : ManagerSlot → Option ManagerLease
current_manager slot = lease_of slot.manager slot.generation

-- The end of `manager`: a new manager under the next generation, which is never zero.
unfoldable pub install_manager : ℕ → ManagerSlot → ManagerSlot
install_manager manager slot = record {
  manager = some manager;
  generation = max ((slot.generation + 1) % u64_mod) 1;
}

-- `drop_manager`
unfoldable pub drop_manager : ℕ → ManagerSlot → ManagerSlot × Bool
drop_manager generation slot =
    if slot.generation == generation && is_some slot.manager
    then (record slot { manager = none }, true)
    else (slot, false)

-- The parts of `Inner` that the commands keep, and two that the requests hold: the gate of
-- `ReconnectControl`, and their leases.
pub record Connection : Type 0 where
  pub slot : ManagerSlot
  pub breaker : BreakerState
  pub state : ℕ
  pub errors : ℕ
  pub last_success : ℕ
  pub attempt : Bool
  pub leases : List ManagerLease

-- `record_success`, and `record_error` without the text of the error
abbrev pub record_success : ℕ → Connection → Connection
record_success now c = record c {
  breaker = breaker_success c.breaker;
  state = 1;
  last_success = now;
}

abbrev pub record_error : Connection → Connection
record_error c = record c { state = 2; errors = c.errors + 1 }

-- `record_connection_failure`
unfoldable pub record_connection_failure : ℕ → Connection → Connection
record_connection_failure now c =
    record_error (record c { breaker = breaker_failure now c.breaker })

-- `handle_command_error`
unfoldable pub handle_command_error : ℕ → ℕ → Connection → Connection
handle_command_error now generation c =
    let dropped = drop_manager generation c.slot in
    if dropped.1
    then record_connection_failure now (record c { slot = dropped.0 })
    else record c { errors = c.errors + 1 }

pub data CacheState : Type 0 where
  active degraded connecting : CacheState

-- The `state` of `snapshot`, from the coherence word, the active mutations and the stored state.
unfoldable pub snapshot_state : ℕ → ℕ → ℕ → CacheState
snapshot_state coherence active_mutations state =
    if not (reads_safe coherence && active_mutations == 0)
    then degraded
    else if state == 1
    then active
    else if state == 2
    then degraded
    else connecting

-- The guard of `admit_fixed_window`.
unfoldable pub check_window_parameters : Text → ℕ → ℕ → Result (Unit {0}) ConnectionError
check_window_parameters bucket limit window_seconds =
    reject_if
      (is_empty bucket
        || ltb 96 (byte_len bucket)
        || not (all (λ c. is_ascii_alphanumeric c || (c == b'_' || c == b'-' || c == b':')) bucket)
        || limit == 0
        || window_seconds == 0)
      invalid_parameters

-- A counter in Redis, until it expires.
pub record Counter : Type 0 where
  pub count : ℕ
  pub expires_at : ℕ

-- `INCR` of a key that may have expired, and `EXPIRE` when the count is 1
unfoldable pub increment : ℕ → ℕ → Option Counter → Counter
increment now window none = record { count = 1; expires_at = now + window }
increment now window (some counter) =
    if ltb now counter.expires_at
    then record counter { count = counter.count + 1 }
    else record { count = 1; expires_at = now + window }

-- FIXED_WINDOW_LIMIT_SCRIPT
unfoldable pub fixed_window_limit : ℕ → ℕ → ℕ → Option Counter → Counter × Bool
fixed_window_limit window limit now counter =
    let next = increment now window counter in (next, leb next.count limit)
