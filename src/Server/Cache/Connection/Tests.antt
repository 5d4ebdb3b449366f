-- ===== src/Server/Cache/Connection/Tests.antt =====
-- Runs of the connection of apps/server/src/cache.rs, and the theorems about it at concrete inputs.
use open_soverign_blog.Prelude.{◌+◌, ◌≡◌, refl, true, none, [], ◌∷◌, arith, inl, inr, ok, err, min}
use open_soverign_blog.Text.{codes, byte_len, is_ascii_alphanumeric}
use open_soverign_blog.Server.Cache.Connection.{
  Connection, ManagerLease, begin_attempt, ensure_retry_allowed, handle_command_error,
  install_manager, drop_manager, breaker_failure, backoff, record_connection_failure,
  check_window_parameters, invalid_parameters,
}
use open_soverign_blog.Server.Cache.Connection.Leases.{
  Reachable, start, step, begin, install, error, initial, installed, handle_command_error-other,
}
use open_soverign_blog.Server.Cache.Connection.Window.{admitted, admitted_lem}

second_failure_waits : backoff 2 ≡ 200000000
unfolding backoff
second_failure_waits = refl

colon_is_allowed : check_window_parameters (codes "admin:login") 5 60 ≡ ok tt
unfolding check_window_parameters byte_len is_ascii_alphanumeric
colon_is_allowed = refl

slash_is_not : check_window_parameters (codes "admin/login") 5 60 ≡ err invalid_parameters
unfolding check_window_parameters byte_len is_ascii_alphanumeric
slash_is_not = refl

admitted_lem_example : admitted 60 2 none (0 ∷ 1 ∷ 2 ∷ []) ≡ min 3 2
admitted_lem_example = admitted_lem 60 2 0 none (1 ∷ 2 ∷ []) (omega arith) tt (ground arith)

-- A request opens a connection and fails on it; another one opens the next connection.
abbrev opened : Connection
opened = installed 1 (record initial { attempt = true })

abbrev failed : Connection
failed = handle_command_error 0 1 opened

abbrev reopened : Connection
reopened = installed 2 (record failed { attempt = true })

abbrev stale : ManagerLease
stale = record { manager = 1; generation = 1 }

opened-Reachable : Reachable opened
unfolding begin_attempt ensure_retry_allowed install_manager
opened-Reachable = step (step start (begin 0 0 initial.breaker refl)) (install 1 refl (omega arith))

reopened-Reachable : Reachable reopened
unfolding begin_attempt ensure_retry_allowed install_manager handle_command_error drop_manager
    record_connection_failure breaker_failure backoff
reopened-Reachable =
    step
      (step (step opened-Reachable (error 0 stale (inl refl)))
        (begin 100000000 100000000 failed.breaker refl))
      (install 2 refl (omega arith))

handle_command_error-other_example :
    handle_command_error 5 1 reopened ≡ record reopened { errors = reopened.errors + 1 }
unfolding handle_command_error drop_manager record_connection_failure install_manager
handle_command_error-other_example =
    handle_command_error-other reopened 5 stale 2 reopened-Reachable (inr (inl refl)) refl
      (λ e. omega arith)
