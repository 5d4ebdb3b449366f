-- ===== src/Server/Cache/Connection/Backoff.antt =====
-- How long reconnects are paused, and what the snapshot shows.
use open_soverign_blog.Prelude.{
  inl, inr, ℕ, zero, suc, ◌+◌, ◌*◌, ◌^◌, ◌≤◌, ◌<◌, ◌≡◌, ◌↔◌, refl, true, some, List, [], ◌∷◌, arith,
  length, min, ok, ap, Bool-cases, leb,
}
use open_soverign_blog.Server.Cache.Word.{reads_safe}
use open_soverign_blog.Server.Cache.Connection.{
  BreakerState, breaker_new, breaker_failure, backoff, ensure_retry_allowed, reconnect_backoff_min,
  reconnect_backoff_max, snapshot_state, active,
}

-- The breaker after a failure at each of these instants, the latest one first.
abbrev pub after_failures : List ℕ → BreakerState
after_failures [] = breaker_new
after_failures (now ∷ earlier) = breaker_failure now (after_failures earlier)

abbrev pub doubled : ℕ → ℕ
doubled zero = reconnect_backoff_min
doubled (suc n) = min (2 * doubled n) reconnect_backoff_max

failures_counted :
    (times : List ℕ)
    → length times < 2 ^ 32
    → (after_failures times).consecutive_failures ≡ length times
unfolding breaker_failure
failures_counted [] h = refl
failures_counted (now ∷ times) h = omega (arith, failures_counted times (omega arith))

power_large : (n : ℕ) → 5 ≤ n → 32 ≤ 2 ^ n
power_large zero h = omega arith
power_large (suc n) h = elim (Bool-cases (leb 5 n)) [
  | inl e ↦ omega (arith, power_large n (ground arith))
  | inr e ↦ let small : n ≡ 4 = ground arith in rw small (omega arith)
]

doubled_large : (k : ℕ) → doubled (suc (suc (suc (suc (suc k))))) ≡ reconnect_backoff_max
doubled_large zero = refl
doubled_large (suc k) = ground (arith, doubled_large k)

-- The delay doubles from 100 milliseconds with each failure, up to 2 seconds.
backoff-doubled : (n : ℕ) → backoff (suc n) ≡ doubled n
unfolding backoff
backoff-doubled zero = refl
backoff-doubled (suc zero) = refl
backoff-doubled (suc (suc zero)) = refl
backoff-doubled (suc (suc (suc zero))) = refl
backoff-doubled (suc (suc (suc (suc zero)))) = refl
backoff-doubled (suc (suc (suc (suc (suc k))))) =
    ground
      (arith, doubled_large k, power_large (min (suc (suc (suc (suc (suc k))))) 31) (omega arith))

-- After failures at some instants, fewer than 2 ^ 32 of them and none followed by a success, a
-- reconnect is allowed exactly when the delay has passed since the latest one: 100 milliseconds after
-- one failure, doubled by each failure before it up to 2 seconds.
pub retry_iff :
    (now : ℕ) (earlier : List ℕ) (t : ℕ)
    → length (now ∷ earlier) < 2 ^ 32
    → (ensure_retry_allowed t (after_failures (now ∷ earlier)) ≡ ok tt)
      ↔ (now + doubled (length earlier) ≤ t)
unfolding ensure_retry_allowed
retry_iff now earlier t h =
    let deadline : (after_failures (now ∷ earlier)).retry_not_before
        ≡ some (now + doubled (length earlier)) =
      unfold breaker_failure in
      ap some (
        ground (arith, failures_counted earlier (omega arith), backoff-doubled (length earlier))) in
    rw deadline (λ e. ground arith, λ e. ground arith)

-- The snapshot calls the cache active exactly when the coherence word is clean, no mutation is active,
-- and the stored state is 1.
pub snapshot_state-active_iff :
    (coherence active_mutations state : ℕ)
    → (snapshot_state coherence active_mutations state ≡ active)
      ↔ ((reads_safe coherence ≡ true) × (active_mutations ≡ 0) × (state ≡ 1))
unfolding snapshot_state
snapshot_state-active_iff coherence active_mutations state =
    (λ h. (ground arith, ground arith, ground arith), λ h. ground arith)
