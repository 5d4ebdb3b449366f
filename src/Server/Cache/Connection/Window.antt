-- ===== src/Server/Cache/Connection/Window.antt =====
-- The fixed-window limiter that apps/server/src/cache.rs keeps in Redis.
use open_soverign_blog.Prelude.{
  ℕ, suc, ◌+◌, ◌-◌, ◌<◌, ◌≡◌, Option, none, some, List, [], ◌∷◌, All, arith, length, min,
  if◌then◌else◌, ◌≤◌,
}
use open_soverign_blog.Server.Cache.Connection.{Counter, increment, fixed_window_limit}

-- How many of the calls at these instants are admitted, one after the other.
abbrev pub admitted : ℕ → ℕ → Option Counter → List ℕ → ℕ
admitted window limit counter [] = 0
admitted window limit counter (now ∷ later) =
    let result = fixed_window_limit window limit now counter in
    let rest = admitted window limit (some result.0) later in if result.1 then suc rest else rest

live_admitted :
    (window limit : ℕ) (counter : Counter) (times : List ℕ)
    → All (λ t. t < counter.expires_at) times
    → admitted window limit (some counter) times ≡ min (length times) (limit - counter.count)
unfolding fixed_window_limit increment
live_admitted window limit counter [] h = omega arith
live_admitted window limit counter (now ∷ later) h =
    let next = record counter { count = counter.count + 1 } in
    ground (arith, live_admitted window limit next later h.1)

-- No counter is alive.
abbrev pub IsExpired : ℕ → Option Counter → Type 0
IsExpired now none = Unit
IsExpired now (some counter) = counter.expires_at ≤ now

-- When a call finds no live counter it opens a window. Of the calls in that window, itself included,
-- exactly as many as the limit are admitted, or all of them when they are fewer.
pub admitted_lem :
    (window limit now : ℕ) (counter : Option Counter) (later : List ℕ)
    → 0 < limit
    → IsExpired now counter
    → All (λ t. t < now + window) later
    → admitted window limit counter (now ∷ later) ≡ min (length (now ∷ later)) limit
unfolding fixed_window_limit increment
admitted_lem window limit now none later positive old h =
    ground
      (arith, live_admitted window limit (record { count = 1; expires_at = now + window }) later h)
admitted_lem window limit now (some counter) later positive old h =
    ground
      (arith, live_admitted window limit (record { count = 1; expires_at = now + window }) later h)
