-- ===== src/Server/Admission.antt =====
-- apps/server/src/admission.rs: a bounded sliding-window limiter for each identity. An `Instant` and
-- a `Duration` are numbers of nanoseconds, and a key of 32 bytes is a number. The hash map is the
-- list of its entries in the order in which it is iterated; nothing is assumed of that order.
pub mod Entries
pub mod Room
pub mod Bounds
pub mod Tracking
pub mod Window
use open_soverign_blog.Prelude.{
  ℕ, zero, suc, ◌-◌, Bool, true, false, not, Option, none, some, List, [], ◌∷◌, ◌++◌, ltb, leb,
  ◌==◌, if◌then◌else◌, length, filter, is_some, ◌&&◌,
}
use open_soverign_blog.Server.Admission.Entries.{Key, Map, find, remove, upsert}

pub record AttemptBucket : Type 0 where
  pub attempts : List ℕ
  pub last_seen : ℕ

pub record KeyedRateLimiter : Type 0 where
  pub buckets : Map AttemptBucket
  pub maximum_buckets : ℕ
  pub attempts_per_window : ℕ
  pub window : ℕ

-- `KeyedRateLimiter::new`; a failed assertion is `none`
unfoldable pub new : ℕ → ℕ → ℕ → Option KeyedRateLimiter
new maximum_buckets attempts_per_window window =
    if ltb 0 maximum_buckets && ltb 0 attempts_per_window && not (window == 0)
    then some (record {
      buckets = [];
      maximum_buckets = maximum_buckets;
      attempts_per_window = attempts_per_window;
      window = window;
    })
    else none

-- `KeyedRateLimiter::forget`
unfoldable pub forget : Key → KeyedRateLimiter → KeyedRateLimiter
forget key l = record l { buckets = remove key l.buckets }

-- `saturating_duration_since` is subtraction that stops at 0
unfoldable pub is_recent : ℕ → ℕ → Key × AttemptBucket → Bool
is_recent now window (key, bucket) = ltb (now - bucket.last_seen) window

-- `min_by_key` over the entries behind the best one so far; the first of several is kept
oldest_from : Key → ℕ → Map AttemptBucket → Key
oldest_from best seen [] = best
oldest_from best seen ((key, bucket) ∷ rest) =
    if ltb bucket.last_seen seen
    then oldest_from key bucket.last_seen rest
    else oldest_from best seen rest

unfoldable pub oldest : Map AttemptBucket → Option Key
unfolding oldest_from
oldest [] = none
oldest ((key, bucket) ∷ rest) = some (oldest_from key bucket.last_seen rest)

remove_found : Option Key → Map AttemptBucket → Map AttemptBucket
remove_found none buckets = buckets
remove_found (some key) buckets = remove key buckets

-- The entry that is removed because the map is full.
unfoldable pub evicted : ℕ → Map AttemptBucket → Option Key
evicted maximum buckets = if leb maximum (length buckets) then oldest buckets else none

unfoldable pub retained : ℕ → ℕ → Map AttemptBucket → Map AttemptBucket
retained now window buckets = filter (is_recent now window) buckets

-- The first part of `admit_at`: room for a key that is not there yet.
unfoldable pub make_room : Key → ℕ → KeyedRateLimiter → Map AttemptBucket
unfolding remove_found
make_room key now l =
    if not (is_some (find key l.buckets))
    then (let kept = retained now l.window l.buckets in
        remove_found (evicted l.maximum_buckets kept) kept)
    else l.buckets

-- the `while` loop over the front of the queue
unfoldable pub pop_expired : ℕ → ℕ → List ℕ → List ℕ
pop_expired now window [] = []
pop_expired now window (attempt ∷ rest) =
    if leb window (now - attempt) then pop_expired now window rest else attempt ∷ rest

-- the attempts of an entry, or of the one that `or_insert_with` makes
abbrev pub attempts_of : Option AttemptBucket → List ℕ
attempts_of none = []
attempts_of (some bucket) = bucket.attempts

-- `KeyedRateLimiter::admit_at`
unfoldable pub admit_at : Key → ℕ → KeyedRateLimiter → KeyedRateLimiter × Bool
admit_at key now l =
    let room = make_room key now l in
    let attempts = pop_expired now l.window (attempts_of (find key room)) in
    if leb l.attempts_per_window (length attempts)
    then (
      record l { buckets = upsert key (record { attempts = attempts; last_seen = now }) room },
      false,
    )
    else (
      record l {
        buckets = upsert key (record { attempts = attempts ++ (now ∷ []); last_seen = now }) room;
      },
      true,
    )
