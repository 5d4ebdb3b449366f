-- ===== src/Server/Admission/Bounds.antt =====
-- The memory that the limiter of apps/server/src/admission.rs takes, whatever the calls.
use open_soverign_blog.Prelude.{
  ℕ, ◌≤◌, ◌<◌, ◌≡◌, some, List, [], ◌∷◌, ◌++◌, arith, ◌==◌, leb, length, length-append,
  Option-cases, Bool-cases, inl, inr, not,
}
use open_soverign_blog.Server.Admission.Entries.{
  Key, find, remove, upsert, IsMap, IsMap-remove, IsMap-upsert, find-upsert, find-remove,
  length-filter-le, length-upsert,
}
use open_soverign_blog.Server.Admission.{
  AttemptBucket, KeyedRateLimiter, new, forget, make_room, pop_expired, attempts_of, admit_at,
}
use open_soverign_blog.Server.Admission.Room.{
  make_room-IsMap, length-make_room-le, length-make_room-lt, make_room-cases,
}

pub record IsBounded (l : KeyedRateLimiter) : Type 0 where
  pub has_room : 0 < l.maximum_buckets
  pub positive : 0 < l.attempts_per_window
  pub buckets_bound : length l.buckets ≤ l.maximum_buckets
  pub is_map : IsMap l.buckets
  pub attempts_bound :
      (key : Key) → length (attempts_of (find key l.buckets)) ≤ l.attempts_per_window

length-pop_expired-le :
    (now window : ℕ) (xs : List ℕ) → length (pop_expired now window xs) ≤ length xs
unfolding pop_expired
length-pop_expired-le now window [] = omega arith
length-pop_expired-le now window (x ∷ xs) = ground (arith, length-pop_expired-le now window xs)

-- A new limiter is bounded.
pub new-IsBounded :
    (maximum_buckets attempts_per_window window : ℕ) (l : KeyedRateLimiter)
    → new maximum_buckets attempts_per_window window ≡ some l
    → IsBounded l
unfolding new find
new-IsBounded maximum_buckets attempts_per_window window l h = record {
  has_room = ground arith;
  positive = ground arith;
  buckets_bound = ground arith;
  is_map = ground arith;
  attempts_bound = λ key. ground arith;
}

module _ (key : Key) (now : ℕ) (l : KeyedRateLimiter) (h : IsBounded l) where
  -- The attempts of the key that are left when the expired ones are dropped.
  abbrev pub left : List ℕ
  left = pop_expired now l.window (attempts_of (find key (make_room key now l)))

  room_attempts :
      (j : Key) → length (attempts_of (find j (make_room key now l))) ≤ l.attempts_per_window
  room_attempts j = elim (make_room-cases key now l j h.is_map) [
    | inl same ↦ rw same (h.attempts_bound j)
    | inr (b, found, gone, why) ↦ rw gone (omega arith)
  ]

  upsert-buckets :
      (b : AttemptBucket) → length (upsert key b (make_room key now l)) ≤ l.maximum_buckets
  upsert-buckets b = rw length-upsert (elim (Option-cases (find key (make_room key now l))) [
    | inl e ↦ rw e (omega (arith, length-make_room-lt key now l h.has_room h.buckets_bound e))
    | inr (c, e) ↦ rw e (length-make_room-le key now l h.has_room h.buckets_bound)
  ])

  upsert-attempts :
      (b : AttemptBucket) (j : Key)
      → length b.attempts ≤ l.attempts_per_window
      → length (attempts_of (find j (upsert key b (make_room key now l)))) ≤ l.attempts_per_window
  upsert-attempts b j fits = rw find-upsert (ground (arith, room_attempts j))

  upsert-IsBounded :
      (b : AttemptBucket)
      → length b.attempts ≤ l.attempts_per_window
      → IsBounded (record l { buckets = upsert key b (make_room key now l) })
  upsert-IsBounded b fits = record {
    has_room = h.has_room;
    positive = h.positive;
    buckets_bound = upsert-buckets b;
    is_map = IsMap-upsert key b (make_room key now l) (make_room-IsMap key now l h.is_map);
    attempts_bound = λ j. upsert-attempts b j fits;
  }

  -- Every call keeps the map within its bound, its keys distinct, and the attempts of each key within
  -- the number that a window allows.
  pub admit_at-IsBounded : IsBounded (admit_at key now l).0
  unfolding admit_at
  admit_at-IsBounded = elim (Bool-cases (leb l.attempts_per_window (length left))) [
    | inl full ↦ rw full (
        upsert-IsBounded (record { attempts = left; last_seen = now })
          (omega (
            arith,
            length-pop_expired-le now l.window (attempts_of (find key (make_room key now l))),
            room_attempts key,
          )))
    | inr free ↦ rw free (
        upsert-IsBounded (record { attempts = left ++ (now ∷ []); last_seen = now })
          (rw length-append (ground arith)))
  ]

-- Forgetting a key keeps the bounds too.
pub forget-IsBounded : (key : Key) (l : KeyedRateLimiter) → IsBounded l → IsBounded (forget key l)
unfolding forget
forget-IsBounded key l h = record {
  has_room = h.has_room;
  positive = h.positive;
  buckets_bound =
      unfold remove in
      omega (
        arith,
        length-filter-le (λ (e : Key × AttemptBucket). not (e.0 == key)) l.buckets,
        h.buckets_bound,
      );
  is_map = IsMap-remove key l.buckets h.is_map;
  attempts_bound = λ j. rw find-remove (ground (arith, h.attempts_bound j));
}
