-- ===== src/Server/Admission/Room.antt =====
-- What `admit_at` of apps/server/src/admission.rs removes to make room for a new key.
use open_soverign_blog.Prelude.{
  ℕ, ◌-◌, ◌≤◌, ◌<◌, ◌≡◌, refl, ap, sym, ◌∙◌, true, Option, none, some, [], ◌∷◌, arith, leb, length,
  is_some, Option-cases, Bool-cases, inl, inr, ◌⊎◌,
}
use open_soverign_blog.Server.Admission.Entries.{
  Key, Map, find, IsMap, IsMap-filter, IsMap-remove, find-filter, find-remove, length-filter-le,
  length-remove-lt,
}
use open_soverign_blog.Server.Admission.{
  AttemptBucket, KeyedRateLimiter, is_recent, oldest_from, oldest, evicted, retained, remove_found,
  make_room,
}

-- The least recently seen key is a key of the map.
oldest_from-found :
    (best : Key) (seen : ℕ) (m : Map AttemptBucket)
    → (oldest_from best seen m ≡ best) ⊎ (is_some (find (oldest_from best seen m) m) ≡ true)
unfolding oldest_from find
oldest_from-found best seen [] = inl refl
oldest_from-found best seen ((key, bucket) ∷ rest) =
    ground (arith, oldest_from-found key bucket.last_seen rest, oldest_from-found best seen rest)

oldest-found : (m : Map AttemptBucket) (k : Key) → oldest m ≡ some k → is_some (find k m) ≡ true
unfolding oldest find
oldest-found [] k h = cc
oldest-found ((key, bucket) ∷ rest) k h =
    ground (arith, oldest_from-found key bucket.last_seen rest)

oldest-some : (m : Map AttemptBucket) → 0 < length m → (k : Key) × (oldest m ≡ some k)
unfolding oldest
oldest-some [] h = absurd (omega arith)
oldest-some ((key, bucket) ∷ rest) h = (oldest_from key bucket.last_seen rest, refl)

some-of_is_some {ℓ} : {A : Type ℓ} (o : Option A) → is_some o ≡ true → (a : A) × (o ≡ some a)
some-of_is_some none h = cc
some-of_is_some (some a) h = (a, refl)

remove_found-IsMap : (o : Option Key) (m : Map AttemptBucket) → IsMap m → IsMap (remove_found o m)
unfolding remove_found
remove_found-IsMap none m h = h
remove_found-IsMap (some k) m h = IsMap-remove k m h

remove_found-cases :
    (j : Key) (o : Option Key) (m : Map AttemptBucket)
    → (find j (remove_found o m) ≡ find j m) ⊎ ((o ≡ some j) × (find j (remove_found o m) ≡ none))
unfolding remove_found
remove_found-cases j none m = inl refl
remove_found-cases j (some k) m = ground (arith, find-remove j k m)

-- Room for one more entry, in a map that has room for any.
evict-length :
    (maximum : ℕ) (m : Map AttemptBucket)
    → 0 < maximum
    → length m ≤ maximum
    → length (remove_found (evicted maximum m) m) < maximum
unfolding evicted
evict-length maximum m positive fits = elim (Bool-cases (leb maximum (length m))) [
  | inl full ↦
      let (k, e) = oldest-some m (ground arith) in
      let (b, found) = some-of_is_some (find k m) (oldest-found m k e) in
      rw full (rw e (unfold remove_found in omega (arith, length-remove-lt k b m found)))
  | inr free ↦ rw free (unfold remove_found in ground arith)
]

module _ (key : Key) (now : ℕ) (l : KeyedRateLimiter) where
  -- The key that a call for `key` evicts for room, if any.
  abbrev pub evicted_by : Option Key
  evicted_by = evicted l.maximum_buckets (retained now l.window l.buckets)

  pub make_room-IsMap : IsMap l.buckets → IsMap (make_room key now l)
  unfolding make_room retained
  make_room-IsMap h = elim (Bool-cases (is_some (find key l.buckets))) [
    | inl e ↦ rw e h
    | inr e ↦ rw e (remove_found-IsMap _ _ (IsMap-filter (is_recent now l.window) l.buckets h))
  ]

  pub length-make_room-le :
      0 < l.maximum_buckets
      → length l.buckets ≤ l.maximum_buckets
      → length (make_room key now l) ≤ l.maximum_buckets
  unfolding make_room retained
  length-make_room-le positive fits = elim (Bool-cases (is_some (find key l.buckets))) [
    | inl e ↦ rw e fits
    | inr e ↦
        let kept = length-filter-le (is_recent now l.window) l.buckets in
        rw e (
          omega (
            arith,
            evict-length l.maximum_buckets (retained now l.window l.buckets) positive
                (unfold retained in omega arith),
          ))
  ]

  pub length-make_room-lt :
      0 < l.maximum_buckets
      → length l.buckets ≤ l.maximum_buckets
      → find key (make_room key now l) ≡ none
      → length (make_room key now l) < l.maximum_buckets
  unfolding make_room retained
  length-make_room-lt positive fits = elim (Bool-cases (is_some (find key l.buckets))) [
    | inl e ↦ rw e (λ h. ground arith)
    | inr e ↦
        let kept = length-filter-le (is_recent now l.window) l.buckets in
        rw e (λ h.
          evict-length l.maximum_buckets (retained now l.window l.buckets) positive
            (unfold retained in omega arith))
  ]

  make_room-of_some :
      (b : AttemptBucket) → find key l.buckets ≡ some b → make_room key now l ≡ l.buckets
  unfolding make_room
  make_room-of_some b e = rw e

  make_room-of_none :
      find key l.buckets ≡ none
      → make_room key now l ≡ remove_found evicted_by (retained now l.window l.buckets)
  unfolding make_room
  make_room-of_none e = rw e

  retained-cases :
      (j : Key)
      → IsMap l.buckets
      → (find j (retained now l.window l.buckets) ≡ find j l.buckets)
        ⊎ ((b : AttemptBucket) × (find j l.buckets ≡ some b)
            × (l.window ≤ now - b.last_seen)
            × (find j (retained now l.window l.buckets) ≡ none))
  unfolding retained is_recent
  retained-cases j h = elim (find-filter j (is_recent now l.window) l.buckets h) [
    | inl same ↦ inl same
    | inr (b, found, stale, gone) ↦ inr (b, found, ground arith, gone)
  ]

  -- The entry of any key is left as it is, or it is dropped, and then it was last seen a whole window
  -- ago, or it was evicted for room.
  pub make_room-cases :
      (j : Key)
      → IsMap l.buckets
      → (find j (make_room key now l) ≡ find j l.buckets)
        ⊎ ((b : AttemptBucket) × (find j l.buckets ≡ some b)
            × (find j (make_room key now l) ≡ none)
            × ((l.window ≤ now - b.last_seen)
                ⊎ ((find key l.buckets ≡ none) × (evicted_by ≡ some j))))
  make_room-cases j h = elim (Option-cases (find key l.buckets)) [
    | inr (b, e) ↦ inl (ap (find j) (make_room-of_some b e))
    | inl e ↦
        let kept = retained now l.window l.buckets in
        let step = ap (find j) (make_room-of_none e) in
        elim (remove_found-cases j evicted_by kept) [
          | inl same ↦ elim (retained-cases j h) [
            | inl r ↦ inl (step ∙ same ∙ r)
            | inr (b, found, stale, gone) ↦ inr (b, found, step ∙ same ∙ gone, inl stale)
          ]
          | inr (evict, gone) ↦ elim (Option-cases (find j l.buckets)) [
            | inl absent ↦ inl (step ∙ gone ∙ sym absent)
            | inr (b, found) ↦ inr (b, found, step ∙ gone, inr (e, evict))
          ]
        ]
  ]
