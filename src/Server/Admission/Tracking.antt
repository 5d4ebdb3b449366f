-- ===== src/Server/Admission/Tracking.antt =====
-- What the entry of a key remembers of the admissions that apps/server/src/admission.rs has granted it.
use open_soverign_blog.Prelude.{
  ℕ, ◌-◌, ◌≤◌, ◌<◌, ◌≡◌, ◌≢◌, refl, sym, ap, ◌∙◌, none, some, List, [], ◌∷◌, ◌++◌, arith, ltb,
  length, Option-cases, inl, inr, All, filter, subst, Bool-cases, leb, if◌then◌else◌, append-nil,
}
use open_soverign_blog.Server.Admission.Entries.{Key, find, upsert, find-upsert}
use open_soverign_blog.Server.Admission.{
  AttemptBucket, KeyedRateLimiter, make_room, pop_expired, attempts_of, admit_at,
}
use open_soverign_blog.Server.Admission.Room.{evicted_by, make_room-cases}
use open_soverign_blog.Server.Admission.Bounds.{IsBounded, admit_at-IsBounded}

-- The times of a list that lie in the window that ends at `now`.
abbrev pub recent : ℕ → ℕ → List ℕ → List ℕ
recent now window times = filter (λ t. ltb (now - t) window) times

recent-append :
    (now w : ℕ) (xs ys : List ℕ) → recent now w (xs ++ ys) ≡ recent now w xs ++ recent now w ys
recent-append now w [] ys = refl
recent-append now w (x ∷ xs) ys = ground (arith, recent-append now w xs ys)

pub length-recent-le : (now w : ℕ) (xs : List ℕ) → length (recent now w xs) ≤ length xs
length-recent-le now w [] = omega arith
length-recent-le now w (x ∷ xs) = ground (arith, length-recent-le now w xs)

recent-pop_expired :
    (now later w : ℕ) (xs : List ℕ)
    → now ≤ later
    → recent later w (pop_expired now w xs) ≡ recent later w xs
unfolding pop_expired
recent-pop_expired now later w [] h = refl
recent-pop_expired now later w (x ∷ xs) h = ground (arith, recent-pop_expired now later w xs)

All-pop_expired :
    (now w bound : ℕ) (xs : List ℕ)
    → All (λ t. t ≤ bound) xs
    → All (λ t. t ≤ bound) (pop_expired now w xs)
unfolding pop_expired
All-pop_expired now w bound [] h = tt
All-pop_expired now w bound (x ∷ xs) h = ground (arith, All-pop_expired now w bound xs h.1)

recent-stale :
    (now later w seen : ℕ) (xs : List ℕ)
    → All (λ t. t ≤ seen) xs
    → w ≤ now - seen
    → now ≤ later
    → 0 < w
    → recent later w xs ≡ []
recent-stale now later w seen [] h stale k p = refl
recent-stale now later w seen (x ∷ xs) h stale k p =
    ground (arith, recent-stale now later w seen xs h.1 stale k p)

All-weaken : (a b : ℕ) (xs : List ℕ) → a ≤ b → All (λ t. t ≤ a) xs → All (λ t. t ≤ b) xs
All-weaken a b [] k h = tt
All-weaken a b (x ∷ xs) k h = (omega arith, All-weaken a b xs k h.1)

All-concat :
    (b t : ℕ) (xs : List ℕ) → All (λ t. t ≤ b) xs → t ≤ b → All (λ t. t ≤ b) (xs ++ (t ∷ []))
All-concat b t [] h k = (k, tt)
All-concat b t (x ∷ xs) h k = (h.0, All-concat b t xs h.1 k)

-- At a time, the entry of the key holds every admission of the log that a window ending then or
-- later still counts.
pub record Tracks (key : Key) (w : ℕ) (l : KeyedRateLimiter) (log : List ℕ) (now : ℕ) : Type 0 where
  pub width : l.window ≡ w
  pub positive : 0 < w
  pub bounded : IsBounded l
  pub same :
      (later : ℕ)
      → now ≤ later
      → recent later w log ≡ recent later w (attempts_of (find key l.buckets))
  pub stamps :
      (b : AttemptBucket) → find key l.buckets ≡ some b → All (λ t. t ≤ b.last_seen) b.attempts
  pub seen : (b : AttemptBucket) → find key l.buckets ≡ some b → b.last_seen ≤ now

-- A call evicts the entry of the key only to make room for another.
abbrev pub Spares : Key → Key → ℕ → KeyedRateLimiter → Type 0
Spares key caller now l = (find caller l.buckets ≡ none) → evicted_by caller now l ≢ some key

module _ (key caller : Key) (w : ℕ) (l : KeyedRateLimiter) (log : List ℕ) (old now : ℕ)
    (t : Tracks key w l log old) (later_call : old ≤ now) (spares : Spares key caller now l) where
  abbrev room_attempts : List ℕ
  room_attempts = attempts_of (find key (make_room caller now l))

  room-same : (later : ℕ) → now ≤ later → recent later w log ≡ recent later w room_attempts
  room-same later h =
      t.same later (omega arith) ∙ elim (make_room-cases caller now l key t.bounded.is_map) [
        | inl same ↦ ap (λ o. recent later w (attempts_of o)) (sym same)
        | inr (b, found, gone, inr (absent, evict)) ↦ absurd (spares absent evict)
        | inr (b, found, gone, inl stale) ↦ rw found (
            rw gone (
              recent-stale now later w b.last_seen b.attempts (t.stamps b found)
                (rw t.width at stale) h t.positive))
      ]

  room-stamps : All (λ x. x ≤ now) room_attempts
  room-stamps = elim (make_room-cases caller now l key t.bounded.is_map) [
    | inl same ↦ elim (Option-cases (find key l.buckets)) [
      | inl e ↦ rw (same ∙ e) tt
      | inr (b, e) ↦
          let s = t.seen b e in
          rw (same ∙ e) (All-weaken b.last_seen now b.attempts (omega arith) (t.stamps b e))
    ]
    | inr (b, found, gone, why) ↦ rw gone tt
  ]

  room-entry :
      (b : AttemptBucket) → find key (make_room caller now l) ≡ some b → find key l.buckets ≡ some b
  room-entry b e = elim (make_room-cases caller now l key t.bounded.is_map) [
    | inl same ↦ sym same ∙ e
    | inr (c, found, gone, why) ↦ cc
  ]

  -- Writing another key's entry leaves the key's as it is in the room.
  other_entry :
      (b : AttemptBucket)
      → caller ≢ key
      → find key (upsert caller b (make_room caller now l)) ≡ find key (make_room caller now l)
  other_entry b other = find-upsert key caller b (make_room caller now l) ∙ ground arith

  write_other-Tracks :
      (b : AttemptBucket)
      → caller ≢ key
      → IsBounded (record l { buckets = upsert caller b (make_room caller now l) })
      → Tracks key w (record l { buckets = upsert caller b (make_room caller now l) }) log now
  write_other-Tracks b other bounds = record {
    width = t.width;
    positive = t.positive;
    bounded = bounds;
    same = λ later h. rw (other_entry b other) (room-same later h);
    stamps = λ c e. t.stamps c (room-entry c (sym (other_entry b other) ∙ e));
    seen = λ c e. let s = t.seen c (room-entry c (sym (other_entry b other) ∙ e)) in omega arith;
  }

  pub other-Tracks : caller ≢ key → Tracks key w (admit_at caller now l).0 log now
  unfolding admit_at
  other-Tracks other =
      let bounds : IsBounded (admit_at caller now l).0 =
        admit_at-IsBounded caller now l t.bounded in
      let left = pop_expired now l.window (attempts_of (find caller (make_room caller now l))) in
      elim (Bool-cases (leb l.attempts_per_window (length left))) [
        | inl full ↦ rw full (
            write_other-Tracks (record { attempts = left; last_seen = now }) other
              (rw full at bounds))
        | inr free ↦ rw free (
            write_other-Tracks (record { attempts = left ++ (now ∷ []); last_seen = now }) other
              (rw free at bounds))
      ]

module _ (key : Key) (w : ℕ) (l : KeyedRateLimiter) (log : List ℕ) (old now : ℕ)
    (t : Tracks key w l log old) (later_call : old ≤ now) (spares : Spares key key now l) where
  own_entry : (b : AttemptBucket) → find key (upsert key b (make_room key now l)) ≡ some b
  own_entry b = find-upsert key key b (make_room key now l) ∙ ground arith

  write_own-Tracks :
      (b : AttemptBucket) (log' : List ℕ)
      → b.last_seen ≡ now
      → All (λ x. x ≤ now) b.attempts
      → ((later : ℕ) → now ≤ later → recent later w log' ≡ recent later w b.attempts)
      → IsBounded (record l { buckets = upsert key b (make_room key now l) })
      → Tracks key w (record l { buckets = upsert key b (make_room key now l) }) log' now
  write_own-Tracks b log' at_now stamps same bounds = record {
    width = t.width;
    positive = t.positive;
    bounded = bounds;
    same = λ later h. rw (own_entry b) (same later h);
    stamps = λ c e.
        let is_b : b ≡ c = cc (own_entry b) in
        subst (λ x. All (λ y. y ≤ x.last_seen) x.attempts) is_b (rw at_now stamps);
    seen = λ c e.
        let is_b : b ≡ c = cc (own_entry b) in subst (λ x. x.last_seen ≤ now) is_b (omega arith);
  }

  abbrev left : List ℕ
  left = pop_expired now l.window (attempts_of (find key (make_room key now l)))

  left-same : (later : ℕ) → now ≤ later → recent later w log ≡ recent later w left
  left-same later h =
      room-same key key w l log old now t later_call spares later h
      ∙ rw t.width (sym (recent-pop_expired now later w _ h))

  left-stamps : All (λ x. x ≤ now) left
  left-stamps =
      All-pop_expired now l.window now _ (room-stamps key key w l log old now t later_call spares)

  pub own-Tracks :
      Tracks key w
        (admit_at key now l).0
        (log ++ (if (admit_at key now l).1 then now ∷ [] else []))
        now
  unfolding admit_at
  own-Tracks =
      let bounds : IsBounded (admit_at key now l).0 = admit_at-IsBounded key now l t.bounded in
      elim (Bool-cases (leb l.attempts_per_window (length left))) [
        | inl full ↦ rw full (
            write_own-Tracks (record { attempts = left; last_seen = now }) (log ++ []) refl
              left-stamps (λ later h. rw append-nil (left-same later h)) (rw full at bounds))
        | inr free ↦ rw free (
            write_own-Tracks (record { attempts = left ++ (now ∷ []); last_seen = now })
              (log ++ (now ∷ [])) refl (All-concat now now left left-stamps (omega arith))
              (λ later h.
                rw (recent-append later w log (now ∷ []), recent-append later w left (now ∷ []))
                  (ap (λ xs. xs ++ recent later w (now ∷ [])) (left-same later h)))
              (rw free at bounds))
      ]
