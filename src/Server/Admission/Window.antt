-- ===== src/Server/Admission/Window.antt =====
-- The promise of the limiter of apps/server/src/admission.rs: in any window, an identity is admitted
-- at most as often as the limit says, counted anew once it is forgotten.
use open_soverign_blog.Prelude.{
  ap, none, ℕ, ◌≤◌, ◌≡◌, refl, sym, ◌∙◌, some, List, [], ◌∷◌, ◌++◌, arith, length, inl, inr, subst,
  Bool-cases, if◌then◌else◌, append-nil, ◌==◌, ◌&&◌,
}
use open_soverign_blog.Server.Admission.Entries.{Key, find, remove, find-remove}
use open_soverign_blog.Server.Admission.{KeyedRateLimiter, attempts_of, admit_at, new, forget}
use open_soverign_blog.Server.Admission.Bounds.{new-IsBounded, IsBounded, forget-IsBounded}
use open_soverign_blog.Server.Admission.Tracking.{
  Spares, Tracks, recent, own-Tracks, length-recent-le, other-Tracks,
}

-- The two calls that change a limiter: `admit_at` with its key and its time, and `forget`.
pub data Call : Type 0 where
  attempt : Key → ℕ → Call
  forgotten : Key → Call

abbrev pub Calls : Type 0
Calls = List Call

pub run : Calls → KeyedRateLimiter → KeyedRateLimiter
run [] l = l
run (attempt caller now ∷ calls) l = run calls (admit_at caller now l).0
run (forgotten caller ∷ calls) l = run calls (forget caller l)

-- The times at which the key has been admitted since it was last forgotten, behind those of `log`.
pub admitted : Key → List ℕ → Calls → KeyedRateLimiter → List ℕ
admitted key log [] l = log
admitted key log (attempt caller now ∷ calls) l =
    admitted key (log ++ (if caller == key && (admit_at caller now l).1 then now ∷ [] else []))
      calls (admit_at caller now l).0
admitted key log (forgotten caller ∷ calls) l =
    admitted key (if caller == key then [] else log) calls (forget caller l)

-- The time of the last attempt.
abbrev pub end_of : ℕ → Calls → ℕ
end_of old [] = old
end_of old (attempt caller now ∷ calls) = end_of now calls
end_of old (forgotten caller ∷ calls) = end_of old calls

-- Time does not go back, and no call evicts the entry of the key.
abbrev pub Undisturbed : Key → ℕ → Calls → KeyedRateLimiter → Type 0
Undisturbed key old [] l = Unit
Undisturbed key old (attempt caller now ∷ calls) l =
    (old ≤ now) × Spares key caller now l × Undisturbed key now calls (admit_at caller now l).0
Undisturbed key old (forgotten caller ∷ calls) l = Undisturbed key old calls (forget caller l)

step-Tracks :
    (key caller : Key) (w : ℕ) (l : KeyedRateLimiter) (log : List ℕ) (old now : ℕ)
    → Tracks key w l log old
    → old ≤ now
    → Spares key caller now l
    → Tracks key w
        (admit_at caller now l).0
        (log ++ (if caller == key && (admit_at caller now l).1 then now ∷ [] else []))
        now
step-Tracks key caller w l log old now t h spares = elim (Bool-cases (caller == key)) [
  | inl e ↦
      let same : key ≡ caller = ground arith in
      let own =
        own-Tracks key w l log old now t h (subst (λ c. Spares key c now l) (sym same) spares) in
      rw e (
        subst
          (λ c.
            Tracks key w (admit_at c now l).0
              (log ++ (if (admit_at c now l).1 then now ∷ [] else [])) now)
          same own)
  | inr e ↦
      rw (e, append-nil) (other-Tracks key caller w l log old now t h spares (λ q. ground arith))
]

-- To forget the key drops its admissions with its entry; to forget another leaves both.
forget-Tracks :
    (key caller : Key) (w : ℕ) (l : KeyedRateLimiter) (log : List ℕ) (old : ℕ)
    → Tracks key w l log old
    → Tracks key w (forget caller l) (if caller == key then [] else log) old
unfolding forget
forget-Tracks key caller w l log old t =
    let bounds : IsBounded (forget caller l) = forget-IsBounded caller l t.bounded in
    elim (Bool-cases (caller == key)) [
      | inl e ↦
          let gone : find key (remove caller l.buckets) ≡ none =
            find-remove key caller l.buckets ∙ rw e refl in
          rw e (record {
            width = t.width;
            positive = t.positive;
            bounded = bounds;
            same = λ later h. rw gone refl;
            stamps = λ b f. cc (sym gone ∙ f);
            seen = λ b f. cc (sym gone ∙ f);
          })
      | inr e ↦
          let kept : find key (remove caller l.buckets) ≡ find key l.buckets =
            find-remove key caller l.buckets ∙ rw e refl in
          rw e (record {
            width = t.width;
            positive = t.positive;
            bounded = bounds;
            same = λ later h. t.same later h ∙ ap (λ o. recent later w (attempts_of o)) (sym kept);
            stamps = λ b f. t.stamps b (sym kept ∙ f);
            seen = λ b f. t.seen b (sym kept ∙ f);
          })
    ]

run-Tracks :
    (key : Key) (w : ℕ) (calls : Calls) (l : KeyedRateLimiter) (log : List ℕ) (old : ℕ)
    → Tracks key w l log old
    → Undisturbed key old calls l
    → Tracks key w (run calls l) (admitted key log calls l) (end_of old calls)
unfolding run admitted
run-Tracks key w [] l log old t u = t
run-Tracks key w (attempt caller now ∷ calls) l log old t u =
    run-Tracks key w calls (admit_at caller now l).0
      (log ++ (if caller == key && (admit_at caller now l).1 then now ∷ [] else [])) now
      (step-Tracks key caller w l log old now t u.0 u.1) u.2
run-Tracks key w (forgotten caller ∷ calls) l log old t u =
    run-Tracks key w calls (forget caller l) (if caller == key then [] else log) old
      (forget-Tracks key caller w l log old t) u

new-Tracks :
    (key : Key) (maximum_buckets attempts_per_window window : ℕ) (l : KeyedRateLimiter)
    → new maximum_buckets attempts_per_window window ≡ some l
    → Tracks key window l [] 0
unfolding new find
new-Tracks key maximum_buckets attempts_per_window window l e = record {
  width = ground arith;
  positive = ground arith;
  bounded = new-IsBounded maximum_buckets attempts_per_window window l e;
  same = λ later h. ground arith;
  stamps = λ b f. ground arith;
  seen = λ b f. ground arith;
}

run-limit :
    (calls : Calls) (l : KeyedRateLimiter)
    → (run calls l).attempts_per_window ≡ l.attempts_per_window
unfolding run admit_at forget
run-limit [] l = refl
run-limit (attempt caller now ∷ calls) l = run-limit calls (admit_at caller now l).0 ∙ ground arith
run-limit (forgotten caller ∷ calls) l = run-limit calls (forget caller l)

-- Whatever the calls of `admit_at` and `forget` to a new limiter, as long as time does not go back and
-- the key's entry is never evicted to make room, every window that ends at or after the last attempt
-- holds at most as many admissions of the key, since it was last forgotten, as a window allows. A
-- prefix of the calls is such a sequence too.
pub admissions_bound :
    (key : Key) (maximum_buckets attempts_per_window window : ℕ) (l : KeyedRateLimiter)
    (calls : Calls) (later : ℕ)
    → new maximum_buckets attempts_per_window window ≡ some l
    → Undisturbed key 0 calls l
    → end_of 0 calls ≤ later
    → length (recent later window (admitted key [] calls l)) ≤ attempts_per_window
admissions_bound key maximum_buckets attempts_per_window window l calls later made calm h =
    let t =
      run-Tracks key window calls l [] 0
        (new-Tracks key maximum_buckets attempts_per_window window l made) calm in
    let kept = attempts_of (find key (run calls l).buckets) in
    let limit = run-limit calls l ∙ new-limit made in
    rw (t.same later h)
      (omega (arith, length-recent-le later window kept, t.bounded.attempts_bound key))
  where
    new-limit :
        new maximum_buckets attempts_per_window window ≡ some l
        → l.attempts_per_window ≡ attempts_per_window
    new-limit = unfold new in λ e. ground arith
