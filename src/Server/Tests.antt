-- ===== src/Server/Tests.antt =====
-- Runs of apps/server, and the theorems about them at concrete inputs.
use open_soverign_blog.Prelude.{
  ◌%◌, ◌<◌, ℕ, ◌≤◌, ◌≡◌, refl, true, false, none, some, [], ◌∷◌, arith, length, inl,
}
use open_soverign_blog.Server.Admission.{
  forget, KeyedRateLimiter, new, admit_at, make_room, pop_expired, evicted, retained, oldest,
  is_recent,
}
use open_soverign_blog.Server.Admission.Bounds.{IsBounded, new-IsBounded, admit_at-IsBounded}
use open_soverign_blog.Server.Admission.Tracking.{recent}
use open_soverign_blog.Server.Admission.Window.{
  attempt, forgotten, Calls, Undisturbed, admitted, admissions_bound,
}
use open_soverign_blog.Text.{Text, codes}
use open_soverign_blog.Server.Cache.Word.{
  mark_coherence_dirty, publish_coherence_generation, reads_safe, stale_ticket,
}
use open_soverign_blog.Server.Cache.Protocol.{
  System, load, rotate, publish, look_up, render, store, arrive, admit, IsStart, Reachable, start,
  step,
}
use open_soverign_blog.Server.Cache.Protocol.Safety.{served_fresh, quiet_exact}
use open_soverign_blog.Server.Admission.Entries.{find, upsert, remove}

abbrev limiter : KeyedRateLimiter
limiter = record { buckets = []; maximum_buckets = 4; attempts_per_window = 2; window = 60 }

limiter_made : new 4 2 60 ≡ some limiter
unfolding new
limiter_made = refl

limiter-IsBounded : IsBounded limiter
limiter-IsBounded = new-IsBounded 4 2 60 limiter limiter_made

third_is_refused : (admit_at 1 3 (admit_at 1 2 (admit_at 1 1 limiter).0).0).1 ≡ false
unfolding admit_at make_room find upsert pop_expired evicted retained oldest is_recent remove
third_is_refused = refl

admit_at-IsBounded_example : IsBounded (admit_at 1 1 limiter).0
admit_at-IsBounded_example = admit_at-IsBounded 1 1 limiter limiter-IsBounded

abbrev four_calls : Calls
four_calls = attempt 1 0 ∷ forgotten 1 ∷ attempt 1 1 ∷ attempt 1 2 ∷ attempt 2 3 ∷ attempt 1 4 ∷ []

four-Undisturbed : Undisturbed 1 0 four_calls limiter
unfolding forget admit_at make_room find upsert pop_expired evicted retained oldest is_recent remove
four-Undisturbed = ground arith

admissions_bound_example : length (recent 5 60 (admitted 1 [] four_calls limiter)) ≤ 2
admissions_bound_example =
    admissions_bound 1 4 2 60 limiter four_calls 5 limiter_made four-Undisturbed (omega arith)

stale_ticket_example :
    (publish_coherence_generation (mark_coherence_dirty 1) 1 ≡ (mark_coherence_dirty 1, false))
    × (mark_coherence_dirty 1 % 2 ≡ 1)
    × (1 < mark_coherence_dirty 1)
    × ((published : ℕ) × (publish_coherence_generation
            (mark_coherence_dirty 1)
            (mark_coherence_dirty 1)
          ≡ (published, true))
        × (published % 2 ≡ 0))
stale_ticket_example = stale_ticket 1 1 (omega arith) (omega arith)

-- A process that starts beside a stale response, rotates the generation, fills and is read.
abbrev started : System
started = record {
  coherence = 1;
  active_mutations = 0;
  open_guards = 0;
  closing_guards = 0;
  rotation = none;
  readers = [];
  lookups = [];
  fills = [];
  epoch = 7;
  responses = record { generation = 7; version = 3 } ∷ [];
  version = 5;
  marked_version = 5;
  epoch_version = 0;
}

abbrev filled : System
filled = record started {
  coherence = 2;
  lookups = 8 ∷ [];
  fills = record { generation = 8; version = 5 } ∷ [];
  epoch = 8;
  responses = record { generation = 8; version = 5 } ∷ record { generation = 7; version = 3 } ∷ [];
  epoch_version = 5;
}

abbrev read : System
read = record filled { readers = record { floor = 5; admitted = true } ∷ [] }

started-IsStart : IsStart started
started-IsStart = ground arith

filled-Reachable : Reachable filled
unfolding reads_safe publish_coherence_generation
filled-Reachable =
    step
      (step
        (step
          (step
            (step (step (start started-IsStart) (load refl refl))
              (rotate (record { ticket = 1; rotated = false }) 8 refl (ground arith)))
            (publish (record { ticket = 1; rotated = true }) refl refl (omega arith)))
          look_up)
        (render 8 (inl refl)))
      (store (record { generation = 8; version = 5 }) (inl refl) refl)

read-Reachable : Reachable read
unfolding reads_safe
read-Reachable =
    step (step filled-Reachable (arrive refl))
      (admit [] [] (record { floor = 5; admitted = false }) refl refl)

served_fresh_example : 5 ≤ 5
served_fresh_example =
    served_fresh read (record { floor = 5; admitted = true })
      (record { generation = 8; version = 5 }) read-Reachable (inl refl) refl (inl refl) refl

quiet_exact_example : ◌≡◌ {A = ℕ} 5 5
unfolding reads_safe
quiet_exact_example =
    quiet_exact read (record { generation = 8; version = 5 }) read-Reachable refl refl (inl refl)
      refl

-- CSS up to a cursor inside of its block, and the rest
abbrev head : Text
head = codes "p{color"

abbrev tail : Text
tail = codes ":red}"
