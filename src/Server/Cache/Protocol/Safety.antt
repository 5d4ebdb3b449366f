-- ===== src/Server/Cache/Protocol/Safety.antt =====
-- No read of the cache of apps/server/src/cache.rs is older than the content was when it began.
use open_soverign_blog.Prelude.{
  ℕ, ◌+◌, ◌≤◌, ◌≡◌, refl, sym, subst, true, some, List, ◌∷◌, ◌++◌, arith, All, In, inl, inr,
  Bool-cases,
}
use open_soverign_blog.Server.Cache.Word.{
  publish_coherence_generation, reads_safe, HasSequence, publish_lem,
}
use open_soverign_blog.Server.Cache.Protocol.{
  Stored, Rotation, Reader, System, Step, enter, begin_mark, commit, drop_mark, leave, load, rotate,
  publish, abandon, arrive, admit, regenerate, look_up, render, store, Reachable, start, step,
}
use open_soverign_blog.Server.Cache.Protocol.Coherent.{
  StoredOk, IsCoherent, All-in, All-map, RotationOk, ReaderOk, mark-IsCoherent, start-IsCoherent,
  All-replace, set-IsCoherent,
}

commit-stored :
    (v e k : ℕ) (xs : List Stored) → All (StoredOk v e k) xs → All (StoredOk (v + 1) e k) xs
commit-stored v e k = All-map (StoredOk v e k) (StoredOk (v + 1) e k) (λ r o. (omega arith, o.1))

publish-rotation :
    (s : System) (r : Rotation)
    → IsCoherent s
    → s.rotation ≡ some r
    → RotationOk s.coherence s.marked_version s.epoch_version (some r)
publish-rotation s r h e =
    subst (RotationOk s.coherence s.marked_version s.epoch_version) e h.rotation

publish-clean :
    (s : System) (r : Rotation)
    → IsCoherent s
    → s.rotation ≡ some r
    → r.rotated ≡ true
    → HasSequence r.ticket
    → reads_safe (publish_coherence_generation s.coherence r.ticket).0 ≡ true
    → s.marked_version ≤ s.epoch_version
publish-clean s r h e done seq safe =
    let (old, odd, ok_now) = publish-rotation s r h e in
    let (yes_case, no_case) = publish_lem s.coherence r.ticket seq odd in
    elim (Bool-cases (publish_coherence_generation s.coherence r.ticket).1) [
      | inl published ↦ ok_now done (sym (yes_case published).0)
      | inr refused ↦ h.clean (rw (← (no_case refused).1) safe)
    ]

admit-readers :
    (s : System) (before after : List Reader) (r : Reader)
    → s.readers ≡ before ++ (r ∷ after)
    → reads_safe s.coherence ≡ true
    → IsCoherent s
    → All
        (ReaderOk s.marked_version s.epoch_version)
        (before ++ (record r { admitted = true } ∷ after))
admit-readers s before after r e safe h =
    let fresh = h.clean safe in
    All-replace (ReaderOk s.marked_version s.epoch_version) before after r
      (record r { admitted = true })
      (subst (All (ReaderOk s.marked_version s.epoch_version)) e h.readers)
      (λ o. (o.0, λ _. omega arith))

Step-IsCoherent : {s t : System} → Step s t → IsCoherent s → IsCoherent t
Step-IsCoherent enter h = ground arith
Step-IsCoherent {s} (begin_mark seq) h = mark-IsCoherent s seq h
Step-IsCoherent {s} (commit opened) h = ground (
  arith,
  commit-stored s.version s.epoch s.epoch_version s.fills h.fills,
  commit-stored s.version s.epoch s.epoch_version s.responses h.responses,
)
Step-IsCoherent {s} (drop_mark opened seq) h =
    let marked = mark-IsCoherent s seq h in
    record {
      count = omega (arith, h.count);
      marked = marked.marked;
      set = marked.set;
      quiet = λ e. refl;
      clean = marked.clean;
      rotation = marked.rotation;
      readers = marked.readers;
      fills = marked.fills;
      responses = marked.responses;
    }
Step-IsCoherent (leave closing) h = ground arith
Step-IsCoherent (load idle dirty) h = ground arith
Step-IsCoherent {s} (rotate r g e fresh) h =
    let set = set-IsCoherent g s fresh h in
    let (old, odd, unused) = publish-rotation s r h e in
    record {
      count = set.count;
      marked = set.marked;
      set = set.set;
      quiet = set.quiet;
      clean = set.clean;
      rotation = (old, odd, λ _ _. h.marked);
      readers = set.readers;
      fills = set.fills;
      responses = set.responses;
    }
Step-IsCoherent {s} (publish r e done seq) h = record {
  count = h.count;
  marked = h.marked;
  set = h.set;
  quiet = h.quiet;
  clean = publish-clean s r h e done seq;
  rotation = tt;
  readers = h.readers;
  fills = h.fills;
  responses = h.responses;
}
Step-IsCoherent abandon h = ground arith
Step-IsCoherent (arrive none_active) h = ground arith
Step-IsCoherent {s} (admit before after r e safe) h =
    ground (arith, admit-readers s before after r e safe h)
Step-IsCoherent {s} (regenerate g fresh) h = set-IsCoherent g s fresh h
Step-IsCoherent look_up h = ground arith
Step-IsCoherent (render e m) h = ground arith
Step-IsCoherent {s} (store f m e) h =
    let stored = All-in (StoredOk s.version s.epoch s.epoch_version) f s.fills h.fills m in
    ground arith

Reachable-IsCoherent : {s : System} → Reachable s → IsCoherent s
Reachable-IsCoherent (start {s = s} h) = start-IsCoherent s h
Reachable-IsCoherent (step r st) = Step-IsCoherent st (Reachable-IsCoherent r)

-- In every reachable state, a response that a lookup may serve, one under the current epoch, is at
-- least as new as the content was when the lookup found that no mutation was active.
pub served_fresh :
    (s : System) (r : Reader) (e : Stored)
    → Reachable s
    → In r s.readers
    → r.admitted ≡ true
    → In e s.responses
    → e.generation ≡ s.epoch
    → r.floor ≤ e.version
served_fresh s r e reach mr admitted me current =
    let h = Reachable-IsCoherent reach in
    let reader = All-in (ReaderOk s.marked_version s.epoch_version) r s.readers h.readers mr in
    let stored = All-in (StoredOk s.version s.epoch s.epoch_version) e s.responses h.responses me in
    let since = reader.1 admitted in let rendered = stored.1 current in omega arith

-- In every reachable state with a clean word and no active mutation, every response under the
-- current epoch shows exactly the current version of the content.
pub quiet_exact :
    (s : System) (e : Stored)
    → Reachable s
    → s.active_mutations ≡ 0
    → reads_safe s.coherence ≡ true
    → In e s.responses
    → e.generation ≡ s.epoch
    → e.version ≡ s.version
quiet_exact s e reach idle safe me current =
    let h = Reachable-IsCoherent reach in
    let stored = All-in (StoredOk s.version s.epoch s.epoch_version) e s.responses h.responses me in
    let rendered = stored.1 current in
    let fresh = h.clean safe in let settled = h.quiet (omega (arith, h.count)) in omega arith
