-- ===== src/Server/Cache/Protocol/Coherent.antt =====
-- The invariant of the cache of apps/server/src/cache.rs, and the two actions that all steps consist of:
-- the word is marked, and the epoch is set.
use open_soverign_blog.Prelude.{
  ℕ, ◌+◌, ◌≤◌, ◌≡◌, ◌≢◌, refl, sym, subst, true, false, Option, none, some, List, [], ◌∷◌, ◌++◌,
  arith, All, In, inl, inr,
}
use open_soverign_blog.Server.Cache.Word.{
  mark_coherence_dirty, reads_safe, HasSequence, mark_dirty_lem,
}
use open_soverign_blog.Server.Cache.Protocol.{
  Stored, Rotation, Reader, System, mark, set_epoch, IsFresh, IsStart,
}

module _ {A : Type 0} (P Q : A → Type 0) where
  pub All-map : ((a : A) → P a → Q a) → (xs : List A) → All P xs → All Q xs
  All-map f [] h = tt
  All-map f (x ∷ xs) h = (f x h.0, All-map f xs h.1)

module _ {A : Type 0} (P : A → Type 0) where
  pub All-in : (a : A) (xs : List A) → All P xs → In a xs → P a
  All-in a [] h m = elim m [ ]
  All-in a (x ∷ xs) h (inl e) = subst P e h.0
  All-in a (x ∷ xs) h (inr m) = All-in a xs h.1 m

  pub All-replace :
      (before after : List A) (a b : A)
      → All P (before ++ (a ∷ after))
      → (P a → P b)
      → All P (before ++ (b ∷ after))
  All-replace [] after a b h f = (f h.0, h.1)
  All-replace (x ∷ before) after a b h f = (h.0, All-replace before after a b h.1 f)

  All-both :
      (Q R : A → Type 0)
      → ((a : A) → P a → Q a → R a)
      → (xs : List A) → All P xs
      → All Q xs
      → All R xs
  All-both Q R f [] h k = tt
  All-both Q R f (x ∷ xs) h k = (f x h.0 k.0, All-both Q R f xs h.1 k.1)

-- A reader began no later than the last mark, and if it was admitted, no later than the epoch.
abbrev pub ReaderOk : ℕ → ℕ → Reader → Type 0
ReaderOk marked set r = (r.floor ≤ marked) × (r.admitted ≡ true → r.floor ≤ set)

-- A response under the epoch was rendered since the epoch was set.
abbrev pub StoredOk : ℕ → ℕ → ℕ → Stored → Type 0
StoredOk version epoch set r = (r.version ≤ version) × (r.generation ≡ epoch → set ≤ r.version)

abbrev pub RotationOk : ℕ → ℕ → ℕ → Option Rotation → Type 0
RotationOk coherence marked set none = Unit
RotationOk coherence marked set (some r) =
    (r.ticket ≤ coherence)
    × (reads_safe r.ticket ≡ false)
    × (r.rotated ≡ true → r.ticket ≡ coherence → marked ≤ set)

pub record IsCoherent (s : System) : Type 0 where
  pub count : s.active_mutations ≡ s.open_guards + s.closing_guards
  pub marked : s.marked_version ≤ s.version
  pub set : s.epoch_version ≤ s.version
  pub quiet : s.open_guards ≡ 0 → s.version ≡ s.marked_version
  pub clean : reads_safe s.coherence ≡ true → s.marked_version ≤ s.epoch_version
  pub rotation : RotationOk s.coherence s.marked_version s.epoch_version s.rotation
  pub readers : All (ReaderOk s.marked_version s.epoch_version) s.readers
  pub fills : All (StoredOk s.version s.epoch s.epoch_version) s.fills
  pub responses : All (StoredOk s.version s.epoch s.epoch_version) s.responses

pub start-IsCoherent : (s : System) → IsStart s → IsCoherent s
unfolding reads_safe
start-IsCoherent s h = record {
  count = omega arith;
  marked = omega arith;
  set = omega arith;
  quiet = λ e. sym h.marked_version;
  clean = ground arith;
  rotation = rw h.rotation tt;
  readers = rw h.readers tt;
  fills = rw h.fills tt;
  responses =
      All-map (λ r. r.version ≤ s.version) (StoredOk s.version s.epoch s.epoch_version)
        (λ r k. (k, λ e. omega (arith, h.epoch_version))) s.responses h.responses;
}

readers-later :
    (m m' e e' : ℕ) (xs : List Reader)
    → m ≤ m'
    → e ≤ e'
    → All (ReaderOk m e) xs
    → All (ReaderOk m' e') xs
readers-later m m' e e' xs h k =
    All-map (ReaderOk m e) (ReaderOk m' e')
      (λ r o. (omega arith, λ a. let f = o.1 a in omega arith)) xs

mark-rotation :
    (c m e v : ℕ) (o : Option Rotation)
    → HasSequence c
    → RotationOk c m e o
    → RotationOk (mark_coherence_dirty c) v e o
mark-rotation c m e v none h k = tt
mark-rotation c m e v (some r) h k =
    let newer = (mark_dirty_lem c h).0 in (omega arith, k.1, λ a b. absurd (omega arith))

pub mark-IsCoherent : (s : System) → HasSequence s.coherence → IsCoherent s → IsCoherent (mark s)
mark-IsCoherent s seq h = record {
  count = h.count;
  marked = omega arith;
  set = h.set;
  quiet = λ e. refl;
  clean = λ e. cc (mark_dirty_lem s.coherence seq).1;
  rotation =
      mark-rotation s.coherence s.marked_version s.epoch_version s.version s.rotation seq
        h.rotation;
  readers =
      readers-later s.marked_version s.version s.epoch_version s.epoch_version s.readers h.marked
        (omega arith) h.readers;
  fills = h.fills;
  responses = h.responses;
}

fresh-stored :
    (v e e' g : ℕ) (xs : List Stored)
    → All (λ r. r.generation ≢ g) xs
    → All (StoredOk v e e') xs
    → All (StoredOk v g v) xs
fresh-stored v e e' g xs =
    All-both (λ r. r.generation ≢ g) (StoredOk v e e') (StoredOk v g v)
      (λ r other o. (o.0, λ same. absurd (other same))) xs

set-rotation : (c m e v : ℕ) (o : Option Rotation) → m ≤ v → RotationOk c m e o → RotationOk c m v o
set-rotation c m e v none h k = tt
set-rotation c m e v (some r) h k = (k.0, k.1, λ a b. h)

pub set-IsCoherent : (g : ℕ) (s : System) → IsFresh g s → IsCoherent s → IsCoherent (set_epoch g s)
set-IsCoherent g s fresh h = record {
  count = h.count;
  marked = h.marked;
  set = omega arith;
  quiet = h.quiet;
  clean = λ e. h.marked;
  rotation =
      set-rotation s.coherence s.marked_version s.epoch_version s.version s.rotation h.marked
        h.rotation;
  readers =
      readers-later s.marked_version s.marked_version s.epoch_version s.version s.readers
        (omega arith) h.set h.readers;
  fills = fresh-stored s.version s.epoch s.epoch_version g s.fills fresh.not_filling h.fills;
  responses =
      fresh-stored s.version s.epoch s.epoch_version g s.responses fresh.not_stored h.responses;
}
