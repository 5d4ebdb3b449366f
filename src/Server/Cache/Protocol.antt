-- ===== src/Server/Cache/Protocol.antt =====
-- The coherence protocol of apps/server/src/cache.rs as a step relation: the mutation guards, the
-- rotation of the generation (`set_fresh_generation`), the Redis scripts of `lookup` and `store`, and
-- the canonical content that they answer to, one atomic action at a time and in any order. The
-- canonical content is known by its version, the number of commits so far.
pub mod Coherent
pub mod Safety
use open_soverign_blog.Prelude.{
  ℕ, ◌+◌, ◌-◌, ◌*◌, ◌/◌, ◌%◌, ◌^◌, ◌≤◌, ◌<◌, ◌≡◌, ◌≢◌, Bool, true, false, Option, none, some, List,
  [], ◌∷◌, All, In, ◌++◌,
}
use open_soverign_blog.Server.Cache.Word.{
  u64_mod, mark_coherence_dirty, publish_coherence_generation, reads_safe, HasSequence,
}

-- A response in Redis, under the generation that is a part of its key.
pub record Stored : Type 0 where
  pub generation : ℕ
  pub version : ℕ

-- A rotation in `set_fresh_generation`: the ticket that it read, and whether Redis has answered.
pub record Rotation : Type 0 where
  pub ticket : ℕ
  pub rotated : Bool

-- A read in `lookup`: the version of the content when it found no active mutation, and whether it
-- has found the word clean since.
pub record Reader : Type 0 where
  pub floor : ℕ
  pub admitted : Bool

pub record System : Type 0 where
  -- the atomics of `Inner`
  pub coherence : ℕ
  pub active_mutations : ℕ
  -- the guards that exist, and those of them that `drop` has marked the word for
  pub open_guards : ℕ
  pub closing_guards : ℕ
  pub rotation : Option Rotation
  pub readers : List Reader
  -- the epochs that lookups have returned, and the responses that were rendered for such a lookup
  -- and may still be stored under its epoch
  pub lookups : List ℕ
  pub fills : List Stored
  -- Redis
  pub epoch : ℕ
  pub responses : List Stored
  -- the canonical content, and its version when the word was last marked and when the epoch was set
  pub version : ℕ
  pub marked_version : ℕ
  pub epoch_version : ℕ

-- `mark_dirty`
abbrev pub mark : System → System
mark s = record s { coherence = mark_coherence_dirty s.coherence; marked_version = s.version }

-- The epoch key is written.
abbrev pub set_epoch : ℕ → System → System
set_epoch g s = record s { epoch = g; epoch_version = s.version }

-- `fresh_generation` never returns a generation twice.
pub record IsFresh (g : ℕ) (s : System) : Type 0 where
  pub not_current : g ≢ s.epoch
  pub not_stored : All (λ r. r.generation ≢ g) s.responses
  pub not_filling : All (λ r. r.generation ≢ g) s.fills

pub data Step (s : System) : System → Type 0 where
  -- `begin_mutation`: `fetch_add`, then `mark_dirty`
  enter :
      Step s
        (record s { active_mutations = s.active_mutations + 1; open_guards = s.open_guards + 1 })
  begin_mark : HasSequence s.coherence → Step s (mark s)
  -- the mutation itself
  commit : 0 < s.open_guards → Step s (record s { version = s.version + 1 })
  -- `drop` of the guard: `mark_dirty`, then `fetch_sub`
  drop_mark :
      0 < s.open_guards
      → HasSequence s.coherence
      → Step s (record (mark s) {
        open_guards = s.open_guards - 1;
        closing_guards = s.closing_guards + 1;
      })
  leave :
      0 < s.closing_guards
      → Step s (record s {
        active_mutations = s.active_mutations - 1;
        closing_guards = s.closing_guards - 1;
      })
  -- `rotate_until_safe`: the ticket is read under the lock, the epoch is set, the ticket published. The
  -- code also turns a rotation away while it sees an active mutation; no theorem needs that, and the
  -- relation has the runs without it too.
  load :
      s.rotation ≡ none
      → reads_safe s.coherence ≡ false
      → Step s (record s { rotation = some (record { ticket = s.coherence; rotated = false }) })
  rotate :
      (r : Rotation) (g : ℕ)
      → s.rotation ≡ some r
      → IsFresh g s
      → Step s (record (set_epoch g s) { rotation = some (record r { rotated = true }) })
  publish :
      (r : Rotation)
      → s.rotation ≡ some r
      → r.rotated ≡ true
      → HasSequence r.ticket
      → Step s (record s {
        coherence = (publish_coherence_generation s.coherence r.ticket).0;
        rotation = none;
      })
  -- an error, or a request that is cancelled
  abandon : Step s (record s { rotation = none })
  -- `lookup`: no active mutation, then a clean word
  arrive :
      s.active_mutations ≡ 0
      → Step s (record s { readers = record { floor = s.version; admitted = false } ∷ s.readers })
  admit :
      (before after : List Reader) (r : Reader)
      → s.readers ≡ before ++ (r ∷ after)
      → reads_safe s.coherence ≡ true
      → Step s (record s { readers = before ++ (record r { admitted = true } ∷ after) })
  -- LOOKUP_SCRIPT makes an epoch where Redis has lost the key
  regenerate : (g : ℕ) → IsFresh g s → Step s (set_epoch g s)
  -- LOOKUP_SCRIPT returns the epoch, and the origin renders for it at some later time
  look_up : Step s (record s { lookups = s.epoch ∷ s.lookups })
  render :
      (e : ℕ)
      → In e s.lookups
      → Step s (record s { fills = record { generation = e; version = s.version } ∷ s.fills })
  -- STORE_SCRIPT stores under the epoch only while it is still the lookup's
  store :
      (f : Stored)
      → In f s.fills
      → f.generation ≡ s.epoch
      → Step s (record s { responses = f ∷ s.responses })

-- The states that come about from the start of a process: the word is dirty, nothing runs, and Redis
-- may hold any responses, left by an earlier process. Nothing is known of when the epoch was set.
pub record IsStart (s : System) : Type 0 where
  pub coherence : s.coherence ≡ 1
  pub active_mutations : s.active_mutations ≡ 0
  pub open_guards : s.open_guards ≡ 0
  pub closing_guards : s.closing_guards ≡ 0
  pub rotation : s.rotation ≡ none
  pub readers : s.readers ≡ []
  pub fills : s.fills ≡ []
  pub marked_version : s.marked_version ≡ s.version
  pub epoch_version : s.epoch_version ≡ 0
  pub responses : All (λ r. r.version ≤ s.version) s.responses

pub data Reachable : System → Type 0 where
  start : {s : System} → IsStart s → Reachable s
  step : {s t : System} → Reachable s → Step s t → Reachable t
