-- ===== src/Server/Cache/Word.antt =====
-- The two atomic counters of apps/server/src/cache.rs that decide whether the cache may be read:
-- `coherence`, which is (invalidation sequence << 1) | dirty, and `active_mutations`. Both are u64.
use open_soverign_blog.Prelude.{
  ℕ, ◌+◌, ◌*◌, ◌/◌, ◌%◌, ◌^◌, ◌≤◌, ◌<◌, ◌≡◌, Bool, true, false, arith, ◌==◌, if◌then◌else◌, ◌≢◌,
}

abbrev pub u64_mod : ℕ
u64_mod = 2 ^ 64

-- `current >> 1`, `wrapping_add(1)`, `(sequence << 1) | 1`
unfoldable pub mark_coherence_dirty : ℕ → ℕ
mark_coherence_dirty current =
    let sequence = (current / 2 + 1) % u64_mod in sequence * 2 % u64_mod + 1

-- `compare_exchange(ticket, ticket.wrapping_add(1))`: the new word, and whether it was exchanged.
unfoldable pub publish_coherence_generation : ℕ → ℕ → ℕ × Bool
publish_coherence_generation coherence ticket =
    if coherence == ticket then ((ticket + 1) % u64_mod, true) else (coherence, false)

-- `coherence & 1 == 0`
unfoldable pub reads_safe : ℕ → Bool
reads_safe coherence = coherence % 2 == 0

-- The word has not used up its sequence numbers: there are 2 ^ 63 of them.
abbrev pub HasSequence : ℕ → Type 0
HasSequence coherence = coherence + 3 < u64_mod

-- Marking leaves the word dirty, and newer than it was.
pub mark_dirty_lem :
    (w : ℕ)
    → HasSequence w
    → (w < mark_coherence_dirty w) × (reads_safe (mark_coherence_dirty w) ≡ false)
unfolding mark_coherence_dirty reads_safe
mark_dirty_lem w h = (omega arith, ground arith)

-- A ticket publishes its generation exactly when the word has not changed since it was read, and
-- then the word is clean and newer than it was.
pub publish_lem :
    (w ticket : ℕ)
    → HasSequence ticket
    → reads_safe ticket ≡ false
    → ((publish_coherence_generation w ticket).1 ≡ true
        → (w ≡ ticket)
          × (ticket < (publish_coherence_generation w ticket).0)
          × (reads_safe (publish_coherence_generation w ticket).0 ≡ true))
      × ((publish_coherence_generation w ticket).1 ≡ false
          → (w ≢ ticket) × ((publish_coherence_generation w ticket).0 ≡ w))
unfolding publish_coherence_generation reads_safe
publish_lem w ticket h odd = (λ e. ground arith, λ e. ground arith)

-- An older rotation never publishes over a newer invalidation: after a mark, a ticket that was read
-- before it is refused and the word stays as it is, with its lowest bit set and greater than before
-- the mark. The ticket read after the mark is accepted, and leaves a word with that bit cleared.
pub stale_ticket :
    (w ticket : ℕ)
    → ticket ≤ w
    → HasSequence w
    → (publish_coherence_generation (mark_coherence_dirty w) ticket
        ≡ (mark_coherence_dirty w, false))
      × (mark_coherence_dirty w % 2 ≡ 1)
      × (w < mark_coherence_dirty w)
      × ((published : ℕ) × (publish_coherence_generation
              (mark_coherence_dirty w)
              (mark_coherence_dirty w)
            ≡ (published, true))
          × (published % 2 ≡ 0))
unfolding publish_coherence_generation mark_coherence_dirty
stale_ticket w ticket old h =
    let newer = (mark_dirty_lem w h).0 in
    let marked = mark_coherence_dirty w in
    (ground (arith, newer), omega arith, newer, ((marked + 1) % u64_mod, ground arith, omega arith))
