-- ===== src/Server/Cache/Connection/Leases.antt =====
-- The requests that share the connection of apps/server/src/cache.rs, as a step relation: each takes
-- a lease of the current manager, or opens a new one, and reports how its command went, at any later
-- time and in any order.
use open_soverign_blog.Prelude.{
  ◌==◌, ◌&&◌, is_some, ℕ, ◌+◌, ◌≤◌, ◌<◌, ◌≡◌, ◌≢◌, inl, inr, true, false, none, some, List, [], ◌∷◌,
  All, In, arith, ok, Bool-cases, Option-cases, subst, sym,
}
use open_soverign_blog.Server.Cache.Word.{u64_mod}
use open_soverign_blog.Server.Cache.Connection.{
  ManagerSlot, ManagerLease, BreakerState, Connection, begin_attempt, current_manager,
  install_manager, drop_manager, record_success, record_connection_failure, handle_command_error,
  breaker_new,
}

abbrev pub with_lease : ManagerLease → Connection → Connection
with_lease lease c = record c { leases = lease ∷ c.leases }

abbrev pub installed : ℕ → Connection → Connection
installed manager c =
    let slot = install_manager manager c.slot in
    with_lease (record { manager = manager; generation = slot.generation })
      (record c { slot = slot; attempt = false })

pub data Step (c : Connection) : Connection → Type 0 where
  -- `manager`: the current manager serves
  reuse : (lease : ManagerLease) → current_manager c.slot ≡ some lease → Step c (with_lease lease c)
  -- `begin_attempt`, then the second look at the slot
  begin :
      (now later : ℕ) (before : BreakerState)
      → begin_attempt now before c.attempt later c.breaker ≡ ok tt
      → Step c (record c { attempt = true })
  reuse_late :
      (lease : ManagerLease)
      → c.attempt ≡ true
      → current_manager c.slot ≡ some lease
      → Step c (with_lease lease (record c { attempt = false }))
  -- `open_manager` fails or times out, the request is cancelled, or it succeeds
  fail :
      (now : ℕ)
      → c.attempt ≡ true
      → Step c (record_connection_failure now (record c { attempt = false }))
  cancel : c.attempt ≡ true → Step c (record c { attempt = false })
  install :
      (manager : ℕ)
      → c.attempt ≡ true
      → c.slot.generation + 1 < u64_mod
      → Step c (installed manager c)
  -- the end of a command
  succeed : (now : ℕ) (lease : ManagerLease) → In lease c.leases → Step c (record_success now c)
  error :
      (now : ℕ) (lease : ManagerLease)
      → In lease c.leases
      → Step c (handle_command_error now lease.generation c)

-- `connect`, before the first connection
abbrev pub initial : Connection
initial = record {
  slot = record { manager = none; generation = 0 };
  breaker = breaker_new;
  state = 0;
  errors = 0;
  last_success = 0;
  attempt = false;
  leases = [];
}

pub data Reachable : Connection → Type 0 where
  start : Reachable initial
  step : {c d : Connection} → Reachable c → Step c d → Reachable d

-- A lease is not ahead of the slot, and where it has the slot's generation it has its manager.
abbrev Fits : ManagerSlot → ManagerLease → Type 0
Fits slot lease =
    (lease.generation ≤ slot.generation)
    × (lease.generation ≡ slot.generation → (m : ℕ) → slot.manager ≡ some m → m ≡ lease.manager)

Fits-current :
    (slot : ManagerSlot) (lease : ManagerLease)
    → current_manager slot ≡ some lease
    → Fits slot lease
unfolding current_manager
Fits-current slot lease h = elim (Option-cases slot.manager) [
  | inl e ↦ ground arith
  | inr (held, e) ↦ (ground arith, λ same m f. ground arith)
]

Fits-install :
    (manager : ℕ) (slot : ManagerSlot) (leases : List ManagerLease)
    → slot.generation + 1 < u64_mod
    → All (Fits slot) leases
    → All (Fits (install_manager manager slot)) leases
unfolding install_manager
Fits-install manager slot [] h fits = tt
Fits-install manager slot (lease ∷ leases) h fits = (
  (omega (arith, fits.0.0), λ e. absurd (omega (arith, fits.0.0))),
  Fits-install manager slot leases h fits.1,
)

Fits-new :
    (manager : ℕ) (slot : ManagerSlot)
    → Fits
        (install_manager manager slot)
        (record { manager = manager; generation = (install_manager manager slot).generation })
unfolding install_manager
Fits-new manager slot = (omega arith, λ same m e. ground arith)

Fits-drop :
    (generation : ℕ) (slot : ManagerSlot) (leases : List ManagerLease)
    → All (Fits slot) leases
    → All (Fits (drop_manager generation slot).0) leases
unfolding drop_manager
Fits-drop generation slot [] fits = tt
Fits-drop generation slot (lease ∷ leases) fits = (
  elim (Bool-cases (slot.generation == generation && is_some slot.manager)) [
    | inl e ↦ rw e (fits.0.0, λ same m f. cc)
    | inr e ↦ rw e fits.0
  ],
  Fits-drop generation slot leases fits.1,
)

Fits-error :
    (now generation : ℕ) (c : Connection)
    → All (Fits c.slot) c.leases
    → All
        (Fits (handle_command_error now generation c).slot)
        (handle_command_error now generation c).leases
unfolding handle_command_error record_connection_failure
Fits-error now generation c fits =
    let kept = Fits-drop generation c.slot c.leases fits in
    elim (Bool-cases (drop_manager generation c.slot).1) [ inl e ↦ rw e kept | inr e ↦ rw e fits ]

Step-Fits : (c d : Connection) → Step c d → All (Fits c.slot) c.leases → All (Fits d.slot) d.leases
unfolding handle_command_error record_connection_failure
Step-Fits c d (reuse lease h) fits = (Fits-current c.slot lease h, fits)
Step-Fits c d (begin now later before h) fits = fits
Step-Fits c d (reuse_late lease a h) fits = (Fits-current c.slot lease h, fits)
Step-Fits c d (fail now a) fits = fits
Step-Fits c d (cancel a) fits = fits
Step-Fits c d (install manager a h) fits =
    (Fits-new manager c.slot, Fits-install manager c.slot c.leases h fits)
Step-Fits c d (succeed now lease m) fits = fits
Step-Fits c d (error now lease m) fits = Fits-error now lease.generation c fits

Reachable-Fits : (c : Connection) → Reachable c → All (Fits c.slot) c.leases
Reachable-Fits c start = tt
Reachable-Fits d (step {c} h s) = Step-Fits c d s (Reachable-Fits c h)

In-Fits :
    (slot : ManagerSlot) (leases : List ManagerLease) (lease : ManagerLease)
    → All (Fits slot) leases
    → In lease leases
    → Fits slot lease
In-Fits slot [] lease fits i = elim i [ ]
In-Fits slot (l ∷ leases) lease fits i = elim i [
  | inl e ↦ subst (Fits slot) e fits.0
  | inr later ↦ In-Fits slot leases lease fits.1 later
]

-- In every reachable state, an error that a lease reports leaves a manager that is not the lease's own
-- in the slot, and the breaker and the health as they are: a delayed error never removes a manager that
-- was installed later. Only the number of errors grows.
pub handle_command_error-other :
    (c : Connection) (now : ℕ) (lease : ManagerLease) (m : ℕ)
    → Reachable c
    → In lease c.leases
    → c.slot.manager ≡ some m
    → m ≢ lease.manager
    → handle_command_error now lease.generation c ≡ record c { errors = c.errors + 1 }
unfolding handle_command_error drop_manager
handle_command_error-other c now lease m h i e n =
    let (old, own) = In-Fits c.slot c.leases lease (Reachable-Fits c h) i in
    let differ : c.slot.generation ≢ lease.generation = λ same. n (own (sym same) m e) in
    ground arith

-- Requests that see the same connection fail open the breaker once: after an error of a generation,
-- the next error of that generation only counts.
pub handle_command_error-once :
    (c : Connection) (now later generation : ℕ)
    → let failed = handle_command_error now generation c in
      handle_command_error later generation failed ≡ record failed { errors = failed.errors + 1 }
unfolding handle_command_error drop_manager record_connection_failure
handle_command_error-once c now later generation = ground arith
