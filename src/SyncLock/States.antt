-- ===== src/SyncLock/States.antt =====
-- The steps of `try_acquire`, `_force_acquire`, `_write_pid` and `release`, between which other
-- processes run.
use urpm_ng.Base.{Bool, Option, eqb, false, if◌then◌else◌, none, some, true, ℕ}

-- what a process does next
pub data Pc : Type 0 where
  idle : Pc
  opened : Pc
  blocked : Pc
  judging : Option ℕ → Pc
  reopened : Pc
  reblocked : Pc
  truncating : Pc
  writing : Pc
  held : Pc
  denied : Option ℕ → Pc
  dead : Pc

-- the process that has the flock, and the PID in the file, where there is one
pub record State : Type 0 where
  pub pcs : ℕ → Pc
  pub holder : Option ℕ
  pub content : Option ℕ

unfoldable pub set_pc : ℕ → Pc → State → State
set_pc i pc s = record s { pcs = λ k. if eqb k i then pc else s.pcs k }

-- `flock(fd, LOCK_EX | LOCK_NB)`; `failed` is where a BlockingIOError leads
unfoldable pub flock : ℕ → Pc → State → Option ℕ → State
unfolding set_pc
flock i failed s none = record (set_pc i Pc.truncating s) { holder = some i }
flock i failed s (some h) = set_pc i failed s

-- `_pid_alive`
unfoldable pub pid_alive : Pc → Bool
pid_alive Pc.dead = false
pid_alive _ = true

-- the PID that was read: `holder is not None and not _pid_alive(holder)`
unfoldable pub judge : ℕ → State → Option ℕ → State
unfolding set_pc pid_alive
judge i s none = set_pc i (Pc.denied none) s
judge i s (some h) =
    if pid_alive (s.pcs h) then set_pc i (Pc.denied (some h)) s else set_pc i Pc.reopened s

unfoldable pub advance_at : ℕ → State → Pc → State
unfolding flock judge
advance_at i s Pc.opened = flock i Pc.blocked s s.holder
advance_at i s Pc.blocked = set_pc i (Pc.judging s.content) s
advance_at i s (Pc.judging pid) = judge i s pid
advance_at i s Pc.reopened = flock i Pc.reblocked s s.holder
advance_at i s Pc.reblocked = set_pc i (Pc.denied s.content) s
advance_at i s Pc.truncating = record (set_pc i Pc.writing s) { content = none }
advance_at i s Pc.writing = record (set_pc i Pc.held s) { content = some i }
advance_at i s _ = s

-- the next step of a call of `try_acquire`
unfoldable pub advance : ℕ → State → State
unfolding advance_at
advance i s = advance_at i s (s.pcs i)

unfoldable pub begin_at : ℕ → State → Pc → State
unfolding set_pc
begin_at i s Pc.idle = set_pc i Pc.opened s
begin_at i s (Pc.denied pid) = set_pc i Pc.opened s
begin_at i s _ = s

-- a call of `try_acquire`, which opens the file
unfoldable pub begin : ℕ → State → State
unfolding begin_at
begin i s = begin_at i s (s.pcs i)

unfoldable pub release_at : ℕ → State → Pc → State
unfolding set_pc
release_at i s Pc.held = record (set_pc i Pc.idle s) { holder = none }
release_at i s _ = s

-- `release`, which does nothing where the lock is not held
unfoldable pub release : ℕ → State → State
unfolding release_at
release i s = release_at i s (s.pcs i)

unfoldable pub is_holder : Option ℕ → ℕ → Bool
is_holder none i = false
is_holder (some h) i = eqb h i

-- the process ends, and the system closes its files
unfoldable pub crash : ℕ → State → State
unfolding set_pc is_holder
crash i s = record (set_pc i Pc.dead s) { holder = if is_holder s.holder i then none else s.holder }

abbrev pub start : State
start = record { pcs = λ k. Pc.idle; holder = none; content = none }

-- what can happen to the processes, in any order
pub data Reachable : State → Type 0 where
  at_start : Reachable start
  on_begin : (i : ℕ) {s : State} → Reachable s → Reachable (begin i s)
  on_advance : (i : ℕ) {s : State} → Reachable s → Reachable (advance i s)
  on_release : (i : ℕ) {s : State} → Reachable s → Reachable (release i s)
  on_crash : (i : ℕ) {s : State} → Reachable s → Reachable (crash i s)
