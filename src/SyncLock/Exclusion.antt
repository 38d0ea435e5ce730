-- ===== src/SyncLock/Exclusion.antt =====
-- Who has the lock, in every state that can be reached.
use urpm_ng.Base.{
  Bool, Bool-cases, Option, arith, eqb, eqb_iff, false, if◌then◌else◌, inl, inr, none, refl, some,
  true, ℕ, ◌≡◌, ap, ◌∙◌, sym,
}
use urpm_ng.SyncLock.States.{
  Pc, State, Reachable, advance, advance_at, begin, begin_at, crash, flock, is_holder, judge,
  pid_alive, release, release_at, set_pc, start,
}

-- from the flock on
unfoldable pub owns : Pc → Bool
owns Pc.truncating = true
owns Pc.writing = true
owns Pc.held = true
owns _ = false

unfoldable pub is_held : Pc → Bool
is_held Pc.held = true
is_held _ = false

-- The process with the flock is the one past it, and once it holds the lock its PID is in the
-- file.
pub record IsSound (s : State) : Type 0 where
  pub is_owner : (k : ℕ) → owns (s.pcs k) ≡ is_holder s.holder k
  pub is_written : (k : ℕ) → is_held (s.pcs k) ≡ true → s.content ≡ some k

set_pc-IsSound :
    (i : ℕ) (pc : Pc) (s : State)
    → IsSound s
    → owns (s.pcs i) ≡ false
    → owns pc ≡ false
    → is_held pc ≡ false
    → IsSound (set_pc i pc s)
unfolding set_pc
set_pc-IsSound i pc s h e o u = record {
  is_owner = λ k. ground (arith, h.is_owner k, e, o, eqb_iff k i);
  is_written = λ k. ground (arith, h.is_written k, u, eqb_iff k i);
}

is_held-owns : (pc : Pc) → is_held pc ≡ true → owns pc ≡ true
unfolding is_held owns
is_held-owns Pc.held h = refl
is_held-owns _ h = cc

flock-IsSound :
    (i : ℕ) (failed : Pc) (s : State) (o : Option ℕ)
    → IsSound s
    → s.holder ≡ o
    → owns (s.pcs i) ≡ false
    → owns failed ≡ false
    → is_held failed ≡ false
    → IsSound (flock i failed s o)
unfolding flock
flock-IsSound i failed s (some x) h e own o u = set_pc-IsSound i failed s h own o u
flock-IsSound i failed s none h e own o u = record {
  is_owner = λ k.
      unfold set_pc owns is_holder in ground (arith, h.is_owner k, e, eqb_iff k i, eqb_iff i k);
  is_written = λ k. unfold set_pc is_held in ground (arith, h.is_written k, eqb_iff k i);
}

judge-IsSound :
    (i : ℕ) (s : State) (pid : Option ℕ)
    → IsSound s
    → owns (s.pcs i) ≡ false
    → IsSound (judge i s pid)
unfolding judge
judge-IsSound i s none h own =
    set_pc-IsSound i (Pc.denied none) s h own (unfold owns in refl) (unfold is_held in refl)
judge-IsSound i s (some x) h own = elim (Bool-cases (pid_alive (s.pcs x))) [
  | inl alive ↦
      rw alive (
        set_pc-IsSound i (Pc.denied (some x)) s h own (unfold owns in refl)
          (unfold is_held in refl))
  | inr gone ↦
      rw gone (set_pc-IsSound i Pc.reopened s h own (unfold owns in refl) (unfold is_held in refl))
]

pub is_holder_unique :
    (o : Option ℕ) (i k : ℕ) → is_holder o i ≡ true → is_holder o k ≡ true → i ≡ k
unfolding is_holder
is_holder_unique none i k a b = cc
is_holder_unique (some h) i k a b = ground (arith, eqb_iff h i, eqb_iff h k)

is_holder_freed :
    (o : Option ℕ) (i k : ℕ)
    → is_holder (if is_holder o i then none else o) k ≡ (if eqb k i then false else is_holder o k)
unfolding is_holder
is_holder_freed none i k = ground arith
is_holder_freed (some h) i k = ground (arith, eqb_iff h i, eqb_iff h k, eqb_iff k i)

owner_at :
    (i : ℕ) (pc : Pc) (s : State)
    → IsSound s
    → s.pcs i ≡ pc
    → owns pc ≡ true
    → is_holder s.holder i ≡ true
owner_at i pc s h e o = sym (h.is_owner i) ∙ ap owns e ∙ o

truncate-IsSound :
    (i : ℕ) (s : State)
    → IsSound s
    → s.pcs i ≡ Pc.truncating
    → IsSound (record (set_pc i Pc.writing s) { content = none })
truncate-IsSound i s h e =
    let own = owner_at i Pc.truncating s h e (unfold owns in refl) in
    record {
      is_owner = λ k. unfold set_pc owns in ground (arith, h.is_owner k, own, eqb_iff k i);
      is_written = λ k.
          unfold set_pc is_held in
          ground (
            arith,
            eqb_iff k i,
            h.is_owner k,
            is_held-owns (s.pcs k),
            is_holder_unique s.holder i k own,
          );
    }

write-IsSound :
    (i : ℕ) (s : State)
    → IsSound s
    → s.pcs i ≡ Pc.writing
    → IsSound (record (set_pc i Pc.held s) { content = some i })
write-IsSound i s h e =
    let own = owner_at i Pc.writing s h e (unfold owns in refl) in
    record {
      is_owner = λ k. unfold set_pc owns in ground (arith, h.is_owner k, own, eqb_iff k i);
      is_written = λ k.
          unfold set_pc is_held in
          ground (
            arith,
            eqb_iff k i,
            h.is_owner k,
            is_held-owns (s.pcs k),
            is_holder_unique s.holder i k own,
          );
    }

free-IsSound :
    (i : ℕ) (pc : Pc) (s : State)
    → IsSound s
    → owns pc ≡ false
    → is_held pc ≡ false
    → IsSound (record (set_pc i pc s) { holder = if is_holder s.holder i then none else s.holder })
free-IsSound i pc s h o u = record {
  is_owner = λ k.
      unfold set_pc in ground (arith, h.is_owner k, is_holder_freed s.holder i k, o, eqb_iff k i);
  is_written = λ k. unfold set_pc in ground (arith, h.is_written k, u, eqb_iff k i);
}

no_owner : (i : ℕ) (pc : Pc) (s : State) → s.pcs i ≡ pc → owns pc ≡ false → owns (s.pcs i) ≡ false
no_owner i pc s e o = ap owns e ∙ o

advance_at-IsSound :
    (i : ℕ) (s : State) (pc : Pc) → IsSound s → s.pcs i ≡ pc → IsSound (advance_at i s pc)
unfolding advance_at owns is_held
advance_at-IsSound i s Pc.idle h e = h
advance_at-IsSound i s Pc.opened h e =
    flock-IsSound i Pc.blocked s s.holder h refl (no_owner i Pc.opened s e refl) refl refl
advance_at-IsSound i s Pc.blocked h e =
    set_pc-IsSound i (Pc.judging s.content) s h (no_owner i Pc.blocked s e refl) refl refl
advance_at-IsSound i s (Pc.judging pid) h e =
    judge-IsSound i s pid h (no_owner i (Pc.judging pid) s e refl)
advance_at-IsSound i s Pc.reopened h e =
    flock-IsSound i Pc.reblocked s s.holder h refl (no_owner i Pc.reopened s e refl) refl refl
advance_at-IsSound i s Pc.reblocked h e =
    set_pc-IsSound i (Pc.denied s.content) s h (no_owner i Pc.reblocked s e refl) refl refl
advance_at-IsSound i s Pc.truncating h e = truncate-IsSound i s h e
advance_at-IsSound i s Pc.writing h e = write-IsSound i s h e
advance_at-IsSound i s Pc.held h e = h
advance_at-IsSound i s (Pc.denied pid) h e = h
advance_at-IsSound i s Pc.dead h e = h

begin_at-IsSound :
    (i : ℕ) (s : State) (pc : Pc) → IsSound s → s.pcs i ≡ pc → IsSound (begin_at i s pc)
unfolding begin_at owns is_held
begin_at-IsSound i s Pc.idle h e =
    set_pc-IsSound i Pc.opened s h (no_owner i Pc.idle s e refl) refl refl
begin_at-IsSound i s (Pc.denied pid) h e =
    set_pc-IsSound i Pc.opened s h (no_owner i (Pc.denied pid) s e refl) refl refl
begin_at-IsSound i s _ h e = h

release_at-IsSound :
    (i : ℕ) (s : State) (pc : Pc) → IsSound s → s.pcs i ≡ pc → IsSound (release_at i s pc)
unfolding release_at owns is_held
release_at-IsSound i s Pc.held h e =
    let own = owner_at i Pc.held s h e refl in
    let freed = free-IsSound i Pc.idle s h refl refl in rw own at freed
release_at-IsSound i s _ h e = h

begin-IsSound : (i : ℕ) (s : State) → IsSound s → IsSound (begin i s)
unfolding begin
begin-IsSound i s h = begin_at-IsSound i s (s.pcs i) h refl

advance-IsSound : (i : ℕ) (s : State) → IsSound s → IsSound (advance i s)
unfolding advance
advance-IsSound i s h = advance_at-IsSound i s (s.pcs i) h refl

release-IsSound : (i : ℕ) (s : State) → IsSound s → IsSound (release i s)
unfolding release
release-IsSound i s h = release_at-IsSound i s (s.pcs i) h refl

crash-IsSound : (i : ℕ) (s : State) → IsSound s → IsSound (crash i s)
unfolding crash owns is_held
crash-IsSound i s h = free-IsSound i Pc.dead s h refl refl

start-IsSound : IsSound start
unfolding owns is_holder is_held
start-IsSound = record { is_owner = λ k. refl; is_written = λ k h. cc }

pub Reachable-IsSound : (s : State) → Reachable s → IsSound s
Reachable-IsSound _ Reachable.at_start = start-IsSound
Reachable-IsSound _ (Reachable.on_begin i {s = s} r) = begin-IsSound i s (Reachable-IsSound s r)
Reachable-IsSound _ (Reachable.on_advance i {s = s} r) = advance-IsSound i s (Reachable-IsSound s r)
Reachable-IsSound _ (Reachable.on_release i {s = s} r) = release-IsSound i s (Reachable-IsSound s r)
Reachable-IsSound _ (Reachable.on_crash i {s = s} r) = crash-IsSound i s (Reachable-IsSound s r)

-- Whatever the processes do, and wherever they crash, at most one holds the lock, and its PID is
-- in the file.
pub is_held_unique :
    (s : State) (i k : ℕ)
    → Reachable s
    → is_held (s.pcs i) ≡ true
    → is_held (s.pcs k) ≡ true
    → (i ≡ k) × (s.content ≡ some i)
is_held_unique s i k r hi hk =
    let h = Reachable-IsSound s r in
    (
      is_holder_unique s.holder i k (sym (h.is_owner i) ∙ is_held-owns (s.pcs i) hi)
          (sym (h.is_owner k) ∙ is_held-owns (s.pcs k) hk),
      h.is_written i hi,
    )
