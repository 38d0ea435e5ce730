-- ===== src/SyncLock/Recovery.antt =====
-- The lock of a process that crashes.
use urpm_ng.Base.{arith, eqb_iff, none, refl, some, true, ℕ, ◌≡◌, ◌≢◌, ap, ◌∙◌, sym}
use urpm_ng.SyncLock.States.{
  Pc, State, Reachable, advance, advance_at, begin, begin_at, crash, flock, is_holder, set_pc,
}
use urpm_ng.SyncLock.Exclusion.{owns, Reachable-IsSound}

-- the whole call of `try_acquire` of a process that no other one disturbs
unfoldable pub acquire : ℕ → State → State
acquire k s = advance k (advance k (advance k (begin k s)))

set_pc-same : (k : ℕ) (pc : Pc) (s : State) → (set_pc k pc s).pcs k ≡ pc
unfolding set_pc
set_pc-same k pc s = ground (arith, eqb_iff k k)

pcs-crash : (i k : ℕ) (s : State) → k ≢ i → (crash i s).pcs k ≡ s.pcs k
unfolding crash set_pc
pcs-crash i k s ne = ground (arith, eqb_iff k i, ne)

begin-idle :
    (k : ℕ) (s : State)
    → s.pcs k ≡ Pc.idle
    → ((begin k s).pcs k ≡ Pc.opened) × ((begin k s).holder ≡ s.holder)
unfolding begin begin_at
begin-idle k s e = (
  ap (λ pc. (begin_at k s pc).pcs k) e ∙ set_pc-same k Pc.opened s,
  ap (λ pc. (begin_at k s pc).holder) e ∙ unfold set_pc in refl,
)

advance-opened :
    (k : ℕ) (s : State)
    → s.pcs k ≡ Pc.opened
    → s.holder ≡ none
    → (advance k s).pcs k ≡ Pc.truncating
unfolding advance advance_at
advance-opened k s e n =
    ap (λ pc. (advance_at k s pc).pcs k) e
    ∙ ap (λ o. (flock k Pc.blocked s o).pcs k) n
    ∙ unfold flock in set_pc-same k Pc.truncating s

advance-truncating :
    (k : ℕ) (s : State) → s.pcs k ≡ Pc.truncating → (advance k s).pcs k ≡ Pc.writing
unfolding advance advance_at
advance-truncating k s e = ap (λ pc. (advance_at k s pc).pcs k) e ∙ set_pc-same k Pc.writing s

advance-writing :
    (k : ℕ) (s : State)
    → s.pcs k ≡ Pc.writing
    → ((advance k s).pcs k ≡ Pc.held) × ((advance k s).content ≡ some k)
unfolding advance advance_at
advance-writing k s e = (
  ap (λ pc. (advance_at k s pc).pcs k) e ∙ set_pc-same k Pc.held s,
  ap (λ pc. (advance_at k s pc).content) e,
)

acquire_free :
    (k : ℕ) (s : State)
    → s.pcs k ≡ Pc.idle
    → s.holder ≡ none
    → ((acquire k s).pcs k ≡ Pc.held) × ((acquire k s).content ≡ some k)
unfolding acquire
acquire_free k s e n =
    let b = begin-idle k s e in
    advance-writing k (advance k (advance k (begin k s)))
      (advance-truncating k (advance k (begin k s)) (advance-opened k (begin k s) b.0 (b.1 ∙ n)))

holder-crash : (i : ℕ) (s : State) → is_holder s.holder i ≡ true → (crash i s).holder ≡ none
unfolding crash
holder-crash i s h = rw h refl

-- A process that crashes from the flock on, even before it has written its PID, leaves the lock to
-- the next one that asks for it.
pub acquire-crash :
    (s : State) (i k : ℕ)
    → Reachable s
    → owns (s.pcs i) ≡ true
    → s.pcs k ≡ Pc.idle
    → ((acquire k (crash i s)).pcs k ≡ Pc.held) × ((acquire k (crash i s)).content ≡ some k)
acquire-crash s i k r own e =
    let h = Reachable-IsSound s r in
    let other : k ≢ i = λ same.
      absurd (unfold owns in ground (arith, ap (λ x. owns (s.pcs x)) same, ap owns e, own)) in
    acquire_free k (crash i s) (pcs-crash i k s other ∙ e)
      (holder-crash i s (sym (h.is_owner i) ∙ own))
