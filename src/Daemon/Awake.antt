-- ===== src/Daemon/Awake.antt =====
-- What the wake-up detector and the deferred sync of the daemon promise.
use urpm_ng.Base.{
  Bool, List, if◌then◌else◌, ltb, map, length, ℕ, [], ◌∷◌, ◌++◌, ◌+◌, ◌≡◌, ◌≤◌, ◌<◌, ◌⊎◌, ◌||◌, inl,
  inr, true, false, arith, refl, ap, ◌∙◌,
}
use urpm_ng.Daemon.Wakeup.{
  Clocks, Probe, Wakeup, WakeupDetector, check, divergence_threshold, on_pending, on_wakeup,
  wakeup_tick, wakeup_ticks,
}

-- a time between two checks: seconds awake and seconds asleep
pub record Span : Type 0 where
  pub awake : ℕ
  pub asleep : ℕ

-- the clocks after it: the monotonic clock stands while the machine sleeps
abbrev pub sleep_over : Clocks → Span → Clocks
sleep_over c p = record { wall = c.wall + p.awake + p.asleep; mono = c.mono + p.awake }

-- what the checks answer over the spans
unfoldable pub checks : WakeupDetector → Clocks → List Span → List Bool
unfolding check
checks d c [] = []
checks d c (p ∷ ps) =
    let (d', woken) = check d (sleep_over c p) in
    let rest = checks d' (sleep_over c p) ps in woken ∷ rest

ltb-shift :
    (w m a s : ℕ)
    → ltb (w + (m + a) + divergence_threshold) (w + a + s + m) ≡ ltb divergence_threshold s
ltb-shift w m a s = ground arith

-- From clocks that the detector has just read, the checks answer for each span whether the
-- machine slept for more than the threshold in it, however long it was awake.
pub checks_lem :
    (c : Clocks) (ps : List Span)
    → checks (record { last_wall = c.wall; last_mono = c.mono }) c ps
      ≡ map (λ p. ltb divergence_threshold p.asleep) ps
unfolding checks check
checks_lem c [] = refl
checks_lem c (p ∷ ps) =
    ap
      (λ b.
        b
        ∷ checks (record { last_wall = c.wall + p.awake + p.asleep; last_mono = c.mono + p.awake })
            (sleep_over c p) ps)
      (ltb-shift c.wall c.mono p.awake p.asleep)
    ∙ ap (λ bs. ltb divergence_threshold p.asleep ∷ bs) (checks_lem (sleep_over c p) ps)

-- the machine woke up, as the tick sees it
abbrev pub is_woken : Wakeup → Probe → Bool
unfolding check
is_woken s k = (check s.detector k.clocks).1

-- there is a route at one of the ticks
abbrev pub has_route : List Probe → Bool
has_route [] = false
has_route (k ∷ ks) = if k.route then true else has_route ks

module _ (auto : Bool) where
  wakeup_tick-le : (k : Probe) (s : Wakeup) → length s.syncs ≤ length (wakeup_tick auto k s).syncs
  unfolding wakeup_tick check on_wakeup on_pending
  wakeup_tick-le k s = ground arith

  wakeup_ticks-le :
      (ks : List Probe) (s : Wakeup) → length s.syncs ≤ length (wakeup_ticks auto ks s).syncs
  unfolding wakeup_ticks
  wakeup_ticks-le [] s = omega arith
  wakeup_ticks-le (k ∷ ks) s =
      let a = wakeup_tick-le k s in let b = wakeup_ticks-le ks (wakeup_tick auto k s) in omega arith

  -- a tick with a sync to do does it, or has it pending and had no route
  wakeup_tick_owes :
      (k : Probe) (s : Wakeup)
      → auto ≡ true
      → s.wakeup_pending || is_woken s k ≡ true
      → (length s.syncs < length (wakeup_tick auto k s).syncs)
        ⊎ (((wakeup_tick auto k s).wakeup_pending ≡ true) × (k.route ≡ false))
  unfolding wakeup_tick check on_wakeup on_pending
  wakeup_tick_owes k s on owes = ground arith

  wakeup_ticks_owe :
      (ks : List Probe) (k : Probe) (s : Wakeup)
      → auto ≡ true
      → s.wakeup_pending || is_woken s k ≡ true
      → has_route (k ∷ ks) ≡ true
      → length s.syncs < length (wakeup_ticks auto (k ∷ ks) s).syncs
  unfolding wakeup_ticks
  wakeup_ticks_owe [] k s on owes route = elim (wakeup_tick_owes k s on owes) [
    | inl more ↦ more
    | inr later ↦ absurd (let none = later.1 in ground arith)
  ]
  wakeup_ticks_owe (k' ∷ ks) k s on owes route = elim (wakeup_tick_owes k s on owes) [
    | inl more ↦ (let rest = wakeup_ticks-le (k' ∷ ks) (wakeup_tick auto k s) in omega arith)
    | inr later ↦
        (let pending = later.0 in
          let noroute = later.1 in
          let before = wakeup_tick-le k s in
          let rest =
            wakeup_ticks_owe ks k' (wakeup_tick auto k s) on (ground arith) (ground arith) in
          omega arith)
  ]

  wakeup_ticks-append :
      (ks ls : List Probe) (s : Wakeup)
      → wakeup_ticks auto (ks ++ ls) s ≡ wakeup_ticks auto ls (wakeup_ticks auto ks s)
  unfolding wakeup_ticks
  wakeup_ticks-append [] ls s = refl
  wakeup_ticks-append (k ∷ ks) ls s = wakeup_ticks-append ks ls (wakeup_tick auto k s)

  -- Where metadata are updated automatically, a wake-up that a tick detects, or a deferred sync
  -- that it still has, is followed by a sync before the end of the first tick that has a route,
  -- that tick included, whichever syncs raise: over the ticks from there on, a sync more is begun.
  pub wakeup_ticks_serve :
      (before after : List Probe) (k : Probe) (s : Wakeup)
      → auto ≡ true
      → (wakeup_ticks auto before s).wakeup_pending || is_woken (wakeup_ticks auto before s) k
        ≡ true
      → has_route (k ∷ after) ≡ true
      → length (wakeup_ticks auto before s).syncs
        < length (wakeup_ticks auto (before ++ k ∷ after) s).syncs
  wakeup_ticks_serve before after k s on owes route =
      rw (wakeup_ticks-append before (k ∷ after) s)
        (wakeup_ticks_owe after k (wakeup_ticks auto before s) on owes route)
