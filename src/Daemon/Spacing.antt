-- ===== src/Daemon/Spacing.antt =====
-- When the tasks of the scheduler run (urpm/daemon/scheduler.py).
use urpm_ng.Base.{
  All, All-map, Bool-cases, List, Option-cases, none, some, leb, not, ℕ, zero, suc, [], ◌∷◌, ◌+◌,
  ◌*◌, ◌≡◌, ◌≤◌, ◌⊎◌, ◌||◌, inl, inr, true, false, arith, refl, sym, ap, ◌∙◌,
}
use urpm_ng.Daemon.Schedule.{
  Plan, Progress, no_progress, Run, Settings, Task, Tick, base_interval, check_task, check_tasks,
  first_time, is_enabled, jittered_ticks, next_of, run_task, run_ticks, schedule_next, set_next,
  should_run_task, metadata, predownload, replication, fetch_dates,
}

next-set_next :
    (p : Plan) (t : Task) (n : ℕ) (u : Task)
    → ((t ≡ u) × (next_of (set_next p t n) u ≡ some n)) ⊎ (next_of (set_next p t n) u ≡ next_of p u)
next-set_next p t n u = ground arith

next-set_self : (p : Plan) (t : Task) (n : ℕ) → next_of (set_next p t n) t ≡ some n
next-set_self p t n = ground arith

le-mul : (a b : ℕ) → 1 ≤ a → b ≤ a * b
le-mul zero b h = absurd (omega arith)
le-mul (suc a) b h = omega arith

module _ (c : Settings) where
  -- a run that was completed is followed by another run of the task after a tick at least
  abbrev pub Follows : Run → Run → Type 0
  Follows r q = q.completed ≡ true → q.task ≡ r.task → q.at + c.tick_interval ≤ r.at

  -- the runs, the last first
  abbrev pub AreSpaced : List Run → Type 0
  AreSpaced [] = Unit
  AreSpaced (r ∷ rs) = All (Follows r) rs × AreSpaced rs

  -- a task is planned for after its completed runs
  abbrev IsAhead : Plan → Run → Type 0
  IsAhead p q =
      q.completed ≡ true → (n : ℕ) × (next_of p q.task ≡ some n) × (q.at + c.tick_interval ≤ n)

  record Inv (s : Progress) : Type 0 where
    spaced : AreSpaced s.runs
    ahead : All (IsAhead s.plan) s.runs

  tick-le-jittered :
      (base jitter : ℕ) → c.tick_interval ≤ jittered_ticks c base jitter * c.tick_interval
  unfolding jittered_ticks
  tick-le-jittered base jitter = le-mul _ c.tick_interval (ground arith)

  -- a first time, where the task had none
  first-IsAhead :
      (p : Plan) (t : Task) (n : ℕ)
      → next_of p t ≡ none
      → (q : Run) → IsAhead p q
      → IsAhead (set_next p t n) q
  first-IsAhead p t n free q h done = elim (next-set_next p t n q.task) [
    | inl same ↦ absurd (
        let r = h done in
        let e : next_of p q.task ≡ none = sym (ap (next_of p) same.0) ∙ free in cc)
    | inr same ↦ let r = h done in (r.0, same ∙ r.1, r.2)
  ]

  -- a later time than the one that was due
  later-IsAhead :
      (p : Plan) (t : Task) (n time : ℕ)
      → next_of p t ≡ some time
      → time ≤ n
      → (q : Run) → IsAhead p q
      → IsAhead (set_next p t n) q
  later-IsAhead p t n time due le q h done = elim (next-set_next p t n q.task) [
    | inl same ↦
        let r = h done in
        let e : next_of p q.task ≡ some time = sym (ap (next_of p) same.0) ∙ due in
        let same_time : r.0 ≡ time = cc in (n, same.1, omega (arith, r.2))
    | inr same ↦ let r = h done in (r.0, same ∙ r.1, r.2)
  ]

  run_task-Inv :
      (k : Tick c) (t : Task) (s : Progress) (time : ℕ)
      → next_of s.plan t ≡ some time
      → time ≤ k.now
      → Inv s
      → Inv (run_task c k t s)
  unfolding schedule_next
  run_task-Inv k t s time due le inv = elim (Bool-cases (k.raises t)) [
    | inl e ↦ rw e (record {
      spaced = (
        All-map (IsAhead s.plan) (Follows (record { task = t; at = k.now; completed = false }))
            (λ q h. before q h) s.runs inv.ahead,
        inv.spaced,
      );
      ahead = ((λ done. cc), inv.ahead);
    })
    | inr e ↦ rw e (record {
      spaced = (
        All-map (IsAhead s.plan) (Follows (record { task = t; at = k.now; completed = true }))
            (λ q h. before q h) s.runs inv.ahead,
        inv.spaced,
      );
      ahead = (
        (λ done. (
          next,
          next-set_self s.plan t next,
          omega (arith, tick-le-jittered (base_interval c k t) (k.jitter t)),
        )),
        All-map (IsAhead s.plan) (IsAhead (set_next s.plan t next))
            (later-IsAhead s.plan t next time due (omega arith)) s.runs inv.ahead,
      );
    })
  ]
    where
      next : ℕ
      next = k.now + jittered_ticks c (base_interval c k t) (k.jitter t) * c.tick_interval

      before :
          (q : Run)
          → IsAhead s.plan q
          → q.completed ≡ true
          → q.task ≡ t
          → q.at + c.tick_interval ≤ k.now
      before q h done same =
          let r = h done in
          let e : next_of s.plan q.task ≡ some time = ap (next_of s.plan) same ∙ due in
          let same_time : r.0 ≡ time = cc in omega (arith, r.2)

  should_run_task-none :
      (p : Plan) (t : Task) (now draw : ℕ)
      → next_of p t ≡ none
      → should_run_task c p t now draw ≡ (set_next p t (first_time c t now draw), false)
  unfolding should_run_task
  should_run_task-none p t now draw free = rw (should_run_task, free) refl

  should_run_task-some :
      (p : Plan) (t : Task) (now draw time : ℕ)
      → next_of p t ≡ some time
      → should_run_task c p t now draw ≡ (p, leb time now)
  unfolding should_run_task
  should_run_task-some p t now draw time due = rw (should_run_task, due) refl

  check_task-Inv : (k : Tick c) (t : Task) (s : Progress) → Inv s → Inv (check_task c k t s)
  unfolding check_task
  check_task-Inv k t s inv = elim (Bool-cases (s.raised || not (is_enabled c t))) [
    | inl skip ↦ rw skip inv
    | inr go ↦ elim (Option-cases (next_of s.plan t)) [
      | inl free ↦
          rw (check_task, go, should_run_task-none s.plan t k.now (k.draw t) free)
            (record {
              spaced = inv.spaced;
              ahead =
                  All-map (IsAhead s.plan)
                    (IsAhead (set_next s.plan t (first_time c t k.now (k.draw t))))
                    (first-IsAhead s.plan t (first_time c t k.now (k.draw t)) free) s.runs
                    inv.ahead;
            })
      | inr (time, due) ↦ elim (Bool-cases (leb time k.now)) [
        | inl le ↦
            rw (check_task, go, should_run_task-some s.plan t k.now (k.draw t) time due, le)
              (run_task-Inv k t s time due (ground arith) inv)
        | inr gt ↦
            rw (check_task, go, should_run_task-some s.plan t k.now (k.draw t) time due, gt)
              (record { spaced = inv.spaced; ahead = inv.ahead })
      ]
    ]
  ]

  check_tasks-Inv : (k : Tick c) (s : Progress) → Inv s → Inv (check_tasks c k s)
  unfolding check_tasks
  check_tasks-Inv k s inv = check_task-Inv k fetch_dates _ (
      check_task-Inv k replication _ (
        check_task-Inv k predownload _ (
          check_task-Inv k metadata (record s { raised = false })
            (record { spaced = inv.spaced; ahead = inv.ahead }))))

  run_ticks-Inv : (ks : List (Tick c)) (s : Progress) → Inv s → Inv (run_ticks c ks s)
  unfolding run_ticks
  run_ticks-Inv [] s inv = inv
  run_ticks-Inv (k ∷ ks) s inv = run_ticks-Inv ks (check_tasks c k s) (check_tasks-Inv k s inv)

  -- Whatever the clock shows, whatever is drawn and whichever tasks raise at the ticks of the main
  -- loop, a run of a task that `_check_tasks` completes is followed by its next run of that task
  -- after one tick at least.
  pub run_ticks-AreSpaced : (ks : List (Tick c)) → AreSpaced (run_ticks c ks no_progress).runs
  run_ticks-AreSpaced ks =
      (run_ticks-Inv ks no_progress (record { spaced = tt; ahead = tt })).spaced
