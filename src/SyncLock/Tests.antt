-- ===== src/SyncLock/Tests.antt =====
-- Runs of the lock with two processes.
use urpm_ng.Base.{refl, some, true, ℕ, ◌≡◌}
use urpm_ng.SyncLock.States.{
  Pc, State, Reachable, advance, advance_at, begin, begin_at, crash, flock, set_pc, start,
}
use urpm_ng.SyncLock.Exclusion.{is_held, owns, is_held_unique}
use urpm_ng.SyncLock.Recovery.{acquire, acquire-crash}

-- process 1 has the lock, and process 2 has asked for it
abbrev one_holds : State
one_holds = advance 1 (advance 1 (advance 1 (begin 2 (begin 1 start))))

one_holds-Reachable : Reachable one_holds
one_holds-Reachable = Reachable.on_advance 1 (
    Reachable.on_advance 1
      (Reachable.on_advance 1 (Reachable.on_begin 2 (Reachable.on_begin 1 Reachable.at_start))))

one_holds-held : is_held (one_holds.pcs 1) ≡ true
unfolding is_held advance advance_at begin begin_at flock set_pc
one_holds-held = refl

abbrev holding : ℕ
holding = 1

is_held_unique_example : (holding ≡ holding) × (one_holds.content ≡ some holding)
is_held_unique_example =
    is_held_unique one_holds 1 1 one_holds-Reachable one_holds-held one_holds-held

-- process 1 has the flock and has not written its PID
abbrev one_writes : State
one_writes = advance 1 (begin 1 start)

acquire-crash_example :
    ((acquire 2 (crash 1 one_writes)).pcs 2 ≡ Pc.held)
    × ((acquire 2 (crash 1 one_writes)).content ≡ some 2)
acquire-crash_example =
    acquire-crash one_writes 1 2 (Reachable.on_advance 1 (Reachable.on_begin 1 Reachable.at_start))
      (unfold owns advance advance_at begin begin_at flock set_pc in refl)
      (unfold advance advance_at begin begin_at flock set_pc in refl)
