-- ===== src/Download/Failover.antt =====
-- `Downloader.download_one` of urpm/core/download.py. What a transfer yields at an attempt, and the
-- milliseconds that it took, are arguments; so is whether the item is in the cache. Other threads
-- do not run between its steps. Speeds are whole KB/s.
use urpm_ng.Base.{
  Bool, List, Option, none, some, Text, codes, eqb, if◌then◌else◌, is_empty, leb, ltb, select, ℕ,
  zero, suc, [], ◌∷◌, ◌++◌, inl, inr, true, false, not, ◌+◌, ◌-◌, ◌*◌, ◌/◌,
}
use urpm_ng.Download.Items.{
  Blob, DownloadError, DownloadItem, PoolServer, error_str, is_hard, is_valid_rpm,
}
use urpm_ng.Resilient.Retry.{has_id}

-- what `_download_from_url` yields: the file in the cache, the error, or an exception
pub data Transfer : Type 0 where
  arrived : Blob → Transfer
  failed : Option DownloadError → Transfer
  raised : Text → Transfer

-- what is told of a server
pub data Stat : Type 0 where
  failure : ℕ → Stat
  success : ℕ → Stat
  measured : ℕ → ℕ → Stat

-- what the downloader shares between downloads
pub record Session : Type 0 where
  pub server_active_slots : ℕ → ℕ
  pub session_server_kbps : ℕ → Option ℕ
  pub stats : List Stat
  -- the servers of the registrations that wait for the main thread
  pub pending_cache_registrations : List (Option ℕ)

-- `if server_id`
abbrev pub truthy : Option ℕ → Option ℕ
truthy none = none
truthy (some n) = if eqb n 0 then none else some n

abbrev pub set_at {ℓ} : {A : Type ℓ} → (ℕ → A) → ℕ → A → ℕ → A
set_at f n a m = if eqb m n then a else f m

abbrev pub note_stat : (ℕ → Stat) → Option ℕ → Session → Session
note_stat mk none s = s
note_stat mk (some n) s = record s { stats = s.stats ++ mk n ∷ [] }

abbrev pub note_failure : PoolServer → Session → Session
note_failure v s = note_stat Stat.failure (truthy v.id) s

-- the weighted mean of the speeds
abbrev pub mean_kbps : Option ℕ → ℕ → ℕ
mean_kbps none kbps = kbps
mean_kbps (some prev) kbps = (3 * kbps + 7 * prev) / 10

-- the speed of a transfer, where the size can be read
abbrev pub kbps_of : Blob → ℕ → Option ℕ
kbps_of f ms = elim f.size [ inl exc ↦ none | inr bytes ↦ some (bytes * 1000 / (ms * 1024)) ]

abbrev pub note_speed : ℕ → Option ℕ → Session → Session
note_speed n none s = s
note_speed n (some kbps) s = if eqb kbps 0 then s else record s {
  session_server_kbps =
      set_at s.session_server_kbps n (some (mean_kbps (s.session_server_kbps n) kbps));
  stats = s.stats ++ Stat.measured n kbps ∷ [];
}

-- a file that arrived and is valid; short transfers are not measured
abbrev pub note_success : Option ℕ → Blob → ℕ → Session → Session
note_success none f ms s = s
note_success (some n) f ms s =
    if leb 500 ms then note_speed n (kbps_of f ms) s else note_stat Stat.success (some n) s

abbrev pub register_cache : Option ℕ → Session → Session
register_cache id s = record s {
  pending_cache_registrations = s.pending_cache_registrations ++ id ∷ [];
}

abbrev pub occupy : Option ℕ → Session → Session
occupy none s = s
occupy (some n) s = record s {
  server_active_slots = set_at s.server_active_slots n (s.server_active_slots n + 1);
}

abbrev pub free_slot : Option ℕ → Session → Session
free_slot none s = s
free_slot (some n) s = record s {
  server_active_slots = set_at s.server_active_slots n (s.server_active_slots n - 1);
}

-- the session, the errors so far, whether the file is there, and the exception that is on its way
-- out
pub record Tried : Type 0 where
  pub session : Session
  pub errors : List Text
  pub done : Bool
  pub exception : Option Text

abbrev pub has_raised : Tried → Bool
has_raised t = elim t.exception [ none ↦ false | some exc ↦ true ]

abbrev pub labelled : PoolServer → Text → Text
labelled v reason = v.name ++ codes ": " ++ reason

module _ (describe : List ℕ → Text) (transfer : PoolServer → ℕ → Transfer)
    (elapsed : PoolServer → ℕ → ℕ) where
  -- a file that arrived: an invalid one is not asked for again from the server
  unfoldable pub on_arrival : PoolServer → ℕ → Blob → Tried → Tried
  on_arrival v attempt f t = elim (is_valid_rpm describe f) [
    | some reason ↦ record {
      session = note_failure v t.session;
      errors = t.errors ++ labelled v reason ∷ [];
      done = false;
      exception = t.exception;
    }
    | none ↦ record t {
      session = register_cache v.id (note_success (truthy v.id) f (elapsed v attempt) t.session);
      done = true;
    }
  ]

  -- the attempts at a server: `left` of them remain
  unfoldable pub try_server : ℕ → ℕ → PoolServer → Tried → Tried
  unfolding on_arrival
  try_server zero attempt v t = record t { session = note_failure v t.session }
  try_server (suc left) attempt v t = elim (transfer v attempt) [
    | Transfer.arrived f ↦ on_arrival v attempt f t
    | Transfer.failed e ↦
        (let t' = record t { errors = t.errors ++ labelled v (error_str e) ∷ [] } in
          if is_hard e
          then record t' { session = note_failure v t.session }
          else try_server left (suc attempt) v t')
    | Transfer.raised exc ↦ record t { exception = some exc }
  ]

  -- a server between taking a slot and giving it back, which also happens to an exception
  unfoldable pub in_slot : ℕ → PoolServer → Tried → Tried
  unfolding try_server
  in_slot max_retries v t =
      let t' = try_server max_retries 0 v (record t { session = occupy (truthy v.id) t.session }) in
      record t' { session = free_slot (truthy v.id) t'.session }

  -- the servers in turn; with the server that served the file. An exception ends the loop.
  unfoldable pub try_servers : ℕ → List PoolServer → Tried → Tried × Option PoolServer
  unfolding in_slot
  try_servers max_retries [] t = (t, none)
  try_servers max_retries (v ∷ vs) t =
      let t' = in_slot max_retries v t in
      let next = λ (u : Tried). try_servers max_retries vs u in
      if t'.done then (t', some v) else if has_raised t' then (t', none) else next t'

-- the servers below the limit of downloads at a time, or all if none is
unfoldable pub unsaturated : ℕ → Session → List PoolServer → List PoolServer
unsaturated max_per_server s servers =
    let available =
      select (λ v. ltb (elim v.id [ none ↦ 0 | some n ↦ s.server_active_slots n ]) max_per_server)
        servers in
    if is_empty available then servers else available

abbrev pub is_excluded : DownloadItem → PoolServer → Bool
is_excluded i v = elim v.id [ none ↦ false | some n ↦ has_id i.exclude_server_ids n ]

-- the servers that are tried
unfoldable pub servers_for : ℕ → Session → DownloadItem → List PoolServer
unfolding unsaturated
servers_for max_per_server s i =
    select (λ v. not (is_excluded i v)) (unsaturated max_per_server s i.servers)
