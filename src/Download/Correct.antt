-- ===== src/Download/Correct.antt =====
-- What `download_one` promises (urpm/core/download.py).
use urpm_ng.Base.{
  All, select-kept, List, Option, none, some, Text, if◌then◌else◌, is_empty, ℕ, [], ◌∷◌, ◌≡◌, ◌⊎◌,
  inl, inr, true, false, not, arith, refl,
}
use urpm_ng.Download.Items.{DownloadItem, DownloadResult, PoolServer, uses_new_schema}
use urpm_ng.Download.Failover.{
  Session, Transfer, Tried, is_excluded, servers_for, try_servers, unsaturated,
}
use urpm_ng.Download.One.{
  download_one, download_from_servers, failed_with, failover_result, untried,
}
use urpm_ng.Download.Served.{
  IsStopped, IsFirst, IsFirst-All, NoneDelivers, Served, try_servers-Served,
}

module _ (describe : List ℕ → Text) (transfer : PoolServer → ℕ → Transfer)
    (elapsed : PoolServer → ℕ → ℕ) (transfer_url : Text → ℕ → Transfer)
    (max_retries max_per_server : ℕ) where
  -- the file was got from the first server that has it, or all fail, or the first that does not
  -- fail raises
  abbrev pub IsServed : DownloadItem → List PoolServer → DownloadResult → Type 0
  IsServed i vs r =
      ((r.success ≡ true)
        × (w : PoolServer) × IsFirst describe transfer elapsed max_retries vs w
        × (is_excluded i w ≡ false)
        × (r.source_server_id ≡ w.id))
      ⊎ ((r.success ≡ false)
          × (NoneDelivers describe transfer elapsed max_retries vs
              ⊎ IsStopped describe transfer elapsed max_retries vs))

  failover_result-IsServed :
      (i : DownloadItem) (vs : List PoolServer) (x : Tried × Option PoolServer)
      → All (λ v. not (is_excluded i v) ≡ true) vs
      → Served describe transfer elapsed max_retries vs x
      → IsServed i vs (failover_result x).1
  unfolding failover_result
  failover_result-IsServed i vs (t, none) admitted none_delivers = inr (refl, none_delivers)
  failover_result-IsServed i vs (t, some w) admitted first =
      let admits =
        IsFirst-All describe transfer elapsed max_retries (λ v. not (is_excluded i v)) vs w admitted
          first in
      inl (refl, w, first, ground arith, refl)

  servers_for-admitted :
      (s : Session) (i : DownloadItem)
      → All (λ v. not (is_excluded i v) ≡ true) (servers_for max_per_server s i)
  unfolding servers_for
  servers_for-admitted s i =
      select-kept (λ v. not (is_excluded i v)) (unsaturated max_per_server s i.servers)

  download_list-IsServed :
      (s : Session) (i : DownloadItem) (vs : List PoolServer) (reason : Text)
      → All (λ v. not (is_excluded i v) ≡ true) vs
      → IsServed i vs
          (if is_empty vs
            then (s, failed_with reason)
            else failover_result
                (try_servers describe transfer elapsed max_retries vs (untried s))).1
  download_list-IsServed s i [] reason admitted = inr (refl, inl tt)
  download_list-IsServed s i (v ∷ vs) reason admitted =
      failover_result-IsServed i (v ∷ vs)
        (try_servers describe transfer elapsed max_retries (v ∷ vs) (untried s)) admitted
        (try_servers-Served describe transfer elapsed max_retries (v ∷ vs) (untried s) refl refl)

  -- With a pool of servers and no copy in the cache, an item is downloaded exactly when one of the
  -- servers that are tried has a valid file at one of `max_retries` attempts with only transient
  -- errors before, and no attempt at a server before it raises; the file is from the first such
  -- server, which the item does not exclude. Otherwise the download fails: no server has one and
  -- none raises, or an attempt raises before any server has one.
  pub download_one_correct :
      (s : Session) (i : DownloadItem)
      → uses_new_schema i ≡ true
      → IsServed i
          (servers_for max_per_server s i)
          (download_one describe transfer elapsed transfer_url max_retries max_per_server false s
            i).1
  unfolding download_one download_from_servers
  download_one_correct s i pooled =
      rw (pooled)
        (download_list-IsServed s i (servers_for max_per_server s i) _ (servers_for-admitted s i))
