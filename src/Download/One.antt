-- ===== src/Download/One.antt =====
-- `Downloader.download_one` of urpm/core/download.py as a whole, with the legacy schema of a single
-- URL.
use urpm_ng.Base.{
  Bool, List, Option, none, some, Text, codes, if◌then◌else◌, is_empty, length, ℕ, zero, suc, [],
  ◌∷◌, ◌++◌, ◌-◌, true, false, decimal,
}
use urpm_ng.Download.Items.{
  DownloadItem, DownloadResult, PoolServer, error_str, is_hard, is_valid_rpm, uses_new_schema,
}
use urpm_ng.Download.Failover.{Session, Transfer, Tried, register_cache, servers_for, try_servers}

-- `sep.join`
join_texts : Text → List Text → Text
join_texts sep [] = []
join_texts sep (x ∷ []) = x
join_texts sep (x ∷ y ∷ ys) = let rest = join_texts sep (y ∷ ys) in x ++ sep ++ rest

drop_texts : ℕ → List Text → List Text
drop_texts zero xs = xs
drop_texts (suc n) [] = []
drop_texts (suc n) (x ∷ xs) = drop_texts n xs

abbrev pub failed_with : Text → DownloadResult
failed_with reason = record {
  success = false;
  cached = false;
  from_peer = false;
  error = some reason;
  source_server_id = none;
}

abbrev pub succeeded_from : Option ℕ → DownloadResult
succeeded_from id = record {
  success = true;
  cached = false;
  from_peer = false;
  error = none;
  source_server_id = id;
}

abbrev pub found_in_cache : DownloadResult
found_in_cache = record {
  success = true;
  cached = true;
  from_peer = false;
  error = none;
  source_server_id = none;
}

-- after all servers were tried: the last three errors. An exception leaves `download_one`, and the
-- caller makes a failure of it.
unfoldable pub failover_result : Tried × Option PoolServer → Session × DownloadResult
unfolding join_texts drop_texts
failover_result (t, some v) = (t.session, succeeded_from v.id)
failover_result (t, none) = (
  t.session,
  failed_with (elim t.exception [
    | some exc ↦ exc
    | none ↦
        codes "All servers failed: "
        ++ join_texts (codes "; ") (drop_texts (length t.errors - 3) t.errors)
  ]),
)

abbrev after_attempts : ℕ → Text → Text
after_attempts max_retries reason =
    codes "After " ++ decimal max_retries ++ codes " attempts: " ++ reason

abbrev pub untried : Session → Tried
untried s = record { session = s; errors = []; done = false; exception = none }

module _ (describe : List ℕ → Text) (transfer : PoolServer → ℕ → Transfer)
    (elapsed : PoolServer → ℕ → ℕ) (transfer_url : Text → ℕ → Transfer)
    (max_retries max_per_server : ℕ) where
  -- the attempts at the single URL, with the last error or the exception
  unfoldable pub try_url : ℕ → ℕ → Text → Text → Option Text
  try_url zero attempt url last_error = some (after_attempts max_retries last_error)
  try_url (suc left) attempt url last_error = elim (transfer_url url attempt) [
    | Transfer.arrived f ↦ elim (is_valid_rpm describe f) [
      | none ↦ none
      | some reason ↦ some (after_attempts max_retries reason)
    ]
    | Transfer.failed e ↦
        if is_hard e
        then some (after_attempts max_retries (error_str e))
        else try_url left (suc attempt) url (error_str e)
    | Transfer.raised exc ↦ some exc
  ]

  -- an item with servers
  unfoldable pub download_from_servers : Session → DownloadItem → Session × DownloadResult
  unfolding failover_result
  download_from_servers s i =
      let servers = servers_for max_per_server s i in
      if is_empty servers
      then (s, failed_with (codes "All servers excluded by exclude_server_ids"))
      else failover_result (try_servers describe transfer elapsed max_retries servers (untried s))

  -- an item without
  unfoldable pub download_from_url : Session → DownloadItem → Session × DownloadResult
  unfolding try_url
  download_from_url s i =
      if is_empty i.url
      then (s, failed_with (codes "No download URL available"))
      else elim (try_url max_retries 0 i.url (codes "None")) [
        | none ↦ (register_cache none s, succeeded_from none)
        | some reason ↦ (s, failed_with reason)
      ]

  unfoldable pub download_one : Bool → Session → DownloadItem → Session × DownloadResult
  unfolding download_from_servers download_from_url
  download_one cached s i =
      if cached
      then (s, found_in_cache)
      else if uses_new_schema i
      then download_from_servers s i
      else download_from_url s i
