-- ===== src/Resilient/Retry.antt =====
-- `retry_failed_downloads` of urpm/core/resilient_install.py: failed files are downloaded again,
-- each time from a server that did not serve a bad copy. `download_packages` is a parameter, which
-- may raise, and so is `pre_verify_signatures` on one file. What the code tells the table of servers
-- is a list of events. A result carries the item that it is for.
pub mod Safe
use urpm_ng.Base.{
  All, All-append, Bool, Dict, List, Option, none, some, Text, any, codes, contains, eqb, get,
  if◌then◌else◌, is_empty, length, lower, map, not, or_else, put, select, ltb, zero, suc, ℕ, [],
  ◌∷◌, ◌++◌, ◌==◌, ◌≡◌, ◌⊎◌, ◌≢◌, inl, inr, ◌||◌, ◌&&◌, true, false, arith, refl,
}
use urpm_ng.Resilient.Verify.{Category, FailedRpm, extract_name_from_path}

pub record Item : Type 0 where
  pub name : Text
  pub filename : Text
  pub exclude_server_ids : List ℕ

pub record DownloadResult : Type 0 where
  pub item : Item
  pub success : Bool
  pub path : Option Text
  pub error : Option Text
  pub source_server_id : Option ℕ

-- what is reported of a server
pub data ServerEvent : Type 0 where
  blacklisted : ℕ → Text → ServerEvent
  failed_server : ℕ → Text → ServerEvent

abbrev pub has_id : List ℕ → ℕ → Bool
has_id ids n = any (λ m. eqb m n) ids

-- `exclude_server_ids.append(bad_id)`, where it is not there
abbrev pub exclude_server : ℕ → Item → Item
exclude_server n i =
    if has_id i.exclude_server_ids n
    then i
    else record i { exclude_server_ids = i.exclude_server_ids ++ n ∷ [] }

-- what a round collects
pub record Round : Type 0 where
  pub recovered : List Text
  pub last_reasons : Dict Text
  pub next_round : List Item
  pub events : List ServerEvent

-- a bad copy from a server: a signature failure bans the server, another one counts against it
abbrev pub report : ℕ → Text → FailedRpm → ServerEvent
report n path f = elim f.category [
  | Category.signature ↦ ServerEvent.blacklisted n path
  | _ ↦ ServerEvent.failed_server n path
]

-- a text occurs in another
starts : Text → Text → Bool
starts [] s = true
starts (c ∷ p) [] = false
starts (c ∷ p) (d ∷ s) = eqb c d && starts p s

unfoldable pub occurs : Text → Text → Bool
unfolding starts
occurs p [] = is_empty p
occurs p (c ∷ s) = let rest = occurs p s in starts p (c ∷ s) || rest

-- `result.error or "download failed on retry"`
abbrev pub error_text : Option Text → Text
error_text none = codes "download failed on retry"
error_text (some e) = if is_empty e then codes "download failed on retry" else e

module _ (verify : Text → Option FailedRpm) where
  -- a file that was downloaded and is bad
  abbrev pub note_bad : Round → DownloadResult → Text → FailedRpm → Round
  note_bad s r path f =
      let s' = record s { last_reasons = put s.last_reasons r.item.name f.reason } in
      elim r.source_server_id [
        | none ↦ record s' { next_round = s.next_round ++ r.item ∷ [] }
        | some n ↦ record s' {
          next_round = s.next_round ++ (if eqb n 0 then r.item else exclude_server n r.item) ∷ [];
          events = s.events ++ report n path f ∷ [];
        }
      ]

  -- a file that was not downloaded
  unfoldable pub note_error : Round → DownloadResult → Round
  unfolding occurs
  note_error s r =
      let err = error_text r.error in
      let s' = record s { last_reasons = put s.last_reasons r.item.name err } in
      if occurs (codes "all servers excluded") (lower err)
      then s'
      else record s' { next_round = s.next_round ++ r.item ∷ [] }

  abbrev pub note_path : Round → DownloadResult → Text → Round
  note_path s r path = elim (verify path) [
    | none ↦ record s { recovered = s.recovered ++ path ∷ [] }
    | some f ↦ note_bad s r path f
  ]

  unfoldable pub note_result : Round → DownloadResult → Round
  unfolding note_error
  note_result s r = elim r.path [
    | none ↦ note_error s r
    | some path ↦ if r.success then note_path s r path else note_error s r
  ]

  unfoldable pub note_results : Round → List DownloadResult → Round
  unfolding note_result
  note_results s [] = s
  note_results s (r ∷ rs) = note_results (note_result s r) rs

-- what the loop ends with: an exception leaves at once
pub data RetryOutcome : Type 0 where
  raised : Round → Text → RetryOutcome
  finished : Round → RetryOutcome

module _ (verify : Text → Option FailedRpm)
    (download : ℕ → List Item → Text ⊎ List DownloadResult) where
  -- at most `max_retries` attempts; `attempt` numbers them
  unfoldable pub attempts : ℕ → ℕ → Round → RetryOutcome
  unfolding note_results
  attempts zero attempt s = RetryOutcome.finished s
  attempts (suc left) attempt s = elim s.next_round [
    | [] ↦ RetryOutcome.finished s
    | i ∷ is ↦ elim (download attempt (i ∷ is)) [
      | inl exc ↦ RetryOutcome.raised s exc
      | inr results ↦
          attempts left (suc attempt) (note_results verify (record s { next_round = [] }) results)
    ]
  ]

-- the items of the failed files, by file name or by package name
unfoldable pub retry_items : List Text → List Item → List Item
unfolding extract_name_from_path
retry_items failed_paths items =
    select
      (λ i.
        contains failed_paths i.filename
        || contains (map extract_name_from_path failed_paths) i.name)
      items

-- the server that served the first bad copy, where it is known
unfoldable pub exclude_source : Dict ℕ → Item → Item
exclude_source source_servers i = elim (get source_servers i.name) [
  | none ↦ i
  | some n ↦ exclude_server n i
]

-- the names that were not recovered, with the last reason
unfoldable pub still_failed : Round → List Item → List (Text × Text)
unfolding extract_name_from_path
still_failed s [] = []
still_failed s (i ∷ is) =
    let rest = still_failed s is in
    if contains (map extract_name_from_path s.recovered) i.name
    then rest
    else (i.name, or_else (get s.last_reasons i.name) (codes "max retries exhausted")) ∷ rest

abbrev pub report_outcome : List Item → RetryOutcome → List Text × List (Text × Text)
report_outcome items (RetryOutcome.raised s exc) =
    (s.recovered, map (λ i. (i.name, exc)) s.next_round)
report_outcome items (RetryOutcome.finished s) = (s.recovered, still_failed s items)

abbrev pub first_round : List Item → Round
first_round items = record { recovered = []; last_reasons = []; next_round = items; events = [] }

module _ (verify : Text → Option FailedRpm)
    (download : ℕ → List Item → Text ⊎ List DownloadResult) where
  unfoldable pub retry_loop : Dict ℕ → ℕ → List Item → RetryOutcome
  unfolding attempts exclude_source
  retry_loop source_servers max_retries items =
      attempts verify download max_retries 1
        (first_round (map (exclude_source source_servers) items))

  unfoldable pub retry_failed_downloads :
      List Text → List Item → Dict ℕ → ℕ → List Text × List (Text × Text)
  unfolding retry_items retry_loop
  retry_failed_downloads failed_paths download_items source_servers max_retries =
      let items = retry_items failed_paths download_items in
      if is_empty failed_paths
      then ([], [])
      else if is_empty items
      then (
        [],
        map (λ p. (extract_name_from_path p, codes "no download item found for retry"))
            failed_paths,
      )
      else report_outcome items (retry_loop source_servers max_retries items)
