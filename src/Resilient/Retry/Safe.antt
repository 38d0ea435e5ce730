-- ===== src/Resilient/Retry/Safe.antt =====
-- What `retry_failed_downloads` returns and reports (urpm/core/resilient_install.py).
use urpm_ng.Base.{
  All, All-append, Bool-cases, Dict, List, Option, Option-cases, none, some, Text, any, contains,
  is_empty, lower, codes, map, suc, zero, ℕ, [], ◌∷◌, ◌==◌, ◌≡◌, ◌≢◌, ◌⊎◌, inl, inr, ◌||◌, true,
  false, arith, refl, ==_iff,
}
use urpm_ng.Resilient.Verify.{Category, FailedRpm, extract_name_from_path}
use urpm_ng.Resilient.Retry.{
  DownloadResult, Item, RetryOutcome, Round, ServerEvent, attempts, error_text, first_round,
  note_bad, note_error, note_path, note_result, note_results, occurs, report, report_outcome,
  retry_failed_downloads, retry_items, retry_loop, still_failed, exclude_source,
}

abbrev pub last_of : RetryOutcome → Round
last_of (RetryOutcome.raised s exc) = s
last_of (RetryOutcome.finished s) = s

module _ (verify : Text → Option FailedRpm) where
  -- an event has a cause: a bad copy, and a signature failure for a ban
  abbrev pub IsCaused : ServerEvent → Type 0
  IsCaused (ServerEvent.blacklisted n path) =
      (f : FailedRpm) × (verify path ≡ some f) × (f.category ≡ Category.signature)
  IsCaused (ServerEvent.failed_server n path) =
      (f : FailedRpm) × (verify path ≡ some f) × (f.category ≢ Category.signature)

  pub record IsSafe (s : Round) : Type 0 where
    pub good : All (λ p. verify p ≡ none) s.recovered
    pub fair : All IsCaused s.events

  report-IsCaused :
      (n : ℕ) (path : Text) (f : FailedRpm) → verify path ≡ some f → IsCaused (report n path f)
  report-IsCaused n path f e = cause f.category refl
    where
      cause :
          (c : Category)
          → f.category ≡ c
          → IsCaused (elim c as (λ _. ServerEvent) [
            | Category.signature ↦ ServerEvent.blacklisted n path
            | _ ↦ ServerEvent.failed_server n path
          ])
      cause Category.signature h = (f, e, h)
      cause Category.preflight h = (f, e, λ bad. cc)
      cause Category.structural h = (f, e, λ bad. cc)

  note_error-IsSafe : (s : Round) (r : DownloadResult) → IsSafe s → IsSafe (note_error verify s r)
  unfolding note_error
  note_error-IsSafe s r h =
      elim (Bool-cases (occurs (codes "all servers excluded") (lower (error_text r.error)))) [
        | inl e ↦ rw e (record { good = h.good; fair = h.fair })
        | inr e ↦ rw e (record { good = h.good; fair = h.fair })
      ]

  note_bad-IsSafe :
      (s : Round) (r : DownloadResult) (path : Text) (f : FailedRpm)
      → verify path ≡ some f
      → IsSafe s
      → IsSafe (note_bad verify s r path f)
  note_bad-IsSafe s r path f e h = by_server r.source_server_id
    where
      by_server :
          (n : Option ℕ) → IsSafe (note_bad verify s (record r { source_server_id = n }) path f)
      by_server none = record { good = h.good; fair = h.fair }
      by_server (some n) = record {
        good = h.good;
        fair = All-append IsCaused s.events _ h.fair (report-IsCaused n path f e, tt);
      }

  note_path-IsSafe :
      (s : Round) (r : DownloadResult) (path : Text) → IsSafe s → IsSafe (note_path verify s r path)
  note_path-IsSafe s r path h = elim (Option-cases (verify path)) [
    | inl e ↦
        rw (note_path, e)
          (record {
            good = All-append (λ p. verify p ≡ none) s.recovered (path ∷ []) h.good (e, tt);
            fair = h.fair;
          })
    | inr (f, e) ↦ rw (note_path, e) (note_bad-IsSafe s r path f e h)
  ]

  note_result-IsSafe : (s : Round) (r : DownloadResult) → IsSafe s → IsSafe (note_result verify s r)
  unfolding note_result
  note_result-IsSafe s r h = by_path r.path
    where
      by_path : (p : Option Text) → IsSafe (note_result verify s (record r { path = p }))
      by_path none = note_error-IsSafe s (record r { path = none }) h
      by_path (some p) = elim (Bool-cases r.success) [
        | inl e ↦ rw e (note_path-IsSafe s (record r { path = some p }) p h)
        | inr e ↦ rw e (note_error-IsSafe s (record r { path = some p }) h)
      ]

  note_results-IsSafe :
      (s : Round) (rs : List DownloadResult) → IsSafe s → IsSafe (note_results verify s rs)
  unfolding note_results
  note_results-IsSafe s [] h = h
  note_results-IsSafe s (r ∷ rs) h =
      note_results-IsSafe (note_result verify s r) rs (note_result-IsSafe s r h)

module _ (verify : Text → Option FailedRpm)
    (download : ℕ → List Item → Text ⊎ List DownloadResult) where
  -- one attempt, with the others as `next`
  attempt-IsSafe :
      (left attempt : ℕ) (s : Round) (items : List Item) (a : Text ⊎ List DownloadResult)
      → download attempt items ≡ a
      → IsSafe verify s
      → ((t : Round)
          → IsSafe verify t
          → IsSafe verify (last_of (attempts verify download left (suc attempt) t)))
      → IsSafe verify
          (last_of (attempts verify download (suc left) attempt (record s { next_round = items })))
  unfolding attempts
  attempt-IsSafe left attempt s [] a e h next = record { good = h.good; fair = h.fair }
  attempt-IsSafe left attempt s (i ∷ is) (inl exc) e h next =
      rw (attempts, e) (record { good = h.good; fair = h.fair })
  attempt-IsSafe left attempt s (i ∷ is) (inr results) e h next =
      rw (attempts, e)
        (next (note_results verify (record s { next_round = [] }) results) (
          note_results-IsSafe verify (record s { next_round = [] }) results
            (record { good = h.good; fair = h.fair })))

  attempts-IsSafe :
      (left attempt : ℕ) (s : Round)
      → IsSafe verify s
      → IsSafe verify (last_of (attempts verify download left attempt s))
  unfolding attempts
  attempts-IsSafe zero attempt s h = h
  attempts-IsSafe (suc left) attempt s h =
      attempt-IsSafe left attempt s s.next_round (download attempt s.next_round) refl h
        (attempts-IsSafe left (suc attempt))

  report_outcome-recovered :
      (items : List Item) (o : RetryOutcome) → (report_outcome items o).0 ≡ (last_of o).recovered
  report_outcome-recovered items (RetryOutcome.raised s exc) = refl
  report_outcome-recovered items (RetryOutcome.finished s) = refl

  -- Whatever the servers answer and wherever a download raises: every file that is returned as
  -- recovered passes the verification; and the loop bans a server only for a file whose
  -- signature failed, and counts a failure against one only for a file that failed otherwise.
  pub retry_failed_downloads_safe :
      (failed_paths : List Text) (items : List Item) (source_servers : Dict ℕ) (max_retries : ℕ)
      → All
          (λ p. verify p ≡ none)
          (retry_failed_downloads verify download failed_paths items source_servers max_retries).0
        × All
            (IsCaused verify)
            (last_of (
              retry_loop verify download source_servers max_retries
                (retry_items failed_paths items))).events
  unfolding retry_failed_downloads retry_loop
  retry_failed_downloads_safe failed_paths items source_servers max_retries =
      let chosen = retry_items failed_paths items in
      let o = retry_loop verify download source_servers max_retries chosen in
      let safe : IsSafe verify (last_of o) =
        attempts-IsSafe max_retries 1 (first_round (map (exclude_source source_servers) chosen))
          (record { good = tt; fair = tt }) in
      (
        elim (Bool-cases (is_empty failed_paths)) [
          | inl e ↦ rw (retry_failed_downloads, e) tt
          | inr e ↦ elim (Bool-cases (is_empty chosen)) [
            | inl e' ↦ rw (retry_failed_downloads, e, e') tt
            | inr e' ↦
                rw (retry_failed_downloads, e, e', report_outcome-recovered chosen o) safe.good
          ]
        ],
        safe.fair,
      )

  -- the item is recovered, or reported as failed
  abbrev pub IsReported : List Text × List (Text × Text) → Item → Type 0
  IsReported r i =
      (contains (map extract_name_from_path r.0) i.name
        || contains (map (λ (e : Text × Text). e.0) r.1) i.name)
      ≡ true

  still_failed-IsReported :
      (s : Round) (items : List Item) (i : Item)
      → any (λ (j : Item). j.name == i.name) items ≡ true
      → IsReported (s.recovered, still_failed s items) i
  unfolding still_failed contains
  still_failed-IsReported s [] i h = cc
  still_failed-IsReported s (j ∷ items) i h = elim (Bool-cases (j.name == i.name)) [
    | inl e ↦ elim (Bool-cases (contains (map extract_name_from_path s.recovered) j.name)) [
      | inl old ↦
          let here : contains (map extract_name_from_path s.recovered) i.name ≡ true =
            rw ((==_iff j.name i.name).0 e) at old in
          ground arith
      | inr new ↦ ground (arith, new, e)
    ]
    | inr ne ↦ ground (arith, still_failed-IsReported s items i (ground arith))
  ]

  attempt-finished :
      (left attempt : ℕ) (s : Round) (items : List Item) (rs : List DownloadResult)
      → download attempt items ≡ inr rs
      → ((t : Round)
          → (last : Round) × (attempts verify download left (suc attempt) t
              ≡ RetryOutcome.finished last))
      → (last : Round) × (attempts verify download
            (suc left)
            attempt
            (record s { next_round = items })
          ≡ RetryOutcome.finished last)
  unfolding attempts
  attempt-finished left attempt s [] rs e next = (record s { next_round = [] }, refl)
  attempt-finished left attempt s (i ∷ is) rs e next =
      let n = next (note_results verify (record s { next_round = [] }) rs) in
      (n.0, rw (attempts, e) n.1)

  module _
      (answers : (n : ℕ) (items : List Item)
        → (rs : List DownloadResult) × (download n items ≡ inr rs)) where
    attempts-finished :
        (left attempt : ℕ) (s : Round)
        → (last : Round) × (attempts verify download left attempt s ≡ RetryOutcome.finished last)
    unfolding attempts
    attempts-finished zero attempt s = (s, refl)
    attempts-finished (suc left) attempt s =
        let a = answers attempt s.next_round in
        attempt-finished left attempt s s.next_round a.0 a.1 (attempts-finished left (suc attempt))

    -- Where no download raises, every name of an item that is tried again is the name of a file that
    -- is recovered, or is reported as failed. Of two items of one name, the one that fails may count
    -- as recovered through the other.
    pub retry_failed_downloads-IsReported :
        (failed_paths : List Text) (items : List Item) (source_servers : Dict ℕ) (max_retries : ℕ)
        (i : Item)
        → is_empty failed_paths ≡ false
        → any (λ (j : Item). j.name == i.name) (retry_items failed_paths items) ≡ true
        → IsReported
            (retry_failed_downloads verify download failed_paths items source_servers max_retries)
            i
    unfolding retry_failed_downloads retry_loop
    retry_failed_downloads-IsReported failed_paths items source_servers max_retries i full h =
        let chosen = retry_items failed_paths items in
        let f =
          attempts-finished max_retries 1
            (first_round (map (exclude_source source_servers) chosen)) in
        rw (retry_failed_downloads, full, some_item chosen h, retry_loop, f.1)
          (still_failed-IsReported f.0 chosen i h)
      where
        some_item :
            (xs : List Item) → any (λ (j : Item). j.name == i.name) xs ≡ true → is_empty xs ≡ false
        some_item [] e = cc
        some_item (x ∷ xs) e = refl
