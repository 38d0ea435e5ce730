-- ===== src/Download/Slots.antt =====
-- The slots that `download_one` takes and gives back (urpm/core/download.py).
use urpm_ng.Base.{
  Bool, if_elim, codes, Bool-cases, List, Option, Option-cases, none, some, Text, is_empty, ℕ, zero,
  suc, [], ◌∷◌, ◌++◌, ◌≡◌, inl, inr, arith, refl, ◌∙◌, ap,
}
use urpm_ng.Download.Items.{
  Blob, DownloadItem, DownloadResult, PoolServer, error_str, is_hard, is_valid_rpm, uses_new_schema,
}
use urpm_ng.Download.Failover.{
  Session, Stat, Transfer, Tried, has_raised, free_slot, in_slot, labelled, note_stat, note_success,
  occupy, on_arrival, servers_for, truthy, try_server, try_servers, kbps_of,
}
use urpm_ng.Download.One.{
  download_one, download_from_servers, download_from_url, failover_result, try_url, untried,
}
use urpm_ng.Download.Served.{Transfer-cases}

note_stat-slots :
    (mk : ℕ → Stat) (id : Option ℕ) (s : Session)
    → (note_stat mk id s).server_active_slots ≡ s.server_active_slots
note_stat-slots mk none s = refl
note_stat-slots mk (some n) s = refl

note_success-slots :
    (id : Option ℕ) (f : Blob) (ms : ℕ) (s : Session)
    → (note_success id f ms s).server_active_slots ≡ s.server_active_slots
note_success-slots none f ms s = refl
note_success-slots (some n) f ms s = elim (Option-cases (kbps_of f ms)) [
  | inl unread ↦ ground arith
  | inr (kbps, reads) ↦ ground arith
]

module _ (describe : List ℕ → Text) (transfer : PoolServer → ℕ → Transfer)
    (elapsed : PoolServer → ℕ → ℕ) where
  try_server-slots :
      (left n : ℕ) (v : PoolServer) (t : Tried)
      → (try_server describe transfer elapsed left n v t).session.server_active_slots
        ≡ t.session.server_active_slots
  unfolding try_server on_arrival
  try_server-slots zero n v t = note_stat-slots Stat.failure (truthy v.id) t.session
  try_server-slots (suc left) n v t =
      let down = note_stat-slots Stat.failure (truthy v.id) t.session in
      elim (Transfer-cases (transfer v n)) [
        | inl (f, e) ↦
            (let up = note_success-slots (truthy v.id) f (elapsed v n) t.session in
              elim (Option-cases (is_valid_rpm describe f)) [
                | inl good ↦ ground arith
                | inr (reason, bad) ↦ ground arith
              ])
        | inr (inr (exc, raises)) ↦ ground arith
        | inr (inl (e, fails)) ↦
            (let next =
                try_server-slots left (suc n) v
                  (record t { errors = t.errors ++ labelled v (error_str e) ∷ [] }) in
              elim (Bool-cases (is_hard e)) [ inl hard ↦ ground arith | inr soft ↦ ground arith ])
      ]

  occupy-free :
      (id : Option ℕ) (s u : Session) (k : ℕ)
      → u.server_active_slots ≡ (occupy id s).server_active_slots
      → (free_slot id u).server_active_slots k ≡ s.server_active_slots k
  occupy-free none s u k e = ap (λ f. f k) e
  occupy-free (some n) s u k e =
      let at_k = ap (λ f. f k) e in let at_n = ap (λ f. f n) e in ground arith

  in_slot-slots :
      (max_retries : ℕ) (v : PoolServer) (t : Tried) (k : ℕ)
      → (in_slot describe transfer elapsed max_retries v t).session.server_active_slots k
        ≡ t.session.server_active_slots k
  unfolding in_slot
  in_slot-slots max_retries v t k =
      occupy-free (truthy v.id) t.session _ k
        (try_server-slots max_retries 0 v (record t { session = occupy (truthy v.id) t.session }))

  try_servers-slots :
      (max_retries : ℕ) (vs : List PoolServer) (t : Tried) (k : ℕ)
      → (try_servers describe transfer elapsed max_retries vs t).0.session.server_active_slots k
        ≡ t.session.server_active_slots k
  unfolding try_servers
  try_servers-slots max_retries [] t k = refl
  try_servers-slots max_retries (v ∷ vs) t k =
      let here = in_slot-slots max_retries v t k in
      let rest =
        try_servers-slots max_retries vs (in_slot describe transfer elapsed max_retries v t) k in
      elim (Bool-cases (in_slot describe transfer elapsed max_retries v t).done) [
        | inl sent ↦ ground arith
        | inr unsent ↦
            elim (Bool-cases (has_raised (in_slot describe transfer elapsed max_retries v t))) [
              | inl raised ↦ ground arith
              | inr quiet ↦ ground arith
            ]
      ]

failover_result-session : (x : Tried × Option PoolServer) → (failover_result x).0 ≡ (x.0).session
unfolding failover_result
failover_result-session (t, none) = refl
failover_result-session (t, some v) = refl

module _ (describe : List ℕ → Text) (transfer : PoolServer → ℕ → Transfer)
    (elapsed : PoolServer → ℕ → ℕ) (transfer_url : Text → ℕ → Transfer)
    (max_retries max_per_server : ℕ) where
  download_from_servers-slots :
      (s : Session) (i : DownloadItem) (k : ℕ)
      → (download_from_servers describe transfer elapsed transfer_url max_retries max_per_server s
            i).0.server_active_slots
          k
        ≡ s.server_active_slots k
  unfolding download_from_servers
  download_from_servers-slots s i k =
      let vs = servers_for max_per_server s i in
      let x = try_servers describe transfer elapsed max_retries vs (untried s) in
      if_elim
        (λ (y : Session × DownloadResult). (y.0).server_active_slots k ≡ s.server_active_slots k)
        (is_empty vs) _ (failover_result x) (λ e. refl)
        (λ e.
          ap (λ u. u.server_active_slots k) (failover_result-session x)
          ∙ try_servers-slots describe transfer elapsed max_retries vs (untried s) k)

  download_from_url-slots :
      (s : Session) (i : DownloadItem) (k : ℕ)
      → (download_from_url describe transfer elapsed transfer_url max_retries max_per_server s
            i).0.server_active_slots
          k
        ≡ s.server_active_slots k
  unfolding download_from_url
  download_from_url-slots s i k =
      if_elim
        (λ (y : Session × DownloadResult). (y.0).server_active_slots k ≡ s.server_active_slots k)
        (is_empty i.url) _ _ (λ e. refl)
        (λ e.
          elim (Option-cases (
            try_url describe transfer elapsed transfer_url max_retries max_per_server max_retries 0
              i.url (codes "None"))) [
                | inl arrives ↦ ground arith
                | inr (reason, fails) ↦ ground arith
              ])

  -- Whatever the transfers yield or raise, a download leaves the number of active slots of every server as
  -- it was, so that no slot is lost or freed twice.
  pub download_one-slots :
      (cached : Bool) (s : Session) (i : DownloadItem) (k : ℕ)
      → (download_one describe transfer elapsed transfer_url max_retries max_per_server cached s
            i).0.server_active_slots
          k
        ≡ s.server_active_slots k
  unfolding download_one
  download_one-slots cached s i k =
      if_elim
        (λ (y : Session × DownloadResult). (y.0).server_active_slots k ≡ s.server_active_slots k)
        cached _ _ (λ e. refl)
        (λ e.
          if_elim
            (λ (y : Session × DownloadResult).
              (y.0).server_active_slots k ≡ s.server_active_slots k)
            (uses_new_schema i) _ _ (λ e. download_from_servers-slots s i k)
            (λ e. download_from_url-slots s i k))
