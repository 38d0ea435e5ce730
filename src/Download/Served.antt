-- ===== src/Download/Served.antt =====
-- Which server `download_one` gets a file from (urpm/core/download.py).
use urpm_ng.Base.{
  All, Bool, if_elim, Bool-cases, List, Option, none, some, Text, ℕ, zero, suc, [], ◌∷◌, ◌++◌, ◌≡◌,
  ◌⊎◌, Option-cases, inl, inr, true, false, arith, refl, sym, ◌∙◌, ap,
}
use urpm_ng.Download.Items.{Blob, DownloadError, PoolServer, error_str, is_hard, is_valid_rpm}
use urpm_ng.Download.Failover.{
  Transfer, Tried, has_raised, in_slot, labelled, on_arrival, try_server, try_servers,
}

pub Transfer-cases :
    (x : Transfer)
    → ((f : Blob) × (x ≡ Transfer.arrived f))
      ⊎ ((e : Option DownloadError) × (x ≡ Transfer.failed e))
      ⊎ ((exc : Text) × (x ≡ Transfer.raised exc))
Transfer-cases (Transfer.arrived f) = inl (f, refl)
Transfer-cases (Transfer.failed e) = inr (inl (e, refl))
Transfer-cases (Transfer.raised exc) = inr (inr (exc, refl))

module _ (describe : List ℕ → Text) (transfer : PoolServer → ℕ → Transfer)
    (elapsed : PoolServer → ℕ → ℕ) where
  -- an attempt brings a valid file
  abbrev pub IsGood : PoolServer → ℕ → Type 0
  IsGood v n = (f : Blob) × (transfer v n ≡ Transfer.arrived f) × (is_valid_rpm describe f ≡ none)

  -- an attempt that may be repeated
  abbrev pub IsTransient : PoolServer → ℕ → Type 0
  IsTransient v n =
      (e : Option DownloadError) × (transfer v n ≡ Transfer.failed e) × (is_hard e ≡ false)

  -- a server has a valid file at one of the next attempts, and only transient errors before
  abbrev pub Delivers : ℕ → ℕ → PoolServer → Type 0
  Delivers zero n v = ⊥
  Delivers (suc left) n v = IsGood v n ⊎ (IsTransient v n × Delivers left (suc n) v)

  -- after a transient error the next attempt follows
  try_server_again :
      (left n : ℕ) (v : PoolServer) (t : Tried) (e : Option DownloadError)
      → transfer v n ≡ Transfer.failed e
      → is_hard e ≡ false
      → try_server describe transfer elapsed (suc left) n v t
        ≡ try_server describe transfer elapsed left
            (suc n)
            v
            (record t { errors = t.errors ++ labelled v (error_str e) ∷ [] })
  unfolding try_server
  try_server_again left n v t e fails soft = rw (try_server, fails, soft) refl

  try_server-Delivers :
      (left n : ℕ) (v : PoolServer) (t : Tried)
      → t.done ≡ false
      → (try_server describe transfer elapsed left n v t).done ≡ true
      → Delivers left n v
  unfolding try_server on_arrival
  try_server-Delivers zero n v t fresh h = absurd (ground arith)
  try_server-Delivers (suc left) n v t fresh h = elim (Transfer-cases (transfer v n)) [
    | inl (f, e) ↦ elim (Option-cases (is_valid_rpm describe f)) [
      | inl good ↦ inl (f, e, good)
      | inr (reason, bad) ↦ absurd (ground arith)
    ]
    | inr (inr (exc, raises)) ↦ absurd (ground arith)
    | inr (inl (e, fails)) ↦ elim (Bool-cases (is_hard e)) [
      | inl hard ↦ absurd (ground arith)
      | inr soft ↦
          (let again = try_server_again left n v t e fails soft in
            inr (
              (e, fails, soft),
              try_server-Delivers left (suc n) v _ fresh (sym (ap (λ u. u.done) again) ∙ h),
            ))
    ]
  ]

  Delivers-try_server :
      (left n : ℕ) (v : PoolServer) (t : Tried)
      → Delivers left n v
      → (try_server describe transfer elapsed left n v t).done ≡ true
  unfolding try_server on_arrival
  Delivers-try_server zero n v t d = absurd d
  Delivers-try_server (suc left) n v t (inl (f, arrives, good)) = ground arith
  Delivers-try_server (suc left) n v t (inr ((e, fails, soft), later)) =
      ap (λ u. u.done) (try_server_again left n v t e fails soft)
      ∙ Delivers-try_server left (suc n) v _ later

  -- one of the next attempts at a server raises, with only transient errors before
  abbrev pub Raises : ℕ → ℕ → PoolServer → Type 0
  Raises zero n v = ⊥
  Raises (suc left) n v =
      ((exc : Text) × (transfer v n ≡ Transfer.raised exc))
      ⊎ (IsTransient v n × Raises left (suc n) v)

  try_server-Raises :
      (left n : ℕ) (v : PoolServer) (t : Tried)
      → t.exception ≡ none
      → has_raised (try_server describe transfer elapsed left n v t) ≡ true
      → Raises left n v
  unfolding try_server on_arrival
  try_server-Raises zero n v t fresh h = absurd (ground arith)
  try_server-Raises (suc left) n v t fresh h = elim (Transfer-cases (transfer v n)) [
    | inl (f, e) ↦ elim (Option-cases (is_valid_rpm describe f)) [
      | inl good ↦ absurd (ground arith)
      | inr (reason, bad) ↦ absurd (ground arith)
    ]
    | inr (inr (exc, raises)) ↦ inl (exc, raises)
    | inr (inl (e, fails)) ↦ elim (Bool-cases (is_hard e)) [
      | inl hard ↦ absurd (ground arith)
      | inr soft ↦
          (let again = try_server_again left n v t e fails soft in
            inr (
              (e, fails, soft),
              try_server-Raises left (suc n) v _ fresh (sym (ap has_raised again) ∙ h),
            ))
    ]
  ]

  Raises-try_server :
      (left n : ℕ) (v : PoolServer) (t : Tried)
      → Raises left n v
      → has_raised (try_server describe transfer elapsed left n v t) ≡ true
  unfolding try_server on_arrival
  Raises-try_server zero n v t d = absurd d
  Raises-try_server (suc left) n v t (inl (exc, raises)) = ground arith
  Raises-try_server (suc left) n v t (inr ((e, fails, soft), later)) =
      ap has_raised (try_server_again left n v t e fails soft)
      ∙ Raises-try_server left (suc n) v _ later

  -- no attempt at a server brings a valid file, and none raises
  abbrev pub Fails : ℕ → PoolServer → Type 0
  Fails max_retries v = (¬ Delivers max_retries 0 v) × (¬ Raises max_retries 0 v)

  -- the first of the servers that does not fail has a valid file
  abbrev pub IsFirst : ℕ → List PoolServer → PoolServer → Type 0
  IsFirst max_retries [] w = ⊥
  IsFirst max_retries (v ∷ vs) w =
      ((v ≡ w) × Delivers max_retries 0 v) ⊎ (Fails max_retries v × IsFirst max_retries vs w)

  -- the first of them that does not fail raises
  abbrev pub IsStopped : ℕ → List PoolServer → Type 0
  IsStopped max_retries [] = ⊥
  IsStopped max_retries (v ∷ vs) =
      Raises max_retries 0 v ⊎ (Fails max_retries v × IsStopped max_retries vs)

  -- all fail
  abbrev pub NoneDelivers : ℕ → List PoolServer → Type 0
  NoneDelivers max_retries vs = All (Fails max_retries) vs

  abbrev pub Served : ℕ → List PoolServer → Tried × Option PoolServer → Type 0
  Served max_retries vs (t, none) = NoneDelivers max_retries vs ⊎ IsStopped max_retries vs
  Served max_retries vs (t, some w) = IsFirst max_retries vs w

  Served-later :
      (max_retries : ℕ) (v : PoolServer) (vs : List PoolServer) (r : Tried × Option PoolServer)
      → Fails max_retries v
      → Served max_retries vs r
      → Served max_retries (v ∷ vs) r
  Served-later max_retries v vs (t, none) fails (inl all) = inl (fails, all)
  Served-later max_retries v vs (t, none) fails (inr stopped) = inr (inr (fails, stopped))
  Served-later max_retries v vs (t, some w) fails rest = inr (fails, rest)

  in_slot-Delivers :
      (max_retries : ℕ) (v : PoolServer) (t : Tried)
      → t.done ≡ false
      → (in_slot describe transfer elapsed max_retries v t).done ≡ true
      → Delivers max_retries 0 v
  unfolding in_slot
  in_slot-Delivers max_retries v t fresh h = try_server-Delivers max_retries 0 v _ fresh h

  Delivers-in_slot :
      (max_retries : ℕ) (v : PoolServer) (t : Tried)
      → Delivers max_retries 0 v
      → (in_slot describe transfer elapsed max_retries v t).done ≡ true
  unfolding in_slot
  Delivers-in_slot max_retries v t d = Delivers-try_server max_retries 0 v _ d

  in_slot-Raises :
      (max_retries : ℕ) (v : PoolServer) (t : Tried)
      → t.exception ≡ none
      → has_raised (in_slot describe transfer elapsed max_retries v t) ≡ true
      → Raises max_retries 0 v
  unfolding in_slot
  in_slot-Raises max_retries v t fresh h = try_server-Raises max_retries 0 v _ fresh h

  Raises-in_slot :
      (max_retries : ℕ) (v : PoolServer) (t : Tried)
      → Raises max_retries 0 v
      → has_raised (in_slot describe transfer elapsed max_retries v t) ≡ true
  unfolding in_slot
  Raises-in_slot max_retries v t d = Raises-try_server max_retries 0 v _ d

  raised-none : (t : Tried) → has_raised t ≡ false → t.exception ≡ none
  raised-none t h = elim (Option-cases t.exception) [
    | inl e ↦ e
    | inr (exc, e) ↦ absurd (ground arith)
  ]

  pub try_servers-Served :
      (max_retries : ℕ) (vs : List PoolServer) (t : Tried)
      → t.done ≡ false
      → t.exception ≡ none
      → Served max_retries vs (try_servers describe transfer elapsed max_retries vs t)
  unfolding try_servers
  try_servers-Served max_retries [] t fresh calm = inl tt
  try_servers-Served max_retries (v ∷ vs) t fresh calm =
      let t' = in_slot describe transfer elapsed max_retries v t in
      if_elim (Served max_retries (v ∷ vs)) t'.done _ _
        (λ sent. inl (refl, in_slot-Delivers max_retries v t fresh sent))
        (λ unsent.
          if_elim (Served max_retries (v ∷ vs)) (has_raised t') _ _
            (λ raised. inr (inl (in_slot-Raises max_retries v t calm raised)))
            (λ quiet.
              Served-later max_retries v vs
                (try_servers describe transfer elapsed max_retries vs t')
                (
                  (λ d. absurd (let sent = Delivers-in_slot max_retries v t d in ground arith)),
                  (λ d. absurd (let sent = Raises-in_slot max_retries v t d in ground arith)),
                )
                (try_servers-Served max_retries vs
                  (in_slot describe transfer elapsed max_retries v t) unsent
                  (raised-none (in_slot describe transfer elapsed max_retries v t) quiet))))

  pub IsFirst-All :
      (max_retries : ℕ) (p : PoolServer → Bool) (vs : List PoolServer) (w : PoolServer)
      → All (λ v. p v ≡ true) vs
      → IsFirst max_retries vs w
      → p w ≡ true
  IsFirst-All max_retries p [] w all f = absurd f
  IsFirst-All max_retries p (v ∷ vs) w (here, there) (inl (e, d)) = sym (ap p e) ∙ here
  IsFirst-All max_retries p (v ∷ vs) w (here, there) (inr (d, f)) =
      IsFirst-All max_retries p vs w there f
