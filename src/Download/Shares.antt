-- ===== src/Download/Shares.antt =====
-- The servers among which `_plan_server_assignments` divides the items (urpm/core/download.py).
use urpm_ng.Base.{
  All, All-map, Bool-cases, List, Option, Option-cases, none, some, any, any-append, eqb, if_elim,
  ltb, ℕ, [], ◌∷◌, ◌||◌, ◌≡◌, inl, inr, true, false, arith, refl, sym, ap, ◌∙◌,
}
use urpm_ng.Download.Items.{DownloadItem, PoolServer}
use urpm_ng.Download.Plan.{
  Share, add_share, add_servers, has_server, has_sid, insert_share, sort_shares, speed_map,
  speed_of,
}

-- every server of an item has a share
abbrev pub Covers : List Share → DownloadItem → Type 0
Covers ss i = (n : ℕ) → has_server i n ≡ true → has_sid ss n ≡ true

insert_share-sids :
    (s : Share) (ss : List Share) (n : ℕ) → has_sid (insert_share s ss) n ≡ has_sid (s ∷ ss) n
insert_share-sids s [] n = refl
insert_share-sids s (t ∷ ts) n =
    let rest = insert_share-sids s ts n in
    if_elim (λ xs. has_sid xs n ≡ has_sid (s ∷ t ∷ ts) n) (ltb s.kbps t.kbps)
      (t ∷ insert_share s ts) (s ∷ t ∷ ts) (λ e. ground arith) (λ e. refl)

sort_shares-sids : (ss : List Share) (n : ℕ) → has_sid (sort_shares ss) n ≡ has_sid ss n
sort_shares-sids [] n = refl
sort_shares-sids (s ∷ ss) n =
    let rest = sort_shares-sids ss n in
    let here = insert_share-sids s (sort_shares ss) n in ground arith

module _ (server_speeds : ℕ → Option ℕ) where
  add_share-sids :
      (ss : List Share) (v : PoolServer) (n : ℕ)
      → has_sid (add_share server_speeds ss v) n
        ≡ (has_sid ss n || elim v.id [ none ↦ false | some m ↦ eqb m n ])
  add_share-sids ss v n = elim (Option-cases v.id) [
    | inl unknown ↦ ground arith
    | inr (m, known) ↦ elim (Bool-cases (has_sid ss m)) [
      | inl old ↦
          (let same : m ≡ n → has_sid ss n ≡ true = λ e. sym (ap (has_sid ss) e) ∙ old in
            ground arith)
      | inr new ↦
          (let added =
              any-append (λ s. eqb s.sid n) ss
                (record { sid = m; kbps = speed_of server_speeds m v.bandwidth_kbps; given = 0 }
                  ∷ []) in
            ground arith)
    ]
  ]

  add_servers-sids :
      (ss : List Share) (vs : List PoolServer) (n : ℕ)
      → has_sid (add_servers server_speeds ss vs) n
        ≡ (has_sid ss n || any (λ v. elim v.id [ none ↦ false | some m ↦ eqb m n ]) vs)
  add_servers-sids ss [] n = ground arith
  add_servers-sids ss (v ∷ vs) n =
      let rest = add_servers-sids (add_share server_speeds ss v) vs n in
      let here = add_share-sids ss v n in ground arith

  speed_map-grows :
      (ss : List Share) (is : List DownloadItem) (n : ℕ)
      → has_sid ss n ≡ true
      → has_sid (speed_map server_speeds ss is) n ≡ true
  speed_map-grows ss [] n h = h
  speed_map-grows ss (i ∷ is) n h =
      speed_map-grows (add_servers server_speeds ss i.servers) is n
        (let here = add_servers-sids ss i.servers n in ground arith)

  speed_map-Covers :
      (ss : List Share) (is : List DownloadItem) → All (Covers (speed_map server_speeds ss is)) is
  speed_map-Covers ss [] = tt
  speed_map-Covers ss (i ∷ is) = (
    λ n has.
        speed_map-grows (add_servers server_speeds ss i.servers) is n
          (let here = add_servers-sids ss i.servers n in ground arith),
    speed_map-Covers (add_servers server_speeds ss i.servers) is,
  )

  pub sorted-Covers :
      (is : List DownloadItem) → All (Covers (sort_shares (speed_map server_speeds [] is))) is
  sorted-Covers is =
      All-map _ _ (λ i h n has. sort_shares-sids (speed_map server_speeds [] is) n ∙ h n has) is
        (speed_map-Covers [] is)
