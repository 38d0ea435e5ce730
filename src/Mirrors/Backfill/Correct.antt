-- ===== src/Mirrors/Backfill/Correct.antt =====
-- The rows of the server table before and after `backfill_server_countries`.
use mathlib.Core.List.{map-map}
use urpm_ng.Base.{
  All, All-map, Bool-cases, Dict, List, Option, arith, get, inl, inr, is_empty, map, none, refl,
  select, some, true, [], ◌∷◌, ◌≡◌, if◌then◌else◌, ap, ◌∙◌,
}
use urpm_ng.Mirrors.Entries.{MirrorInfo}
use urpm_ng.Mirrors.Geo.{Geo}
use urpm_ng.Mirrors.Servers.{Server, Servers, list_servers}
use urpm_ng.Mirrors.Backfill.{
  host_to_mirror, lacks_country, Outcome, fill_from, fill_all, backfill_fetched,
  backfill_server_countries,
}
use urpm_ng.Mirrors.Backfill.Rows.{
  first_on, first_of, get-host_to_mirror, fill_row, fill_server, are_apart, IsKeyed, are_apart-sym,
  step_row, map_same, map_agree, fill_from-step_row, step_row-apart, step_row_self,
}

module _ (g : Geo) where
  -- what the steps of the servers `ss` do to row `r`
  steps_row : Dict MirrorInfo → List Server → Server → Server
  steps_row d [] r = r
  steps_row d (s ∷ ss) r = steps_row d ss (step_row g s (get d s.host) r)

  fill_all-steps_row :
      (d : Dict MirrorInfo) (ss : List Server) (o : Outcome)
      → (fill_all g d ss o).0 ≡ map (steps_row d ss) o.0
  unfolding fill_all
  fill_all-steps_row d [] o =
      map_same g o.0 ∙ map_agree g (λ r. r) (steps_row d []) o.0 (λ r. unfold steps_row in refl)
  fill_all-steps_row d (s ∷ ss) o =
      fill_all-steps_row d ss (fill_from g s (get d s.host) o)
      ∙ ap (map (steps_row d ss)) (fill_from-step_row g s (get d s.host) o)
      ∙ map-map (steps_row d ss) (step_row g s (get d s.host)) o.0
      ∙ map_agree g (λ r. steps_row d ss (step_row g s (get d s.host) r)) (steps_row d (s ∷ ss)) o.0
          (λ r. unfold steps_row in refl)

  steps_row-apart :
      (d : Dict MirrorInfo) (ss : List Server) (r : Server)
      → All (λ s. are_apart s r ≡ true) ss
      → steps_row d (select lacks_country ss) r ≡ r
  unfolding steps_row
  steps_row-apart d [] r h = refl
  steps_row-apart d (s ∷ ss) r h = elim (Bool-cases (lacks_country s)) [
    | inl todo ↦ rw todo (
        ap (steps_row d (select lacks_country ss)) (step_row-apart g s (get d s.host) r h.0)
        ∙ steps_row-apart d ss r h.1)
    | inr done ↦ rw done (steps_row-apart d ss r h.1)
  ]

  are_apart-fill_row :
      (s r : Server) (found : Option MirrorInfo) → are_apart s (fill_row g found r) ≡ are_apart s r
  unfolding are_apart fill_row
  are_apart-fill_row s r none = refl
  are_apart-fill_row s r (some m) = ground arith

  -- the row that a server becomes
  filled : Dict MirrorInfo → Server → Server
  unfolding lacks_country
  filled d s = if lacks_country s then fill_row g (get d s.host) s else s

  All-apart_fill_row :
      (r : Server) (found : Option MirrorInfo) (ss : List Server)
      → All (λ s. are_apart r s ≡ true) ss
      → All (λ s. are_apart s (fill_row g found r) ≡ true) ss
  All-apart_fill_row r found ss h =
      All-map (λ s. are_apart r s ≡ true) (λ s. are_apart s (fill_row g found r) ≡ true)
        (λ s apart. are_apart-fill_row s r found ∙ are_apart-sym r s apart) ss h

  steps_row-first :
      (d : Dict MirrorInfo) (s : Server) (ss : List Server)
      → All (λ r. are_apart s r ≡ true) ss
      → steps_row d (select lacks_country (s ∷ ss)) s ≡ filled d s
  unfolding filled
  steps_row-first d s ss h = elim (Bool-cases (lacks_country s)) [
    | inl todo ↦ rw todo (
        unfold steps_row in
        ap (steps_row d (select lacks_country ss)) (step_row_self g s (get d s.host))
        ∙ steps_row-apart d ss (fill_row g (get d s.host) s)
            (All-apart_fill_row s (get d s.host) ss h))
    | inr done ↦ rw done (
        steps_row-apart d ss s
          (All-map (λ r. are_apart s r ≡ true) (λ r. are_apart r s ≡ true) (are_apart-sym s) ss h))
  ]

  steps_row-filled :
      (d : Dict MirrorInfo) (t : Servers)
      → IsKeyed t
      → All (λ r. steps_row d (select lacks_country t) r ≡ filled d r) t
  unfolding IsKeyed
  steps_row-filled d [] h = tt
  steps_row-filled d (s ∷ ss) h =
      (steps_row-first d s ss h.0, later ss h.0 (steps_row-filled d ss h.1))
    where
      later :
          (rs : Servers)
          → All (λ r. are_apart s r ≡ true) rs
          → All (λ r. steps_row d (select lacks_country ss) r ≡ filled d r) rs
          → All (λ r. steps_row d (select lacks_country (s ∷ ss)) r ≡ filled d r) rs
      later [] a f = tt
      later (r ∷ rs) a f = (one r a.0 ∙ f.0, later rs a.1 f.1)
        where
          one :
              (r : Server)
              → are_apart s r ≡ true
              → steps_row d (select lacks_country (s ∷ ss)) r
                ≡ steps_row d (select lacks_country ss) r
          one r apart = elim (Bool-cases (lacks_country s)) [
            | inl todo ↦ rw todo (
                unfold steps_row in
                ap (steps_row d (select lacks_country ss))
                  (step_row-apart g s (get d s.host) r apart))
            | inr done ↦ rw done refl
          ]

  map_pointwise : (f h : Server → Server) (t : Servers) → All (λ r. f r ≡ h r) t → map f t ≡ map h t
  map_pointwise f h [] e = refl
  map_pointwise f h (r ∷ t) e = ground (arith, e.0, map_pointwise f h t e.1)

  filled-fill_server :
      (mirrors : List MirrorInfo) (s : Server)
      → filled (host_to_mirror [] mirrors) s ≡ fill_server g mirrors s
  unfolding filled fill_server first_on first_of get
  filled-fill_server mirrors s =
      ap (λ found. if lacks_country s then fill_row g found s else s)
        (get-host_to_mirror [] mirrors s.host)

  fill_none :
      (mirrors : List MirrorInfo) (t : Servers)
      → is_empty (select lacks_country t) ≡ true
      → t ≡ map (fill_server g mirrors) t
  unfolding fill_server
  fill_none mirrors [] h = refl
  fill_none mirrors (s ∷ t) h = ground (arith, h, fill_none mirrors t)

  -- In a table of unique ids and names, every server without a country gets the country of the
  -- first mirror on its host, if the mirror names one, and stays enabled only if that mirror
  -- passes the filter; every other server is left as it is, and so is the whole table where the
  -- mirrors could not be fetched.
  pub backfill_server_countries_correct :
      (mirrors : List MirrorInfo) (t : Servers)
      → IsKeyed t
      → ((backfill_server_countries g (some mirrors) t).0 ≡ map (fill_server g mirrors) t)
        × (backfill_server_countries g none t ≡ (t, 0))
  unfolding backfill_server_countries backfill_fetched list_servers
  backfill_server_countries_correct mirrors t h =
      elim (Bool-cases (is_empty (select lacks_country t))) [
        | inl none_left ↦ rw none_left (fill_none mirrors t none_left, refl)
        | inr some_left ↦ rw some_left (
          fill_all-steps_row (host_to_mirror [] mirrors) (select lacks_country t) (t, 0)
              ∙ map_pointwise (steps_row (host_to_mirror [] mirrors) (select lacks_country t))
                  (filled (host_to_mirror [] mirrors)) t
                  (steps_row-filled (host_to_mirror [] mirrors) t h)
              ∙ map_agree g (filled (host_to_mirror [] mirrors)) (fill_server g mirrors) t
                  (filled-fill_server mirrors),
          refl,
        )
      ]
