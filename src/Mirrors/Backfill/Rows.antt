-- ===== src/Mirrors/Backfill/Rows.antt =====
-- One step of `backfill_server_countries` as a function of a row.
use mathlib.Core.List.{map-map}
use urpm_ng.Base.{
  All, Bool, Bool-cases, Dict, List, Option, Text, arith, contains, eqb, false, get, get-put, inl,
  inr, is_empty, keys, map, none, not, put, refl, some, true, [], ◌∷◌, ◌≡◌, ◌&&◌, ◌==◌, ==_iff,
  ==_refl, if◌then◌else◌, ap, ◌∙◌, sym,
}
use urpm_ng.Mirrors.Entries.{MirrorInfo}
use urpm_ng.Mirrors.Geo.{Geo, passes_geo_filter}
use urpm_ng.Mirrors.Servers.{
  Server, Servers, enable_server, enable_row, set_country_row, set_server_country_by_id,
}
use urpm_ng.Mirrors.Backfill.{
  enter_host, host_to_mirror, lacks_country, Outcome, disable_blocked, fill_from,
}

-- the first mirror on the host
unfoldable pub first_on : List MirrorInfo → Text → Option MirrorInfo
first_on [] host = none
first_on (m ∷ ms) host = if m.host == host then some m else first_on ms host

has_get : Option MirrorInfo → Bool
has_get none = false
has_get (some m) = true

contains-keys : (d : Dict MirrorInfo) (k : Text) → contains (keys d) k ≡ has_get (get d k)
unfolding contains get has_get
contains-keys [] k = refl
contains-keys ((j, m) ∷ d) k = ground (arith, contains-keys d k)

unfoldable pub first_of : Option MirrorInfo → Option MirrorInfo → Option MirrorInfo
first_of none o = o
first_of (some m) o = some m

pub get-host_to_mirror :
    (d : Dict MirrorInfo) (ms : List MirrorInfo) (host : Text)
    → get (host_to_mirror d ms) host ≡ first_of (get d host) (first_on ms host)
unfolding host_to_mirror enter_host first_on first_of has_get
get-host_to_mirror d [] host = ground arith
get-host_to_mirror d (m ∷ ms) host = ground (
  arith,
  get-host_to_mirror (if contains (keys d) m.host then d else put d m.host m) ms host,
  contains-keys d m.host,
  get-put d m.host host m,
  ==_iff m.host host,
)

-- the row of a server once its country is filled in from the mirror of its host
unfoldable pub fill_row : Geo → Option MirrorInfo → Server → Server
fill_row g none s = s
fill_row g (some m) s =
    if is_empty m.country
    then s
    else record s { country = some m.country; enabled = s.enabled && passes_geo_filter m g }

unfoldable pub fill_server : Geo → List MirrorInfo → Server → Server
unfolding fill_row lacks_country
fill_server g mirrors s = if lacks_country s then fill_row g (first_on mirrors s.host) s else s

-- two rows differ in id and name
unfoldable pub are_apart : Server → Server → Bool
are_apart s r = not (eqb s.id r.id) && not (s.name == r.name)

-- the ids and the names of a table are unique
unfoldable pub IsKeyed : Servers → Type 0
unfolding are_apart
IsKeyed [] = Unit
IsKeyed (s ∷ ss) = All (λ r. are_apart s r ≡ true) ss × IsKeyed ss

pub are_apart-sym : (s r : Server) → are_apart s r ≡ true → are_apart r s ≡ true
unfolding are_apart
are_apart-sym s r h = ground (arith, h, ==_iff s.name r.name, ==_iff r.name s.name)

module _ (g : Geo) where
  -- what the step of server `s` does to row `r`
  pub step_row : Server → Option MirrorInfo → Server → Server
  step_row s none r = r
  step_row s (some m) r =
      if is_empty m.country
      then r
      else if not (passes_geo_filter m g) && s.enabled
      then enable_row s.name false (set_country_row s.id m.country r)
      else set_country_row s.id m.country r

  pub map_same : (t : Servers) → t ≡ map (λ r. r) t
  map_same [] = refl
  map_same (r ∷ t) = ap (◌∷◌ r) (map_same t)

  pub map_agree :
      (f h : Server → Server) (t : Servers) → ((r : Server) → f r ≡ h r) → map f t ≡ map h t
  map_agree f h [] e = refl
  map_agree f h (r ∷ t) e = ground (arith, e r, map_agree f h t e)

  if_true {ℓ} : {A : Type ℓ} (b : Bool) (x y : A) → b ≡ true → (if b then x else y) ≡ x
  if_true b x y h = rw h refl

  if_false {ℓ} : {A : Type ℓ} (b : Bool) (x y : A) → b ≡ false → (if b then x else y) ≡ y
  if_false b x y h = rw h refl

  pub fill_from-step_row :
      (s : Server) (found : Option MirrorInfo) (o : Outcome)
      → (fill_from g s found o).0 ≡ map (step_row s found) o.0
  unfolding fill_from disable_blocked set_server_country_by_id enable_server
  fill_from-step_row s none o =
      map_same o.0 ∙ map_agree (λ r. r) (step_row s none) o.0 (λ r. unfold step_row in refl)
  fill_from-step_row s (some m) o = elim (Bool-cases (is_empty m.country)) [
    | inl empty ↦ rw empty (
        map_same o.0
        ∙ map_agree (λ r. r) (step_row s (some m)) o.0 (λ r. unfold step_row in rw empty refl))
    | inr full ↦ elim (Bool-cases (not (passes_geo_filter m g))) [
      | inl blocked ↦ elim (Bool-cases s.enabled) [
        | inl on ↦
            rw (full, blocked)
              (if_true s.enabled _ _ on
                ∙ map-map (enable_row s.name false) (set_country_row s.id m.country) o.0
                ∙ map_agree (λ r. enable_row s.name false (set_country_row s.id m.country r))
                    (step_row s (some m)) o.0
                    (λ r. unfold step_row in rw (full, blocked) (sym (if_true s.enabled _ _ on))))
        | inr off ↦
            rw (full, blocked)
              (if_false s.enabled _ _ off
                ∙ map_agree (set_country_row s.id m.country) (step_row s (some m)) o.0
                    (λ r. unfold step_row in rw (full, blocked) (sym (if_false s.enabled _ _ off))))
      ]
      | inr passes ↦
          rw (full, passes)
            (map_agree (set_country_row s.id m.country) (step_row s (some m)) o.0
              (λ r. unfold step_row in rw (full, passes) refl))
    ]
  ]

  pub step_row-apart :
      (s : Server) (found : Option MirrorInfo) (r : Server)
      → are_apart s r ≡ true
      → step_row s found r ≡ r
  unfolding step_row are_apart enable_row set_country_row
  step_row-apart s none r h = refl
  step_row-apart s (some m) r h = ground (arith, h, ==_iff r.name s.name, ==_iff s.name r.name)

  pub step_row_self :
      (s : Server) (found : Option MirrorInfo) → step_row s found s ≡ fill_row g found s
  unfolding step_row fill_row enable_row set_country_row
  step_row_self s none = refl
  step_row_self s (some m) = ground (arith, ==_refl s.name)
