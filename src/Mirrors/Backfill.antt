-- ===== src/Mirrors/Backfill.antt =====
-- `backfill_server_countries` of urpm/core/mirrorlist.py.
pub mod Rows
pub mod Correct
use urpm_ng.Base.{
  All, All-map, Bool, Bool-cases, Dict, List, Option, Text, arith, contains, eqb, false, get,
  get-put, inl, inr, is_empty, keys, length, map, none, not, put, refl, select, some, true, ℕ, [],
  ◌∷◌, ◌+◌, ◌≡◌, ◌&&◌, ◌==◌, ==_iff, if◌then◌else◌, ap, ◌∙◌, sym, suc, ◌||◌,
}
use urpm_ng.Mirrors.Entries.{MirrorInfo}
use urpm_ng.Mirrors.Geo.{Geo, passes_geo_filter}
use urpm_ng.Mirrors.Servers.{
  Server, Servers, enable_server, enable_row, list_servers, set_country_row,
  set_server_country_by_id,
}

unfoldable pub enter_host : Dict MirrorInfo → MirrorInfo → Dict MirrorInfo
enter_host d m = if contains (keys d) m.host then d else put d m.host m

unfoldable pub host_to_mirror : Dict MirrorInfo → List MirrorInfo → Dict MirrorInfo
unfolding enter_host
host_to_mirror d [] = d
host_to_mirror d (m ∷ ms) = host_to_mirror (enter_host d m) ms

unfoldable pub lacks_country : Server → Bool
lacks_country s = elim s.country [ none ↦ true | some _ ↦ false ]

-- the table, and how many countries were set
abbrev pub Outcome : Type 0
Outcome = Servers × ℕ

unfoldable pub disable_blocked : Geo → Server → MirrorInfo → Servers → Servers
disable_blocked g s m t =
    if not (passes_geo_filter m g)
    then (if s.enabled then enable_server s.name false t else t)
    else t

unfoldable pub fill_from : Geo → Server → Option MirrorInfo → Outcome → Outcome
unfolding disable_blocked
fill_from g s none o = o
fill_from g s (some m) o =
    if is_empty m.country
    then o
    else (disable_blocked g s m (set_server_country_by_id s.id m.country o.0), suc o.1)

unfoldable pub fill_all : Geo → Dict MirrorInfo → List Server → Outcome → Outcome
unfolding fill_from
fill_all g mirrors [] o = o
fill_all g mirrors (s ∷ ss) o = fill_all g mirrors ss (fill_from g s (get mirrors s.host) o)

-- `none` is a failure to fetch the mirrors
unfoldable pub backfill_fetched : Geo → Option (List MirrorInfo) → List Server → Servers → Outcome
unfolding fill_all host_to_mirror
backfill_fetched g none need t = (t, 0)
backfill_fetched g (some mirrors) need t = fill_all g (host_to_mirror [] mirrors) need (t, 0)

unfoldable pub backfill_server_countries : Geo → Option (List MirrorInfo) → Servers → Outcome
unfolding backfill_fetched lacks_country
backfill_server_countries g fetched t =
    let need = select lacks_country (list_servers false t) in
    if is_empty need then (t, 0) else backfill_fetched g fetched need t
