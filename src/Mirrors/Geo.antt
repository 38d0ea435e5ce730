-- ===== src/Mirrors/Geo.antt =====
-- The geographic filter and `fetch_mirrors` of urpm/core/mirrorlist.py. What the server answers
-- is an argument; `none` is a network failure.
use urpm_ng.Base.{
  Bool, List, Option, Text, arith, contains, false, if◌then◌else◌, is_empty, none, not, refl,
  select, some, strip, true, [], ◌∷◌, ◌&&◌, ◌≡◌,
}
use urpm_ng.Mirrors.Entries.{MirrorInfo, parse_mirrorlist_content}

-- the `[server]` settings of the filter
pub record Geo : Type 0 where
  pub continent_whitelist : List Text
  pub continent_blacklist : List Text
  pub country_whitelist : List Text
  pub country_blacklist : List Text

unfoldable pub passes_country : MirrorInfo → Geo → Bool
passes_country m g =
    if not (is_empty g.country_whitelist)
    then (if not (contains g.country_whitelist m.country) then false else true)
    else if not (is_empty g.country_blacklist)
    then (if contains g.country_blacklist m.country then false else true)
    else true

unfoldable pub passes_geo_filter : MirrorInfo → Geo → Bool
unfolding passes_country
passes_geo_filter m g =
    let rest = passes_country m g in
    if not (is_empty g.continent_whitelist)
    then (if not (contains g.continent_whitelist m.continent) then false else rest)
    else if not (is_empty g.continent_blacklist)
    then (if contains g.continent_blacklist m.continent then false else rest)
    else rest

-- A whitelist, where there is one, decides alone; a blacklist decides where there is none.
unfoldable pub admits : List Text → List Text → Text → Bool
admits white black x = if is_empty white then not (contains black x) else contains white x

contains-is_empty :
    (black : List Text) (x : Text) → is_empty black ≡ true → contains black x ≡ false
unfolding contains
contains-is_empty [] x h = refl
contains-is_empty (b ∷ bs) x h = ground (arith, h)

-- A mirror passes exactly if its continent and its country are both admitted by their lists, and
-- a whitelist that is not empty overrides the blacklist.
pub passes_geo_filter_lem :
    (m : MirrorInfo) (g : Geo)
    → passes_geo_filter m g ≡ (
        admits g.continent_whitelist g.continent_blacklist m.continent
        && admits g.country_whitelist g.country_blacklist m.country)
unfolding passes_geo_filter passes_country admits
passes_geo_filter_lem m g = ground (
  arith,
  contains-is_empty g.continent_blacklist m.continent,
  contains-is_empty g.country_blacklist m.country,
)

unfoldable pub geo_filter : Geo → List MirrorInfo → List MirrorInfo
geo_filter g mirrors = select (λ m. passes_geo_filter m g) mirrors

-- `fetch_mirrors` on the text that the server sent
unfoldable pub fetch_mirrors : Geo → Bool → Option Text → Option (List MirrorInfo)
fetch_mirrors g apply none = none
fetch_mirrors g apply (some content) =
    let mirrors = parse_mirrorlist_content (strip content) in
    some (if apply then geo_filter g mirrors else mirrors)
