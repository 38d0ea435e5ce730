-- ===== src/Mirrors/Tests.antt =====
-- Concrete mirror lists and server tables for the theorems of the mirror list and the server pool.
use urpm_ng.Base.{
  List, Text, codes, inl, inr, map, none, refl, some, true, [], ◌∷◌, ◌+◌, ◌-◌, ◌*◌, ◌≡◌, ◌==◌,
}
use urpm_ng.Mirrors.Entries.{MirrorInfo, IsWeb}
use urpm_ng.Mirrors.Geo.{Geo}
use urpm_ng.Mirrors.Dedup.{Key, dedup_mirrors}
use urpm_ng.Mirrors.Dedup.Correct.{has_https, has_https-dedup_mirrors}
use urpm_ng.Mirrors.Servers.{Server, Servers}
use urpm_ng.Mirrors.Backfill.{backfill_server_countries}
use urpm_ng.Mirrors.Backfill.Rows.{fill_server, IsKeyed, are_apart}
use urpm_ng.Mirrors.Backfill.Correct.{backfill_server_countries_correct}
use urpm_ng.Mirrors.Pool.Candidates.{AreFresh, fetch_and_filter, fetch_and_filter_lem}
use urpm_ng.Mirrors.Pool.Locations.{Place}
use urpm_ng.Mirrors.Pool.Ratio.{PoolRatio, minimum_servers_for}
use urpm_ng.Mirrors.Pool.Ensure.{
  Pool, Surroundings, backfilled, official_count, ensure_minimum_servers,
}
use urpm_ng.Mirrors.Pool.Ensure.Correct.{IsModest, ensure_minimum_servers_lem}

abbrev plain_mirror : MirrorInfo
plain_mirror = record {
  url = codes "http://a.org/pub/9/x86_64";
  scheme = codes "http";
  host = codes "a.org";
  base_path = codes "/pub/9/x86_64";
  continent = codes "EU";
  country = codes "FR";
  city = [];
}

abbrev secure_mirror : MirrorInfo
secure_mirror = record plain_mirror {
  url = codes "https://a.org/pub/9/x86_64";
  scheme = codes "https";
}

abbrev american_mirror : MirrorInfo
american_mirror = record secure_mirror {
  host = codes "b.org";
  continent = codes "NA";
  country = codes "US";
}

abbrev all_mirrors : List MirrorInfo
all_mirrors = plain_mirror ∷ american_mirror ∷ secure_mirror ∷ []

-- Europe only, without Germany
abbrev europe : Geo
europe = record {
  continent_whitelist = codes "EU" ∷ [];
  continent_blacklist = [];
  country_whitelist = [];
  country_blacklist = codes "DE" ∷ [];
}

abbrev the_suffix : Text
the_suffix = codes "/9/x86_64"

abbrev a_key : Key
a_key = (codes "a.org", codes "/pub")

has_https-dedup_mirrors_example :
    has_https the_suffix (dedup_mirrors the_suffix all_mirrors) a_key
    ≡ has_https the_suffix all_mirrors a_key
has_https-dedup_mirrors_example =
    has_https-dedup_mirrors the_suffix all_mirrors a_key
      (unfold IsWeb in (inl refl, (inr refl, (inr refl, tt))))

abbrev old_server : Server
old_server = record {
  id = 1;
  name = codes "old";
  protocol = codes "https";
  host = codes "b.org";
  base_path = codes "/pub";
  is_official = true;
  enabled = true;
  priority = 50;
  country = none;
  latency_ms = none;
  bandwidth_kbps = none;
}

abbrev french_server : Server
french_server = record old_server {
  id = 2;
  name = codes "french";
  host = codes "a.org";
  country = some (codes "FR");
}

abbrev table : Servers
table = french_server ∷ old_server ∷ []

backfill_server_countries_correct_example :
    ((backfill_server_countries europe (some all_mirrors) table).0
      ≡ map (fill_server europe all_mirrors) table)
    × (backfill_server_countries europe none table ≡ (table, 0))
backfill_server_countries_correct_example =
    backfill_server_countries_correct europe all_mirrors table
      (unfold IsKeyed are_apart ◌==◌ in ((refl, tt), (tt, tt)))

fetch_and_filter_lem_example : AreFresh (codes "b.org" ∷ []) (
    fetch_and_filter
      (codes "9")
      (codes "x86_64")
      ((codes "b.org", codes "/pub") ∷ [])
      (some all_mirrors))
fetch_and_filter_lem_example =
    fetch_and_filter_lem (codes "9") (codes "x86_64") ((codes "b.org", codes "/pub") ∷ [])
      (some all_mirrors)

-- one and a half
abbrev ratio : PoolRatio
ratio = record { numerator = 3; exponent = 1 }

abbrev env : Surroundings
env = record {
  pool_ratio = ratio;
  auto_add = true;
  geo = europe;
  version = codes "9";
  arch = codes "x86_64";
  all_mirrors = some all_mirrors;
  mirrors = some all_mirrors;
  test_latency = map (λ c. (c, 7000));
  average = λ new old. (3 * new) + old;
  probe_bandwidth = λ t. t;
}

abbrev pool : Pool
pool = record { servers = table; next_id = 3 }

ensure_minimum_servers_lem_example :
    IsModest
      (minimum_servers_for 4 ratio - official_count (backfilled env pool).servers)
      (map (λ s. s.name) (backfilled env pool).servers)
      (ensure_minimum_servers env 4 pool).1
ensure_minimum_servers_lem_example = ensure_minimum_servers_lem env 4 pool

-- a system whose release is not known
abbrev unknown_release : Surroundings
unknown_release = record env { version = [] }

abbrev two_urls : List Text
two_urls = codes "http://a.org/pub/" ∷ codes " https://a.org/pub" ∷ codes "rsync://a.org/pub" ∷ []

abbrev pub_on_a : Place
pub_on_a = (some (codes "a.org"), codes "/pub")
