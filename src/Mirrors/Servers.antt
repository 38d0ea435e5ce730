-- ===== src/Mirrors/Servers.antt =====
-- The server table of urpm/core/db/server.py. It is kept in the order in which `list_servers`
-- reports it: by falling priority, then by name.
use urpm_ng.Base.{
  Bool, List, Option, Text, eqb, if◌then◌else◌, lexicographic, ltb, map, none, select, some, true,
  zero, ℕ, [], ◌∷◌, ◌&&◌, ◌||◌, ◌==◌, any,
}

pub record Server : Type 0 where
  pub id : ℕ
  pub name : Text
  pub protocol : Text
  pub host : Text
  pub base_path : Text
  pub is_official : Bool
  pub enabled : Bool
  pub priority : ℕ
  pub country : Option Text
  pub latency_ms : Option ℕ
  pub bandwidth_kbps : Option ℕ

abbrev pub Servers : Type 0
Servers = List Server

unfoldable pub list_servers : Bool → Servers → Servers
list_servers enabled_only t = if enabled_only then select (λ s. s.enabled) t else t

unfoldable pub set_country_row : ℕ → Text → Server → Server
set_country_row id country s = if eqb s.id id then record s { country = some country } else s

unfoldable pub set_server_country_by_id : ℕ → Text → Servers → Servers
unfolding set_country_row
set_server_country_by_id id country = map (set_country_row id country)

unfoldable pub enable_row : Text → Bool → Server → Server
enable_row name enabled s = if s.name == name then record s { enabled = enabled } else s

unfoldable pub enable_server : Text → Bool → Servers → Servers
unfolding enable_row
enable_server name enabled = map (enable_row name enabled)

unfoldable pub comes_first : Server → Server → Bool
comes_first s t =
    ltb t.priority s.priority || (eqb s.priority t.priority && lexicographic s.name t.name)

unfoldable pub insert_row : Server → Servers → Servers
unfolding comes_first
insert_row s [] = s ∷ []
insert_row s (t ∷ ts) = if comes_first s t then s ∷ t ∷ ts else t ∷ insert_row s ts

unfoldable pub name_taken : Text → Servers → Bool
name_taken name t = any (λ s. s.name == name) t

unfoldable pub location_taken : Text → Text → Servers → Bool
location_taken host base_path t = any (λ s. s.host == host && s.base_path == base_path) t

-- `add_server` with the defaults of its last arguments; `none` is an IntegrityError, for a name
-- or a host and path that is there already
unfoldable pub add_server : ℕ → Text → Text → Text → Text → Option Text → Servers → Option Servers
unfolding name_taken location_taken insert_row
add_server id name protocol host base_path country t =
    if name_taken name t || location_taken host base_path t
    then none
    else some (
        insert_row
          (record {
            id = id;
            name = name;
            protocol = protocol;
            host = host;
            base_path = base_path;
            is_official = true;
            enabled = true;
            priority = 50;
            country = country;
            latency_ms = none;
            bandwidth_kbps = none;
          })
          t)

-- the moving average is computed by SQLite in floating point
module _ (average : ℕ → ℕ → ℕ) where
  unfoldable pub measured : Option ℕ → ℕ → Option ℕ
  measured old zero = old
  measured none n = some n
  measured (some old) n = some (average n old)

  unfoldable pub stats_row : ℕ → ℕ → ℕ → Server → Server
  unfolding measured
  stats_row id bandwidth latency s =
      if eqb s.id id
      then record s {
        bandwidth_kbps = measured s.bandwidth_kbps bandwidth;
        latency_ms = measured s.latency_ms latency;
      }
      else s

  -- `update_server_stats` with a bandwidth and a latency
  unfoldable pub update_server_stats : ℕ → ℕ → ℕ → Servers → Servers
  unfolding stats_row
  update_server_stats id bandwidth latency = map (stats_row id bandwidth latency)
