-- ===== src/Mirrors/Pool/Ensure.antt =====
-- `ensure_minimum_servers` of urpm/core/server_pool.py. What the network answers is an argument:
-- both mirror lists, the latencies (in microseconds) and the probe of bandwidths. The links of
-- servers to media are not in the server table.
pub mod Correct
use urpm_ng.Base.{
  Bool, Bool-cases, List, Option, Option-cases, Text, add, arith, codes, contains, contains-add,
  false, if◌then◌else◌, inl, inr, is_empty, leb, length, ltb, map, none, not, or_else, refl, select,
  some, true, zero, suc, ℕ, [], ◌∷◌, ◌++◌, ◌+◌, ◌-◌, ◌/◌, ◌≤◌, ◌<◌, ◌≡◌, ◌&&◌, ◌||◌, ◌==◌, any, ap,
  ◌∙◌, length-append, sym, update,
}
use urpm_ng.Mirrors.Entries.{MirrorInfo}
use urpm_ng.Mirrors.Geo.{Geo}
use urpm_ng.Mirrors.Servers.{Server, Servers, add_server, list_servers, update_server_stats}
use urpm_ng.Mirrors.Backfill.{backfill_server_countries}
use urpm_ng.Mirrors.Pool.Candidates.{Candidate, fetch_and_filter}
use urpm_ng.Mirrors.Pool.Names.{unique_name}
use urpm_ng.Mirrors.Pool.Ratio.{PoolRatio, minimum_servers_for, average_bandwidth}

pub record PoolCheckResult : Type 0 where
  pub sufficient : Bool
  pub had : ℕ
  pub needed : ℕ
  pub added : List (Text × ℕ)

-- the `[server]` settings, the system and the answers of the network
pub record Surroundings : Type 0 where
  pub pool_ratio : PoolRatio
  pub auto_add : Bool
  pub geo : Geo
  pub version : Text
  pub arch : Text
  pub all_mirrors : Option (List MirrorInfo)
  pub mirrors : Option (List MirrorInfo)
  pub test_latency : List Candidate → List (Candidate × ℕ)
  pub average : ℕ → ℕ → ℕ
  pub probe_bandwidth : Servers → Servers

-- the server table with the next id of its sequence
pub record Pool : Type 0 where
  pub servers : Servers
  pub next_id : ℕ

unfoldable pub insert_reachable : Candidate × ℕ → List (Candidate × ℕ) → List (Candidate × ℕ)
insert_reachable x [] = x ∷ []
insert_reachable x (y ∷ ys) = if leb x.1 y.1 then x ∷ y ∷ ys else y ∷ insert_reachable x ys

-- `reachable.sort(key=lambda x: x[1])`
unfoldable pub sort_reachable : List (Candidate × ℕ) → List (Candidate × ℕ)
unfolding insert_reachable
sort_reachable [] = []
sort_reachable (x ∷ xs) = insert_reachable x (sort_reachable xs)

-- `xs[:n]`
unfoldable pub take {ℓ} : {A : Type ℓ} → ℕ → List A → List A
take zero xs = []
take (suc n) [] = []
take (suc n) (x ∷ xs) = x ∷ take n xs

-- the loop's state: the pool, `existing_names` and `added`
pub record Added : Type 0 where
  pub pool : Pool
  pub names : List Text
  pub added : List (Text × ℕ)

unfoldable pub record_added : (ℕ → ℕ → ℕ) → ℕ → Text → ℕ → Added → Option Servers → Added
record_added average avg name latency a none = a
record_added average avg name latency a (some servers) = record {
  pool = record {
    servers = update_server_stats average a.pool.next_id avg latency servers;
    next_id = suc a.pool.next_id;
  };
  names = add a.names name;
  added = a.added ++ (name, latency) ∷ [];
}

-- a name is always found, so that the default is never used
unfoldable pub add_candidate : (ℕ → ℕ → ℕ) → ℕ → Added → Candidate × ℕ → Added
unfolding record_added
add_candidate average avg a (c, latency) =
    let name = or_else (unique_name c.host a.names) c.host in
    record_added average avg name (latency / 1000) a
      (add_server a.pool.next_id name c.scheme c.host c.base_path c.country a.pool.servers)

unfoldable pub add_candidates : (ℕ → ℕ → ℕ) → ℕ → Added → List (Candidate × ℕ) → Added
unfolding add_candidate
add_candidates average avg a [] = a
add_candidates average avg a (c ∷ cs) =
    add_candidates average avg (add_candidate average avg a c) cs

unfoldable pub official_count : Servers → ℕ
official_count t = length (select (λ s. s.is_official) (list_servers true t))

unfoldable pub lacks_bandwidth : Server → Bool
lacks_bandwidth s = elim s.bandwidth_kbps [ none ↦ true | some zero ↦ true | some (suc n) ↦ false ]

-- the servers that answered, the best of them added, and the probe
unfoldable pub add_best :
    Surroundings → ℕ → ℕ → Pool → List (Candidate × ℕ) → Pool × PoolCheckResult
unfolding add_candidates sort_reachable take lacks_bandwidth
add_best env needed had pool reachable =
    let best = take (needed - official_count pool.servers) (sort_reachable reachable) in
    let start : Added = record {
      pool = pool;
      names = update [] (map (λ s. s.name) pool.servers);
      added = [];
    } in
    let a = add_candidates env.average (average_bandwidth pool.servers) start best in
    let unprobed = select lacks_bandwidth (list_servers true a.pool.servers) in
    let servers =
      if is_empty unprobed then a.pool.servers else env.probe_bandwidth a.pool.servers in
    (
      record { servers = servers; next_id = a.pool.next_id },
      record {
        sufficient = leb needed (had + length a.added);
        had = had;
        needed = needed;
        added = a.added;
      },
    )

unfoldable pub unchanged : Pool → ℕ → ℕ → Pool × PoolCheckResult
unchanged pool had needed =
    (pool, record { sufficient = false; had = had; needed = needed; added = [] })

unfoldable pub expand : Surroundings → ℕ → Pool → Pool × PoolCheckResult
unfolding add_best unchanged
expand env needed pool =
    let had = length (list_servers true pool.servers) in
    let existing = map (λ s. (s.host, s.base_path)) pool.servers in
    let candidates = fetch_and_filter env.version env.arch existing env.mirrors in
    let reachable = env.test_latency candidates in
    if is_empty candidates
    then unchanged pool had needed
    else if is_empty reachable
    then unchanged pool had needed
    else add_best env needed had pool reachable

unfoldable pub backfilled : Surroundings → Pool → Pool
backfilled env pool = if is_empty env.version then pool else record pool {
  servers = (backfill_server_countries env.geo env.all_mirrors pool.servers).0;
}

unfoldable pub check_pool : Surroundings → ℕ → Pool → Pool × PoolCheckResult
unfolding expand unchanged official_count
check_pool env needed pool =
    let official = official_count pool.servers in
    if leb needed official
    then (pool, record { sufficient = true; had = official; needed = needed; added = [] })
    else if not env.auto_add
    then unchanged pool official needed
    else if is_empty env.version
    then unchanged pool official needed
    else expand env needed pool

unfoldable pub ensure_minimum_servers : Surroundings → ℕ → Pool → Pool × PoolCheckResult
unfolding check_pool backfilled
ensure_minimum_servers env parallel pool =
    check_pool env (minimum_servers_for parallel env.pool_ratio) (backfilled env pool)
