-- ===== src/Mirrors/Pool/Ensure/Correct.antt =====
-- The servers that `ensure_minimum_servers` adds.
use urpm_ng.Base.{
  All, All-append, Bool-cases, List, Option, Text, arith, contains, contains-add, contains-update,
  false, inl, inr, is_empty, leb, length, map, none, not, or_else, refl, some, true, zero, suc, ℕ,
  [], ◌∷◌, ◌+◌, ◌-◌, ◌/◌, ◌≤◌, ◌≡◌, ap, ◌∙◌, length-append, update,
}
use urpm_ng.Mirrors.Servers.{Servers, add_server, list_servers}
use urpm_ng.Mirrors.Pool.Candidates.{Candidate, fetch_and_filter}
use urpm_ng.Mirrors.Pool.Names.{unique_name, unique_name_lem}
use urpm_ng.Mirrors.Pool.Ratio.{minimum_servers_for, average_bandwidth}
use urpm_ng.Mirrors.Pool.Ensure.{
  PoolCheckResult, Surroundings, Pool, sort_reachable, take, Added, record_added, add_candidate,
  add_candidates, official_count, add_best, unchanged, expand, backfilled, check_pool,
  ensure_minimum_servers,
}

length-take : {A : Type 0} (n : ℕ) (xs : List A) → length (take n xs) ≤ n
unfolding take
length-take zero xs = omega arith
length-take (suc n) [] = omega arith
length-take (suc n) (x ∷ xs) = omega (arith, length-take n xs)

names_of : Servers → List Text
names_of t = map (λ s. s.name) t

-- the entries have names that are not in the list
pub AreNew : List Text → List (Text × ℕ) → Type 0
AreNew base xs = All (λ x. contains base x.0 ≡ false) xs

module _ (base : List Text) where
  -- the loop's state has at most `n` entries, all of them new, and knows every name of the list
  IsGrown : ℕ → Added → Type 0
  unfolding AreNew
  IsGrown n a =
      (length a.added ≤ n)
      × AreNew base a.added
      × ((h : Text) → contains base h ≡ true → contains a.names h ≡ true)

  record_added-IsGrown :
      (average : ℕ → ℕ → ℕ) (avg : ℕ) (name : Text) (latency n : ℕ) (a : Added) (o : Option Servers)
      → contains a.names name ≡ false
      → IsGrown n a
      → IsGrown (suc n) (record_added average avg name latency a o)
  unfolding record_added IsGrown AreNew
  record_added-IsGrown average avg name latency n a none new h = (omega (arith, h.0), h.1, h.2)
  record_added-IsGrown average avg name latency n a (some t) new h = (
    omega (arith, h.0, length-append a.added ((name, latency) ∷ [])),
    All-append (λ x. contains base x.0 ≡ false) a.added ((name, latency) ∷ []) h.1
        (ground (arith, h.2 name, new), tt),
    (λ x known. ground (arith, contains-add a.names name x, h.2 x known)),
  )

  add_candidate-IsGrown :
      (average : ℕ → ℕ → ℕ) (avg n : ℕ) (a : Added) (c : Candidate × ℕ)
      → IsGrown n a
      → IsGrown (suc n) (add_candidate average avg a c)
  unfolding add_candidate
  add_candidate-IsGrown average avg n a (c, latency) h =
      let found = unique_name_lem c.host a.names in
      let name = or_else (unique_name c.host a.names) c.host in
      record_added-IsGrown average avg name (latency / 1000) n a
        (add_server a.pool.next_id name c.scheme c.host c.base_path c.country a.pool.servers)
        (ap (λ o. contains a.names (or_else o c.host)) found.1 ∙ found.2) h

  IsGrown-le : (m n : ℕ) (a : Added) → m ≤ n → IsGrown m a → IsGrown n a
  unfolding IsGrown
  IsGrown-le m n a le h = (omega (arith, h.0, le), h.1, h.2)

  add_candidates-IsGrown :
      (average : ℕ → ℕ → ℕ) (avg n : ℕ) (a : Added) (cs : List (Candidate × ℕ))
      → IsGrown n a
      → IsGrown (length cs + n) (add_candidates average avg a cs)
  unfolding add_candidates
  add_candidates-IsGrown average avg n a [] h = IsGrown-le n (0 + n) a (omega arith) h
  add_candidates-IsGrown average avg n a (c ∷ cs) h =
      IsGrown-le (length cs + suc n) (suc (length cs) + n)
        (add_candidates average avg (add_candidate average avg a c) cs) (omega arith)
        (add_candidates-IsGrown average avg (suc n) (add_candidate average avg a c) cs
          (add_candidate-IsGrown average avg n a c h))

-- At most `n` servers were added, under names that are not in the list.
pub IsModest : ℕ → List Text → PoolCheckResult → Type 0
IsModest n base r = (length r.added ≤ n) × AreNew base r.added

unchanged-IsModest :
    (pool : Pool) (had needed n : ℕ) (base : List Text)
    → IsModest n base (unchanged pool had needed).1
unfolding unchanged IsModest AreNew
unchanged-IsModest pool had needed n base = (omega arith, tt)

add_best-IsModest :
    (env : Surroundings) (needed had : ℕ) (pool : Pool) (reachable : List (Candidate × ℕ))
    → IsModest
        (needed - official_count pool.servers)
        (map (λ s. s.name) pool.servers)
        (add_best env needed had pool reachable).1
unfolding add_best IsModest
add_best-IsModest env needed had pool reachable =
    let best = take (needed - official_count pool.servers) (sort_reachable reachable) in
    let base = map (λ s. s.name) pool.servers in
    let start : Added = record { pool = pool; names = update [] base; added = [] } in
    let h = add_candidates-IsGrown base env.average (average_bandwidth pool.servers) 0 start best (
      unfold IsGrown AreNew in
      (
        omega arith,
        tt,
        (λ x known. unfold contains in ground (arith, contains-update [] base x, known)),
      )) in
    unfold IsGrown in
    (
      omega (
        arith,
        h.0,
        length-take (needed - official_count pool.servers) (sort_reachable reachable),
      ),
      h.1,
    )

expand-IsModest :
    (env : Surroundings) (needed : ℕ) (pool : Pool)
    → IsModest
        (needed - official_count pool.servers)
        (map (λ s. s.name) pool.servers)
        (expand env needed pool).1
unfolding expand
expand-IsModest env needed pool =
    let n = needed - official_count pool.servers in
    let base = map (λ s. s.name) pool.servers in
    let had = length (list_servers true pool.servers) in
    let candidates =
      fetch_and_filter env.version env.arch (map (λ s. (s.host, s.base_path)) pool.servers)
        env.mirrors in
    elim (Bool-cases (is_empty candidates)) [
      | inl nothing ↦ rw nothing (unchanged-IsModest pool had needed n base)
      | inr some_found ↦ elim (Bool-cases (is_empty (env.test_latency candidates))) [
        | inl nothing ↦ rw (some_found, nothing) (unchanged-IsModest pool had needed n base)
        | inr reached ↦
            rw (some_found, reached)
              (add_best-IsModest env needed had pool (env.test_latency candidates))
      ]
    ]

check_pool-IsModest :
    (env : Surroundings) (needed : ℕ) (pool : Pool)
    → IsModest
        (needed - official_count pool.servers)
        (map (λ s. s.name) pool.servers)
        (check_pool env needed pool).1
unfolding check_pool
check_pool-IsModest env needed pool =
    let n = needed - official_count pool.servers in
    let base = map (λ s. s.name) pool.servers in
    let same = unchanged-IsModest pool (official_count pool.servers) needed n base in
    elim (Bool-cases (leb needed (official_count pool.servers))) [
      | inl enough ↦ rw enough (unfold IsModest AreNew in (omega arith, tt))
      | inr short ↦ elim (Bool-cases (not env.auto_add)) [
        | inl off ↦ rw (short, off) same
        | inr on ↦ elim (Bool-cases (is_empty env.version)) [
          | inl unknown ↦ rw (short, on, unknown) same
          | inr known ↦ rw (short, on, known) (expand-IsModest env needed pool)
        ]
      ]
    ]

check_pool-enough :
    (env : Surroundings) (needed : ℕ) (pool : Pool)
    → needed ≤ official_count pool.servers
    → ((check_pool env needed pool).0 ≡ pool) × ((check_pool env needed pool).1.sufficient ≡ true)
unfolding check_pool
check_pool-enough env needed pool h =
    rw (let enough : leb needed (official_count pool.servers) ≡ true = ground (arith, h) in enough)
      (refl, refl)

-- At most as many servers are added as official ones are missing once the countries are filled
-- in, and each under a name that no server had.
pub ensure_minimum_servers_lem :
    (env : Surroundings) (parallel : ℕ) (pool : Pool)
    → IsModest
        (minimum_servers_for parallel env.pool_ratio - official_count (backfilled env pool).servers)
        (map (λ s. s.name) (backfilled env pool).servers)
        (ensure_minimum_servers env parallel pool).1
unfolding ensure_minimum_servers
ensure_minimum_servers_lem env parallel pool =
    check_pool-IsModest env (minimum_servers_for parallel env.pool_ratio) (backfilled env pool)

-- Where enough official servers are enabled once the countries are filled in, the check says so,
-- and the table is the one with the countries filled in.
pub ensure_minimum_servers_enough :
    (env : Surroundings) (parallel : ℕ) (pool : Pool)
    → minimum_servers_for parallel env.pool_ratio ≤ official_count (backfilled env pool).servers
    → ((ensure_minimum_servers env parallel pool).0 ≡ backfilled env pool)
      × ((ensure_minimum_servers env parallel pool).1.sufficient ≡ true)
unfolding ensure_minimum_servers
ensure_minimum_servers_enough env parallel pool h =
    check_pool-enough env (minimum_servers_for parallel env.pool_ratio) (backfilled env pool) h
