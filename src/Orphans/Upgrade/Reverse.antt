-- ===== src/Orphans/Upgrade/Reverse.antt =====
-- `_build_reverse_deps` of `find_upgrade_orphans` (urpm/core/resolution/orphans.py): the
-- reverse-dependency graph of a state, in which a requirement counts for a provider whose version
-- satisfies it. `rpm.labelCompare` is a parameter.
use urpm_ng.Base.{
  Bool, Dict, List, Text, any, any-append, append_at, contains, contains-append_at, get_list,
  if◌then◌else◌, put, get, or_else, get-put, [], ◌∷◌, ◌++◌, ◌==◌, ◌≡◌, ◌||◌, ◌&&◌, not, arith,
  ==_iff, false, refl,
}
use urpm_ng.Orphans.Graph.{edge}
use urpm_ng.Orphans.Versions.{Capability, Evr, Verdict, provider_satisfies}
use urpm_ng.Orphans.Upgrade.States.{Entry, Provide}

-- a package that provides a capability, with the version that it provides
pub record Provider : Type 0 where
  pub owner : Text
  pub evr : Text

-- `cap_providers.setdefault(cap_name, []).append((name, prov_evr))`
unfoldable pub provider_at : Dict (List Provider) → Text → Provider → Dict (List Provider)
provider_at [] k p = (k, p ∷ []) ∷ []
provider_at ((j, ps) ∷ d) k p =
    if j == k then (j, ps ++ p ∷ []) ∷ d else (j, ps) ∷ provider_at d k p

unfoldable pub providers_of : Text → List Provide → Dict (List Provider) → Dict (List Provider)
unfolding provider_at
providers_of name [] m = m
providers_of name (p ∷ ps) m =
    providers_of name ps (provider_at m p.name (record { owner = name; evr = p.evr }))

unfoldable pub cap_providers : Dict Entry → Dict (List Provider) → Dict (List Provider)
unfolding providers_of
cap_providers [] m = m
cap_providers ((name, info) ∷ state) m = cap_providers state (providers_of name info.provides m)

-- `cap_providers.get(name, ())`
unfoldable pub get_providers : Dict (List Provider) → Text → List Provider
unfolding get
get_providers m k = or_else (get m k) []

-- `{name: set() for name in state}`
unfoldable pub no_edges : Dict Entry → Dict (List Text)
no_edges [] = []
no_edges ((name, info) ∷ state) = put (no_edges state) name []

module _ (label_compare : Evr → Evr → Verdict) where
  -- `rev[provider].add(name)` for the other providers that satisfy `c`
  unfoldable pub protect_satisfying :
      Text → Capability → List Provider → Dict (List Text) → Dict (List Text)
  protect_satisfying name c [] g = g
  protect_satisfying name c (p ∷ ps) g = protect_satisfying name c ps (
      if p.owner == name
      then g
      else if provider_satisfies label_compare p.evr c.sense c.evr
      then append_at g p.owner name
      else g)

  -- `rev[name].add(provider)` for them
  unfoldable pub protect_by_satisfying :
      Text → Capability → List Provider → Dict (List Text) → Dict (List Text)
  protect_by_satisfying name c [] g = g
  protect_by_satisfying name c (p ∷ ps) g = protect_by_satisfying name c ps (
      if p.owner == name
      then g
      else if provider_satisfies label_compare p.evr c.sense c.evr
      then append_at g name p.owner
      else g)

  module _ (providers : Dict (List Provider)) where
    unfoldable pub link_requires : Text → List Capability → Dict (List Text) → Dict (List Text)
    unfolding protect_satisfying get_providers
    link_requires name [] g = g
    link_requires name (c ∷ caps) g =
        link_requires name caps (protect_satisfying name c (get_providers providers c.name) g)

    unfoldable pub link_supplementing : Text → List Capability → Dict (List Text) → Dict (List Text)
    unfolding protect_by_satisfying get_providers
    link_supplementing name [] g = g
    link_supplementing name (c ∷ caps) g =
        link_supplementing name caps
          (protect_by_satisfying name c (get_providers providers c.name) g)

    unfoldable pub link_entries : Dict Entry → Dict (List Text) → Dict (List Text)
    unfolding link_requires link_supplementing
    link_entries [] g = g
    link_entries ((name, info) ∷ state) g =
        link_entries state
          (link_supplementing name info.supplements (link_requires name info.requires g))

  unfoldable pub build_reverse_deps : Dict Entry → Dict (List Text)
  unfolding link_entries cap_providers no_edges
  build_reverse_deps state = link_entries (cap_providers state []) state (no_edges state)

  -- an entry provides the capability in a version that satisfies it
  abbrev pub offers : Entry → Capability → Bool
  offers info c =
      any
        (λ (q : Provide). q.name == c.name && provider_satisfies label_compare q.evr c.sense c.evr)
        info.provides

  abbrev pub state_offers : Dict Entry → Text → Capability → Bool
  state_offers state x c = any (λ (e : Text × Entry). e.0 == x && offers e.1 c) state

  -- the entry makes `d` a protector of `x`
  abbrev pub entry_protects : Dict Entry → Text → Text → Text × Entry → Bool
  entry_protects state x d (name, info) =
      (name == d && not (x == name) && any (state_offers state x) info.requires)
      || (name == x && not (d == name) && any (state_offers state d) info.supplements)

  -- among providers
  abbrev satisfied : Text → Capability → List Provider → Bool
  satisfied x c ps =
      any (λ p. p.owner == x && provider_satisfies label_compare p.evr c.sense c.evr) ps

  edge-protect_satisfying :
      (name : Text) (c : Capability) (ps : List Provider) (g : Dict (List Text)) (x d : Text)
      → edge (protect_satisfying name c ps g) x d
        ≡ (edge g x d || (name == d && not (x == name) && satisfied x c ps))
  unfolding protect_satisfying
  edge-protect_satisfying name c [] g x d = ground arith
  edge-protect_satisfying name c (p ∷ ps) g x d = rw (edge-protect_satisfying name c ps _ x d) (
      ground (
        arith,
        contains-append_at g p.owner x name d,
        ==_iff p.owner name,
        ==_iff p.owner x,
        ==_iff x name,
      ))

  edge-protect_by_satisfying :
      (name : Text) (c : Capability) (ps : List Provider) (g : Dict (List Text)) (x d : Text)
      → edge (protect_by_satisfying name c ps g) x d
        ≡ (edge g x d || (name == x && not (d == name) && satisfied d c ps))
  unfolding protect_by_satisfying
  edge-protect_by_satisfying name c [] g x d = ground arith
  edge-protect_by_satisfying name c (p ∷ ps) g x d =
      rw (edge-protect_by_satisfying name c ps _ x d) (
        ground (
          arith,
          contains-append_at g name x p.owner d,
          ==_iff p.owner name,
          ==_iff p.owner d,
          ==_iff d name,
        ))

  satisfied-provider_at :
      (m : Dict (List Provider)) (k : Text) (p : Provider) (x : Text) (c : Capability)
      → satisfied x c (get_providers (provider_at m k p) c.name)
        ≡ (satisfied x c (get_providers m c.name) || (k == c.name && satisfied x c (p ∷ [])))
  unfolding provider_at get_providers get
  satisfied-provider_at [] k p x c = ground arith
  satisfied-provider_at ((j, ps) ∷ m) k p x c = ground (
    arith,
    any-append (λ q. q.owner == x && provider_satisfies label_compare q.evr c.sense c.evr) ps
        (p ∷ []),
    satisfied-provider_at m k p x c,
    ==_iff j k,
    ==_iff j c.name,
    ==_iff k c.name,
  )

  satisfied-providers_of :
      (name : Text) (ps : List Provide) (m : Dict (List Provider)) (x : Text) (c : Capability)
      → satisfied x c (get_providers (providers_of name ps m) c.name) ≡ (
          satisfied x c (get_providers m c.name)
          || (name == x
              && any
                  (λ (q : Provide).
                    q.name == c.name && provider_satisfies label_compare q.evr c.sense c.evr)
                  ps))
  unfolding providers_of
  satisfied-providers_of name [] m x c = ground arith
  satisfied-providers_of name (p ∷ ps) m x c =
      rw
        (
          satisfied-providers_of name ps
              (provider_at m p.name (record { owner = name; evr = p.evr })) x c,
          satisfied-provider_at m p.name (record { owner = name; evr = p.evr }) x c,
        )
        (ground arith)

  satisfied-cap_providers :
      (state : Dict Entry) (m : Dict (List Provider)) (x : Text) (c : Capability)
      → satisfied x c (get_providers (cap_providers state m) c.name)
        ≡ (satisfied x c (get_providers m c.name) || state_offers state x c)
  unfolding cap_providers
  satisfied-cap_providers [] m x c = ground arith
  satisfied-cap_providers ((name, info) ∷ state) m x c =
      rw
        (
          satisfied-cap_providers state (providers_of name info.provides m) x c,
          satisfied-providers_of name info.provides m x c,
        )
        (ground arith)

  -- the providers of a whole state
  all_providers :
      (state : Dict Entry) (x : Text) (c : Capability)
      → satisfied x c (get_providers (cap_providers state []) c.name) ≡ state_offers state x c
  all_providers state x c =
      rw (satisfied-cap_providers state [] x c) (unfold get_providers get in refl)

  module _ (all : Dict Entry) where
    abbrev table : Dict (List Provider)
    table = cap_providers all []

    edge-link_requires :
        (name : Text) (caps : List Capability) (g : Dict (List Text)) (x d : Text)
        → edge (link_requires table name caps g) x d
          ≡ (edge g x d || (name == d && not (x == name) && any (state_offers all x) caps))
    unfolding link_requires
    edge-link_requires name [] g x d = ground arith
    edge-link_requires name (c ∷ caps) g x d =
        rw
          (
            edge-link_requires name caps (protect_satisfying name c (get_providers table c.name) g)
                x d,
            edge-protect_satisfying name c (get_providers table c.name) g x d,
            all_providers all x c,
          )
          (ground arith)

    edge-link_supplementing :
        (name : Text) (caps : List Capability) (g : Dict (List Text)) (x d : Text)
        → edge (link_supplementing table name caps g) x d
          ≡ (edge g x d || (name == x && not (d == name) && any (state_offers all d) caps))
    unfolding link_supplementing
    edge-link_supplementing name [] g x d = ground arith
    edge-link_supplementing name (c ∷ caps) g x d =
        rw
          (
            edge-link_supplementing name caps
                (protect_by_satisfying name c (get_providers table c.name) g) x d,
            edge-protect_by_satisfying name c (get_providers table c.name) g x d,
            all_providers all d c,
          )
          (ground arith)

    edge-link_entries :
        (state : Dict Entry) (g : Dict (List Text)) (x d : Text)
        → edge (link_entries table state g) x d ≡ (edge g x d || any (entry_protects all x d) state)
    unfolding link_entries
    edge-link_entries [] g x d = ground arith
    edge-link_entries ((name, info) ∷ state) g x d =
        rw
          (
            edge-link_entries state
                (link_supplementing table name info.supplements
                  (link_requires table name info.requires g))
                x d,
            edge-link_supplementing name info.supplements (link_requires table name info.requires g)
                x d,
            edge-link_requires name info.requires g x d,
          )
          (ground arith)

  edge-no_edges : (state : Dict Entry) (x d : Text) → edge (no_edges state) x d ≡ false
  unfolding no_edges get_list get contains
  edge-no_edges [] x d = refl
  edge-no_edges ((name, info) ∷ state) x d =
      ground (arith, edge-no_edges state x d, get-put (no_edges state) name x [])

  -- In the graph of a state, `d` protects `x` exactly when an entry of the state makes it so: the
  -- entry `d` requires, recommends or suggests a capability that `x`, another package, provides in
  -- a version that satisfies it, or the entry `x` supplements one that `d`, another package, does.
  pub edge-build_reverse_deps :
      (state : Dict Entry) (x d : Text)
      → edge (build_reverse_deps state) x d ≡ any (entry_protects state x d) state
  unfolding build_reverse_deps
  edge-build_reverse_deps state x d =
      rw (edge-link_entries state state (no_edges state) x d)
        (ground (arith, edge-no_edges state x d))
