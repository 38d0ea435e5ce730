-- ===== src/Orphans/Graph.antt =====
-- The reverse-dependency graph that `find_all_orphans` builds from the rpm database
-- (urpm/core/resolution/orphans.py). `pkg_requires` and its like are written together with
-- `installed_pkgs`, so they are read from the header kept there.
use urpm_ng.Base.{
  get-put, get, Bool, Dict, List, Text, append_at, codes, contains, get_list, if◌then◌else◌, put,
  select, [], ◌∷◌, ◌==◌, any, ◌&&◌, ◌||◌, not, ◌≡◌, arith, contains-append_at, ==_iff, refl, false,
}
use urpm_ng.Orphans.Rpmdb.{Header, add_provides, is_package_cap}

-- `installed_pkgs`, `provides_map` and `reverse_deps`
pub record Tables : Type 0 where
  pub installed : Dict Header
  pub provides_map : Dict (List Text)
  pub reverse_deps : Dict (List Text)

-- one header; public keys are passed over
unfoldable pub register_header : Tables → Header → Tables
register_header t hdr = if hdr.name == codes "gpg-pubkey" then t else record {
  installed = put t.installed hdr.name hdr;
  provides_map = add_provides hdr.name hdr.provides t.provides_map;
  reverse_deps = put t.reverse_deps hdr.name [];
}

-- the first pass, over `ts.dbMatch()`
unfoldable pub register : Tables → List Header → Tables
unfolding register_header
register t [] = t
register t (hdr ∷ hdrs) = register (register_header t hdr) hdrs

-- `reverse_deps[provider].add(name)` for each other provider
pub protect_providers : Text → List Text → Dict (List Text) → Dict (List Text)
protect_providers name [] g = g
protect_providers name (provider ∷ ps) g =
    protect_providers name ps (if provider == name then g else append_at g provider name)

-- `reverse_deps[name].add(provider)` for each other provider
pub protect_by : Text → List Text → Dict (List Text) → Dict (List Text)
protect_by name [] g = g
protect_by name (provider ∷ ps) g =
    protect_by name ps (if provider == name then g else append_at g name provider)

module _ (provides_map : Dict (List Text)) where
  pub link_forward : Text → List Text → Dict (List Text) → Dict (List Text)
  link_forward name [] g = g
  link_forward name (cap ∷ caps) g =
      link_forward name caps (protect_providers name (get_list provides_map cap) g)

  link_supplements : Text → List Text → Dict (List Text) → Dict (List Text)
  link_supplements name [] g = g
  link_supplements name (cap ∷ caps) g =
      link_supplements name caps (protect_by name (get_list provides_map cap) g)

  link_package : Text → Header → Dict (List Text) → Dict (List Text)
  link_package name h g =
      let g1 = link_forward name (select is_package_cap h.requires) g in
      let g2 = link_forward name h.recommends g1 in
      let g3 = link_forward name h.suggests g2 in link_supplements name h.supplements g3

  -- the second pass, over `installed_pkgs`
  pub link : Dict Header → Dict (List Text) → Dict (List Text)
  link [] g = g
  link ((name, h) ∷ pkgs) g = link pkgs (link_package name h g)

  -- a package named `name` needs one of `caps`, which `x` provides
  abbrev pub needs : List Text → Text → Bool
  needs caps x = any (λ cap. contains (get_list provides_map cap) x) caps

  -- whether the package `name` makes `d` a protector of `x`
  abbrev pub protects : Text → Header → Text → Text → Bool
  protects name h x d =
      (name == d
        && not (x == name)
        && (needs (select is_package_cap h.requires) x
            || needs h.recommends x
            || needs h.suggests x))
      || (name == x && not (d == name) && needs h.supplements d)

  abbrev pub any_protects : Dict Header → Text → Text → Bool
  any_protects [] x d = false
  any_protects ((name, h) ∷ pkgs) x d = protects name h x d || any_protects pkgs x d

abbrev pub edge : Dict (List Text) → Text → Text → Bool
edge g x d = contains (get_list g x) d

pub edge-protect_providers :
    (name : Text) (ps : List Text) (g : Dict (List Text)) (x d : Text)
    → edge (protect_providers name ps g) x d
      ≡ (edge g x d || (name == d && not (x == name) && contains ps x))
unfolding protect_providers contains
edge-protect_providers name [] g x d = ground arith
edge-protect_providers name (p ∷ ps) g x d =
    rw (edge-protect_providers name ps (if p == name then g else append_at g p name) x d)
      (ground (arith, contains-append_at g p x name d, ==_iff p name, ==_iff p x, ==_iff x name))

edge-protect_by :
    (name : Text) (ps : List Text) (g : Dict (List Text)) (x d : Text)
    → edge (protect_by name ps g) x d
      ≡ (edge g x d || (name == x && not (d == name) && contains ps d))
unfolding protect_by contains
edge-protect_by name [] g x d = ground arith
edge-protect_by name (p ∷ ps) g x d =
    rw (edge-protect_by name ps (if p == name then g else append_at g name p) x d)
      (ground (arith, contains-append_at g name x p d, ==_iff p name, ==_iff p d, ==_iff d name))

module _ (m : Dict (List Text)) where
  pub edge-link_forward :
      (name : Text) (caps : List Text) (g : Dict (List Text)) (x d : Text)
      → edge (link_forward m name caps g) x d
        ≡ (edge g x d || (name == d && not (x == name) && needs m caps x))
  unfolding link_forward
  edge-link_forward name [] g x d = ground arith
  edge-link_forward name (c ∷ caps) g x d =
      rw (edge-link_forward name caps (protect_providers name (get_list m c) g) x d)
        (ground (arith, edge-protect_providers name (get_list m c) g x d))

  edge-link_supplements :
      (name : Text) (caps : List Text) (g : Dict (List Text)) (x d : Text)
      → edge (link_supplements m name caps g) x d
        ≡ (edge g x d || (name == x && not (d == name) && needs m caps d))
  unfolding link_supplements
  edge-link_supplements name [] g x d = ground arith
  edge-link_supplements name (c ∷ caps) g x d =
      rw (edge-link_supplements name caps (protect_by name (get_list m c) g) x d)
        (ground (arith, edge-protect_by name (get_list m c) g x d))

  edge-link_package :
      (name : Text) (h : Header) (g : Dict (List Text)) (x d : Text)
      → edge (link_package m name h g) x d ≡ (edge g x d || protects m name h x d)
  unfolding link_package
  edge-link_package name h g x d = simp (edge-link_supplements, edge-link_forward) (ground arith)

  -- After the second pass `d` protects `x` exactly when the graph had the edge, or some package
  -- makes it one: a package other than `x`, named `d`, requires, recommends or suggests what `x`
  -- provides, or `x` supplements what the other package `d` provides.
  pub edge-link :
      (pkgs : Dict Header) (g : Dict (List Text)) (x d : Text)
      → edge (link m pkgs g) x d ≡ (edge g x d || any_protects m pkgs x d)
  unfolding link
  edge-link [] g x d = ground arith
  edge-link ((name, h) ∷ pkgs) g x d =
      rw (edge-link pkgs (link_package m name h g) x d, edge-link_package name h g x d)
        (ground arith)

abbrev pub no_tables : Tables
no_tables = record { installed = []; provides_map = []; reverse_deps = [] }

-- the tables after the first pass over the whole database
unfoldable pub scan : List Header → Tables
unfolding register
scan db = register no_tables db

-- `reverse_deps` after both passes
unfoldable pub reverse_graph : List Header → Dict (List Text)
unfolding scan
reverse_graph db = let t = scan db in link t.provides_map t.installed t.reverse_deps

edge-register :
    (db : List Header) (t : Tables) (x d : Text)
    → edge t.reverse_deps x d ≡ false
    → edge (register t db).reverse_deps x d ≡ false
unfolding register
edge-register [] t x d h = h
edge-register (hdr ∷ hdrs) t x d h =
    edge-register hdrs (register_header t hdr) x d
      (unfold get_list contains in ground (arith, h, get-put t.reverse_deps hdr.name x []))

pub edge-scan : (db : List Header) (x d : Text) → edge (scan db).reverse_deps x d ≡ false
unfolding scan get_list get contains
edge-scan db x d = edge-register db no_tables x d refl
