-- ===== src/Orphans/Edges.antt =====
-- The edges of the graphs of urpm/core/resolution/orphans.py, in terms of the headers.
use urpm_ng.Base.{
  get, Bool, Dict, List, Option, none, some, Text, contains, get_list, if◌then◌else◌, keys, put,
  Bool-cases, Option-cases, inl, inr, select, [], ◌∷◌, ◌==◌, ◌&&◌, ◌||◌, not, ◌≡◌, arith, ==_iff,
  refl, true, false, unique, sym, ◌∙◌, ap,
}
use urpm_ng.Orphans.Rpmdb.{Header, is_package_cap}
use urpm_ng.Orphans.Graph.{
  Tables, any_protects, edge, edge-link, edge-scan, needs, no_tables, register, register_header,
  reverse_graph, scan,
}
use urpm_ng.Orphans.Ancestors.Kept.{IsKept}
use urpm_ng.Orphans.Headers.{
  any-ext, any-package_caps, contains-add_provides, get-absent, get-installed_after, gives_any,
  gives_package, has_package, has_provider, installed_after, is_installed, keys-installed_after,
  last_of, unique-installed_after,
}

installed-register_header :
    (t : Tables) (h : Header)
    → (register_header t h).installed
      ≡ (if is_installed h then put t.installed h.name h else t.installed)
unfolding register_header
installed-register_header t h = ground arith

installed-register :
    (db : List Header) (t : Tables) → (register t db).installed ≡ installed_after t.installed db
unfolding register installed_after
installed-register [] t = refl
installed-register (h ∷ hs) t =
    installed-register hs (register_header t h)
    ∙ ap (λ d. installed_after d hs) (installed-register_header t h)

provides_map-register_header :
    (t : Tables) (h : Header) (c x : Text)
    → contains (get_list (register_header t h).provides_map c) x ≡ (
        contains (get_list t.provides_map c) x
        || (is_installed h && (h.name == x && contains h.provides c)))
unfolding register_header
provides_map-register_header t h c x =
    let added = contains-add_provides h.name h.provides t.provides_map c x in ground arith

provides_map-register :
    (db : List Header) (t : Tables) (c x : Text)
    → contains (get_list (register t db).provides_map c) x
      ≡ (contains (get_list t.provides_map c) x || has_provider db c x)
unfolding register
provides_map-register [] t c x = ground arith
provides_map-register (h ∷ hs) t c x =
    let rest = provides_map-register hs (register_header t h) c x in
    let here = provides_map-register_header t h c x in ground arith

pub provides_map-scan :
    (db : List Header) (c x : Text)
    → contains (get_list (scan db).provides_map c) x ≡ has_provider db c x
unfolding scan
provides_map-scan db c x =
    provides_map-register db no_tables c x ∙ unfold get_list get contains in refl

installed-scan : (db : List Header) → (scan db).installed ≡ installed_after [] db
unfolding scan
installed-scan db = installed-register db no_tables

pub get-scan : (db : List Header) (n : Text) → get (scan db).installed n ≡ last_of db n
get-scan db n =
    ap (λ (d : Dict Header). get d n) (installed-scan db)
    ∙ get-installed_after db [] n
    ∙ (unfold get in
        elim (Option-cases (last_of db n)) [ inl e ↦ ground arith | inr (h, e) ↦ ground arith ])

pub keys-scan :
    (db : List Header) (n : Text) → contains (keys (scan db).installed) n ≡ has_package db n
keys-scan db n =
    ap (λ (d : Dict Header). contains (keys d) n) (installed-scan db)
    ∙ keys-installed_after db [] n
    ∙ unfold contains in refl

unique-scan : (db : List Header) → unique (keys (scan db).installed) ≡ true
unique-scan db =
    ap (λ (d : Dict Header). unique (keys d)) (installed-scan db)
    ∙ unique-installed_after db [] refl

-- what makes `d` a protector of `x`: another package that needs it, or one that it supplements
abbrev pub wants_of : List Header → Option Header → Text → Bool
wants_of db none x = false
wants_of db (some h) x =
    gives_package db h.requires x || gives_any db h.recommends x || gives_any db h.suggests x

abbrev pub joins_of : List Header → Option Header → Text → Bool
joins_of db none d = false
joins_of db (some h) d = gives_any db h.supplements d

abbrev pub protects_in : List Header → Text → Text → Bool
protects_in db x d = not (x == d) && (wants_of db (last_of db d) x || joins_of db (last_of db x) d)

module _ (m : Dict (List Text)) where
  abbrev wants : Option Header → Text → Bool
  wants none x = false
  wants (some h) x =
      needs m (select is_package_cap h.requires) x || needs m h.recommends x || needs m h.suggests x

  abbrev joins : Option Header → Text → Bool
  joins none d = false
  joins (some h) d = needs m h.supplements d

  -- a table of unique names has one entry for each of the two packages
  any_protects-get :
      (pkgs : Dict Header) (x d : Text)
      → unique (keys pkgs) ≡ true
      → any_protects m pkgs x d ≡ (not (x == d) && (wants (get pkgs d) x || joins (get pkgs x) d))
  unfolding get
  any_protects-get [] x d u = ground arith
  any_protects-get ((n, h) ∷ pkgs) x d u =
      let rest = any_protects-get pkgs x d (ground arith) in
      let gone : get pkgs n ≡ none = get-absent pkgs n (ground arith) in
      let name_d = ==_iff n d in
      let name_x = ==_iff n x in
      let same = ==_iff x d in
      let flip = ==_iff d n in
      let flip_x = ==_iff x n in
      elim (Bool-cases (n == d)) [
        | inl a ↦
            let gone_d : get pkgs d ≡ none = ap (get pkgs) (sym (name_d.0 a)) ∙ gone in
            elim (Bool-cases (n == x)) [ inl b ↦ ground arith | inr b ↦ ground arith ]
        | inr a ↦ elim (Bool-cases (n == x)) [
          | inl b ↦
              let gone_x : get pkgs x ≡ none = ap (get pkgs) (sym (name_x.0 b)) ∙ gone in
              ground arith
          | inr b ↦ ground arith
        ]
      ]

module _ (db : List Header) where
  pub needs-gives_any :
      (caps : List Text) (x : Text) → needs (scan db).provides_map caps x ≡ gives_any db caps x
  needs-gives_any caps x = any-ext _ _ caps (λ c. provides_map-scan db c x)

  pub needs-gives_package :
      (caps : List Text) (x : Text)
      → needs (scan db).provides_map (select is_package_cap caps) x ≡ gives_package db caps x
  needs-gives_package caps x =
      needs-gives_any (select is_package_cap caps) x
      ∙ any-package_caps (λ c. has_provider db c x) caps

  wants-wants_of :
      (o : Option Header) (x : Text) → wants (scan db).provides_map o x ≡ wants_of db o x
  wants-wants_of none x = refl
  wants-wants_of (some h) x =
      let a = needs-gives_package h.requires x in
      let b = needs-gives_any h.recommends x in
      let c = needs-gives_any h.suggests x in rw (a, b, c) refl

  joins-joins_of :
      (o : Option Header) (d : Text) → joins (scan db).provides_map o d ≡ joins_of db o d
  joins-joins_of none d = refl
  joins-joins_of (some h) d = needs-gives_any h.supplements d

  -- The graph for a database says that `d` protects `x`, another package, exactly when the last
  -- header named `d` requires, recommends or suggests a capability that some package named `x`
  -- provides (a requirement on rpmlib or on a file does not count), or the last header named `x`
  -- supplements a capability that some package named `d` provides.
  pub edge-reverse_graph : (x d : Text) → edge (reverse_graph db) x d ≡ protects_in db x d
  unfolding reverse_graph
  edge-reverse_graph x d =
      let t = scan db in
      edge-link t.provides_map t.installed t.reverse_deps x d
      ∙ ap (λ b. b || any_protects t.provides_map t.installed x d) (edge-scan db x d)
      ∙ any_protects-get t.provides_map t.installed x d (unique-scan db)
      ∙ ap
          (λ o.
            not (x == d)
            && (wants t.provides_map o x || joins t.provides_map (get t.installed x) d))
          (get-scan db d)
      ∙ ap
          (λ o. not (x == d) && (wants t.provides_map (last_of db d) x || joins t.provides_map o d))
          (get-scan db x)
      ∙ ap (λ b. not (x == d) && (b || joins t.provides_map (last_of db x) d))
          (wants-wants_of (last_of db d) x)
      ∙ ap (λ b. not (x == d) && (wants_of db (last_of db d) x || b))
          (joins-joins_of (last_of db x) d)

-- `n` is tied to a package that `keeps` accepts, by any number of steps; `step x d` says that `d`
-- protects `x`
pub data IsTied (step : Text → Text → Bool) (keeps : Text → Bool) : Text → Type 0 where
  direct : {n : Text} (d : Text) → step n d ≡ true → keeps d ≡ true → IsTied step keeps n
  through : {n : Text} (d : Text) → step n d ≡ true → IsTied step keeps d → IsTied step keeps n

module _ (graph : Dict (List Text)) (step : Text → Text → Bool) (keeps : Text → Bool)
    (same : (x d : Text) → edge graph x d ≡ step x d) where
  pub IsKept-IsTied : (n : Text) → IsKept graph keeps n → IsTied step keeps n
  IsKept-IsTied n (IsKept.direct d e k) = direct d (sym (same n d) ∙ e) k
  IsKept-IsTied n (IsKept.through d e k) = through d (sym (same n d) ∙ e) (IsKept-IsTied d k)

  pub IsTied-IsKept : (n : Text) → IsTied step keeps n → IsKept graph keeps n
  IsTied-IsKept n (direct d e k) = IsKept.direct d (same n d ∙ e) k
  IsTied-IsKept n (through d e k) = IsKept.through d (same n d ∙ e) (IsTied-IsKept d k)
