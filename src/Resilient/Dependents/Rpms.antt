-- ===== src/Resilient/Dependents/Rpms.antt =====
-- What the files of a transaction say of one another, and the tables of `find_dependents`
-- (urpm/core/resilient_install.py).
use urpm_ng.Base.{
  Bool, Bool-cases, Dict, List, Option, Option-cases, none, some, Text, add, any, codes, contains,
  contains-update, get, get-put, get_list, if◌then◌else◌, keys, not, select, starts_with, unique,
  update, [], ◌∷◌, ◌++◌, ◌==◌, ◌||◌, ◌&&◌, ◌≡◌, ◌∙◌, arith, ==_iff, false, true, refl, inl, inr,
  sym, ap,
}
use urpm_ng.Orphans.Graph.{needs}
use urpm_ng.Orphans.Headers.{
  any-ext, contains-add_provides, contains-keys-put, get-absent, unique-keys-put,
}
use urpm_ng.Orphans.Rpmdb.{Header}
use urpm_ng.Resilient.Dependents.{Maps, is_outer, map_header, map_headers, no_maps}

-- a file of that name can be read
abbrev pub is_named : Text → Option Header → Bool
is_named n none = false
is_named n (some h) = h.name == n

abbrev pub has_rpm : List (Option Header) → Text → Bool
has_rpm rpms n = any (is_named n) rpms

-- a file gives a capability to the package `x`: its name, or one that it provides
abbrev pub gives : Text → Text → Option Header → Bool
gives c x none = false
gives c x (some h) = h.name == x && (h.name == c || contains h.provides c)

abbrev pub has_giver : List (Option Header) → Text → Text → Bool
has_giver rpms c x = any (gives c x) rpms

-- the file of a name, unless there is a later one
abbrev pub last_or_rpm : Option Header → Text → Option Header → Option Header
last_or_rpm o n (some later) = some later
last_or_rpm none n none = none
last_or_rpm (some h) n none = if h.name == n then some h else none

abbrev pub last_rpm : List (Option Header) → Text → Option Header
last_rpm [] n = none
last_rpm (o ∷ os) n = last_or_rpm o n (last_rpm os n)

-- a requirement that is met by packages
abbrev pub is_for_package : Text → Bool
is_for_package r = not (starts_with r (codes "rpmlib(")) && not (starts_with r (codes "config("))

abbrev pub requires_of_rpm : List (Option Header) → Option Header → Text → Bool
requires_of_rpm rpms none x = false
requires_of_rpm rpms (some h) x = any (λ r. is_for_package r && has_giver rpms r x) h.requires

-- `d` requires what `x`, another package, gives
abbrev pub requires_in : List (Option Header) → Text → Text → Bool
requires_in rpms d x = not (x == d) && requires_of_rpm rpms (last_rpm rpms d) x

any-contains :
    (p : Text → Bool) (xs : List Text) (x : Text)
    → contains xs x ≡ true
    → p x ≡ true
    → any p xs ≡ true
unfolding contains
any-contains p [] x h hx = cc
any-contains p (y ∷ ys) x h hx = elim (Bool-cases (y == x)) [
  | inl e ↦ let here : p y ≡ true = ap p ((==_iff y x).0 e) ∙ hx in ground arith
  | inr ne ↦ let rest = any-contains p ys x (ground arith) hx in ground arith
]

any-snoc : (p : Text → Bool) (xs : List Text) (x : Text) → any p (xs ++ x ∷ []) ≡ (any p xs || p x)
any-snoc p [] x = ground arith
any-snoc p (y ∷ ys) x = ground (arith, any-snoc p ys x)

any-add : (p : Text → Bool) (xs : List Text) (x : Text) → any p (add xs x) ≡ (any p xs || p x)
unfolding add
any-add p xs x =
    let more = any-snoc p xs x in
    let old = any-contains p xs x in
    elim (Bool-cases (contains xs x)) [ inl e ↦ ground arith | inr ne ↦ ground arith ]

any-update : (p : Text → Bool) (xs ys : List Text) → any p (update xs ys) ≡ (any p xs || any p ys)
unfolding update
any-update p xs [] = ground arith
any-update p xs (y ∷ ys) =
    let rest = any-update p (add xs y) ys in let here = any-add p xs y in ground arith

-- the requirements that the table keeps of a header
abbrev entry_of : Option Header → Option (List Text) → Option (List Text)
entry_of none old = old
entry_of (some h) old = some (update [] (select is_outer h.requires))

get-map_header :
    (m : Maps) (o : Option Header) (hs : List (Option Header)) (n : Text)
    → entry_of (last_rpm hs n) (get (map_header m o).pkg_requires n)
      ≡ entry_of (last_rpm (o ∷ hs) n) (get m.pkg_requires n)
unfolding map_header
get-map_header m none hs n = elim (Option-cases (last_rpm hs n)) [
  | inl e ↦ ground arith
  | inr (h, e) ↦ ground arith
]
get-map_header m (some h) hs n =
    let here = get-put m.pkg_requires h.name n (update [] (select is_outer h.requires)) in
    elim (Option-cases (last_rpm hs n)) [ inl e ↦ ground arith | inr (later, e) ↦ ground arith ]

get-map_headers :
    (hs : List (Option Header)) (m : Maps) (n : Text)
    → get (map_headers m hs).pkg_requires n ≡ entry_of (last_rpm hs n) (get m.pkg_requires n)
unfolding map_headers
get-map_headers [] m n = refl
get-map_headers (o ∷ hs) m n = get-map_headers hs (map_header m o) n ∙ get-map_header m o hs n

keys-map_headers :
    (hs : List (Option Header)) (m : Maps) (n : Text)
    → contains (keys (map_headers m hs).pkg_requires) n
      ≡ (contains (keys m.pkg_requires) n || has_rpm hs n)
unfolding map_headers map_header
keys-map_headers [] m n = ground arith
keys-map_headers (none ∷ hs) m n = keys-map_headers hs m n ∙ ground arith
keys-map_headers (some h ∷ hs) m n =
    let rest = keys-map_headers hs (map_header m (some h)) n in
    let here = contains-keys-put m.pkg_requires h.name n (update [] (select is_outer h.requires)) in
    ground arith

unique-map_headers :
    (hs : List (Option Header)) (m : Maps)
    → unique (keys m.pkg_requires) ≡ true
    → unique (keys (map_headers m hs).pkg_requires) ≡ true
unfolding map_headers map_header
unique-map_headers [] m u = u
unique-map_headers (none ∷ hs) m u = unique-map_headers hs m u
unique-map_headers (some h ∷ hs) m u =
    unique-map_headers hs (map_header m (some h))
      (unique-keys-put m.pkg_requires h.name (update [] (select is_outer h.requires)) u)

contains-named :
    (n : Text) (caps : List Text) (c : Text)
    → contains (update (n ∷ []) caps) c ≡ (n == c || contains caps c)
unfolding contains
contains-named n caps c = let both = contains-update (n ∷ []) caps c in ground arith

cap_providers-map_headers :
    (hs : List (Option Header)) (m : Maps) (c x : Text)
    → contains (get_list (map_headers m hs).cap_providers c) x
      ≡ (contains (get_list m.cap_providers c) x || has_giver hs c x)
unfolding map_headers map_header
cap_providers-map_headers [] m c x = ground arith
cap_providers-map_headers (none ∷ hs) m c x = cap_providers-map_headers hs m c x ∙ ground arith
cap_providers-map_headers (some h ∷ hs) m c x =
    let rest = cap_providers-map_headers hs (map_header m (some h)) c x in
    let added =
      contains-add_provides h.name (update (h.name ∷ []) h.provides) m.cap_providers c x in
    let named = contains-named h.name h.provides c in ground arith

any-outer :
    (p : Text → Bool) (reqs : List Text)
    → any p (select is_outer reqs) ≡ any (λ r. is_for_package r && p r) reqs
any-outer p [] = refl
any-outer p (r ∷ reqs) = let rest = any-outer p reqs in ground arith

module _ (rpms : List (Option Header)) where
  abbrev maps : Maps
  maps = map_headers no_maps rpms

  abbrev needs_entry : Option (List Text) → Text → Bool
  needs_entry none x = false
  needs_entry (some caps) x = needs maps.cap_providers caps x

  gives-maps : (c x : Text) → contains (get_list maps.cap_providers c) x ≡ has_giver rpms c x
  gives-maps c x = cap_providers-map_headers rpms no_maps c x ∙ unfold get_list get contains in refl

  get-maps : (n : Text) → get maps.pkg_requires n ≡ entry_of (last_rpm rpms n) none
  get-maps n = get-map_headers rpms no_maps n ∙ unfold get in refl

  needs-entry_of :
      (o : Option Header) (x : Text) → needs_entry (entry_of o none) x ≡ requires_of_rpm rpms o x
  needs-entry_of none x = refl
  needs-entry_of (some h) x =
      any-ext (λ c. contains (get_list maps.cap_providers c) x) (λ c. has_giver rpms c x)
        (update [] (select is_outer h.requires)) (λ c. gives-maps c x)
      ∙ any-update (λ c. has_giver rpms c x) [] (select is_outer h.requires)
      ∙ any-outer (λ c. has_giver rpms c x) h.requires

  pub keys-maps : (n : Text) → contains (keys maps.pkg_requires) n ≡ has_rpm rpms n
  keys-maps n = keys-map_headers rpms no_maps n ∙ unfold contains in refl

  -- a table of unique names has one entry for a package
  any-entries :
      (pkgs : Dict (List Text)) (d x : Text)
      → unique (keys pkgs) ≡ true
      → any
          (λ (e : Text × List Text). e.0 == d && not (x == d) && needs maps.cap_providers e.1 x)
          pkgs
        ≡ (not (x == d) && needs_entry (get pkgs d) x)
  unfolding get
  any-entries [] d x u = ground arith
  any-entries ((n, caps) ∷ pkgs) d x u =
      let rest = any-entries pkgs d x (ground arith) in
      let gone : get pkgs n ≡ none = get-absent pkgs n (ground arith) in
      elim (Bool-cases (n == d)) [
        | inl a ↦
            let gone_d : get pkgs d ≡ none = ap (get pkgs) (sym ((==_iff n d).0 a)) ∙ gone in
            ground arith
        | inr a ↦ ground arith
      ]

  -- the tables say that `d` requires something of `x` exactly when the files do
  pub requires-maps :
      (d x : Text)
      → any
          (λ (e : Text × List Text). e.0 == d && not (x == d) && needs maps.cap_providers e.1 x)
          maps.pkg_requires
        ≡ requires_in rpms d x
  requires-maps d x =
      any-entries maps.pkg_requires d x (unique-map_headers rpms no_maps refl)
      ∙ ap (λ o. not (x == d) && needs_entry o x) (get-maps d)
      ∙ ap (λ b. not (x == d) && b) (needs-entry_of (last_rpm rpms d) x)
