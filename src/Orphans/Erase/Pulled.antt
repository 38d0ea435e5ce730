-- ===== src/Orphans/Erase/Pulled.antt =====
-- `dep_tree` of `find_erase_orphans` (urpm/core/resolution/orphans.py) in terms of the headers.
use urpm_ng.Base.{
  Option-cases, inl, inr, Bool, Dict, List, Option, none, some, Text, any, ap, contains,
  contains-add, contains-append, get, is_empty, map, not, select, [], ◌∷◌, ◌==◌, ◌≡◌, ◌||◌, ◌&&◌,
  ◌∙◌, arith, ==_iff, refl, true, false, sym,
}
use urpm_ng.Orphans.Rpmdb.{Header, is_package_cap}
use urpm_ng.Orphans.Headers.{any-ext, any-package_caps, is_on_package, last_of}
use urpm_ng.Orphans.Erase.{
  Index, cap_set, cap_supplemented_by, caps_of, collect_deps, dep_added, extract_cap_name,
  get_all_deps, index, neighbours, package_caps, provides_of, recommends_of, requires_of,
  resolve_cap_to_pkg, supplementers, supplements_of,
}
use urpm_ng.Orphans.Erase.Tables.{contains-mentions}
use urpm_ng.Orphans.Erase.Closure.{IsPulled, along, contains-supplementers, origin}
use urpm_ng.Orphans.Erase.Offers.{
  any-update, contains-package_caps, first_offer, get-index, has_tag-index, holds_of,
  names_package_cap, resolve-index,
}

-- the provider, if there is one, is `x` and not `y`; an empty name is no provider
abbrev pub is_other : Option Text → Text → Text → Bool
is_other none y x = false
is_other (some p) y x = not (is_empty p) && not (p == y) && p == x

-- the first provider of `c` in the database is `x`
abbrev pub takes : List Header → Text → Text → Text → Bool
takes db y x c = is_other (first_offer db c) y x

-- the last package named `x` supplements `c`
abbrev pub supplements_cap : List Header → Text → Text → Bool
supplements_cap db x c = holds_of (last_of db x) (λ h. names_package_cap h.supplements c)

-- `y` pulls `x` along: `x` is the first provider of a capability that the last package named `y`
-- requires or recommends, those on rpmlib and on files left out, or `x` supplements a capability
-- that it provides
abbrev pub pulls : List Header → Text → Text → Bool
pulls db y x = holds_of (last_of db y) (λ h.
    any (λ r. is_on_package r && takes db y x (extract_cap_name r)) h.requires
    || any (λ r. is_on_package r && takes db y x (extract_cap_name r)) h.recommends
    || any (λ r. supplements_cap db x (extract_cap_name r)) h.provides)

-- the packages that are reached from those in `named`
pub data IsReached (db : List Header) (named : Text → Bool) : Text → Type 0 where
  start : {x : Text} → named x ≡ true → IsReached db named x
  next : {x : Text} (y : Text) → IsReached db named y → pulls db y x ≡ true → IsReached db named x

any-map-extract :
    (p : Text → Bool) (caps : List Text)
    → any p (map extract_cap_name caps) ≡ any (λ r. p (extract_cap_name r)) caps
any-map-extract p [] = refl
any-map-extract p (c ∷ caps) = let rest = any-map-extract p caps in ground arith

any-cap_set :
    (p : Text → Bool) (caps : List Text)
    → any p (cap_set caps) ≡ any (λ r. p (extract_cap_name r)) caps
any-cap_set p caps = any-update p [] (map extract_cap_name caps) ∙ any-map-extract p caps

any-package_cap_set :
    (p : Text → Bool) (caps : List Text)
    → any p (package_caps caps) ≡ any (λ r. is_on_package r && p (extract_cap_name r)) caps
any-package_cap_set p caps =
    any-cap_set p (select is_package_cap caps) ∙ any-package_caps (λ r. p (extract_cap_name r)) caps

contains-dep_added :
    (y x : Text) (o : Option Text) (deps : List Text)
    → contains (dep_added y o deps) x ≡ (contains deps x || is_other o y x)
contains-dep_added y x none deps = ground arith
contains-dep_added y x (some p) deps =
    let here = contains-add deps p x in let e = ==_iff p x in ground arith

contains-collect_deps :
    (idx : Index) (y x : Text) (caps deps : List Text)
    → contains (collect_deps idx y caps deps) x
      ≡ (contains deps x || any (λ c. is_other (resolve_cap_to_pkg idx c) y x) caps)
unfolding collect_deps
contains-collect_deps idx y x [] deps = ground arith
contains-collect_deps idx y x (c ∷ caps) deps =
    let here = contains-dep_added y x (resolve_cap_to_pkg idx c) deps in
    contains-collect_deps idx y x caps (dep_added y (resolve_cap_to_pkg idx c) deps)
    ∙ rw here (ground arith)

any-caps_of :
    (tag : Header → List Text) (headers : Dict Header) (y : Text) (p : Text → Bool)
    → any p (caps_of tag headers y) ≡ holds_of (get headers y) (λ h. any p (tag h))
unfolding caps_of
any-caps_of tag headers y p = same (get headers y)
  where
    same :
        (o : Option Header)
        → any p (elim o as (λ _. List Text) [ none ↦ [] | some h ↦ tag h ])
          ≡ holds_of o (λ h. any p (tag h))
    same none = refl
    same (some h) = refl

module _ (db : List Header) (y x : Text) where
  deps_of-pulls :
      (tag : Header → List Text) (raw : Header → List Text)
      → ((h : Header) → tag h ≡ package_caps (raw h))
      → any (λ c. is_other (resolve_cap_to_pkg (index db) c) y x) (caps_of tag (index db).headers y)
        ≡ holds_of
            (last_of db y)
            (λ h. any (λ r. is_on_package r && takes db y x (extract_cap_name r)) (raw h))
  deps_of-pulls tag raw same =
      any-caps_of tag (index db).headers y (λ c. is_other (resolve_cap_to_pkg (index db) c) y x)
      ∙ ap
          (λ o. holds_of o (λ h. any (λ c. is_other (resolve_cap_to_pkg (index db) c) y x) (tag h)))
          (get-index db y)
      ∙ each (last_of db y)
    where
      each :
          (o : Option Header)
          → holds_of o (λ h. any (λ c. is_other (resolve_cap_to_pkg (index db) c) y x) (tag h))
            ≡ holds_of o
                (λ h. any (λ r. is_on_package r && takes db y x (extract_cap_name r)) (raw h))
      each none = refl
      each (some h) =
          any-ext _ (takes db y x) (tag h) (λ c. ap (λ o. is_other o y x) (resolve-index db c))
          ∙ ap (any (takes db y x)) (same h)
          ∙ any-package_cap_set (takes db y x) (raw h)

  supplementers-pulls :
      contains
        (supplementers
          (index db)
          (cap_supplemented_by (index db))
          (caps_of provides_of (index db).headers y))
        x
      ≡ holds_of
          (last_of db y)
          (λ h. any (λ r. supplements_cap db x (extract_cap_name r)) h.provides)
  supplementers-pulls =
      contains-supplementers (index db) (cap_supplemented_by (index db))
        (caps_of provides_of (index db).headers y) x
      ∙ any-ext _ (supplements_cap db x) (caps_of provides_of (index db).headers y) (λ c.
        contains-mentions supplements_of (index db).headers c x
        ∙ has_tag-index supplements_of db c x
        ∙ each c (last_of db x))
      ∙ any-caps_of provides_of (index db).headers y (supplements_cap db x)
      ∙ ap (λ o. holds_of o (λ h. any (supplements_cap db x) (provides_of h))) (get-index db y)
      ∙ all (last_of db y)
    where
      each :
          (c : Text) (o : Option Header)
          → holds_of o (λ h. contains (supplements_of h) c)
            ≡ holds_of o (λ h. names_package_cap h.supplements c)
      each c none = refl
      each c (some h) = contains-package_caps h.supplements c

      all :
          (o : Option Header)
          → holds_of o (λ h. any (supplements_cap db x) (provides_of h))
            ≡ holds_of o (λ h. any (λ r. supplements_cap db x (extract_cap_name r)) h.provides)
      all none = refl
      all (some h) = any-cap_set (supplements_cap db x) h.provides

  pub neighbours-pulls : contains (neighbours (index db) y) x ≡ pulls db y x
  unfolding neighbours get_all_deps contains
  neighbours-pulls =
      contains-append (get_all_deps (index db) y)
        (supplementers (index db) (cap_supplemented_by (index db))
          (caps_of provides_of (index db).headers y))
        x
      ∙ rw
          (
            contains-collect_deps (index db) y x (caps_of recommends_of (index db).headers y)
                (collect_deps (index db) y (caps_of requires_of (index db).headers y) []),
            contains-collect_deps (index db) y x (caps_of requires_of (index db).headers y) [],
            deps_of-pulls requires_of (λ h. h.requires) (λ h. refl),
            deps_of-pulls recommends_of (λ h. h.recommends) (λ h. refl),
            supplementers-pulls,
          )
          (elim (Option-cases (last_of db y)) [
            | inl e ↦ rw e refl
            | inr (h, e) ↦ rw e (ground arith)
          ])

pub IsPulled-IsReached :
    (db : List Header) (erased : List Text) (named : Text → Bool)
    → ((y : Text) → contains erased y ≡ named y)
    → (x : Text) → IsPulled (index db) erased x
    → IsReached db named x
IsPulled-IsReached db erased named same x (origin h) = start (sym (same x) ∙ h)
IsPulled-IsReached db erased named same x (along y p h) =
    next y (IsPulled-IsReached db erased named same y p) (sym (neighbours-pulls db y x) ∙ h)
