-- ===== src/Orphans/Erase.antt =====
-- `find_erase_orphans` of urpm/core/resolution/orphans.py: the packages that an erase of
-- `erase_names` leaves without use. Sets are visited in list order, so that `next(iter(s))` is the
-- first of a list. The dependency kinds of `cap_needed_by`, the blockers and the log are left out.
pub mod Tables
pub mod Closure
pub mod Settled
pub mod Useless
pub mod Names
pub mod Offers
pub mod Pulled
pub mod Correct
pub mod Result
mod Tests
use urpm_ng.Base.{
  Bool, Dict, List, Text, Option, none, some, add, any, break_at, codes, contains, discard, get,
  get_list, if◌then◌else◌, is_empty, keys, length, lower, not, put, select, sorted, update, zero,
  suc, ℕ, [], ◌∷◌, ◌++◌, ◌==◌, ◌||◌, ◌&&◌, ◌+◌, true, false, map,
}
use urpm_ng.Orphans.Rpmdb.{Header, PackageAction, removal, is_package_cap, add_provides}
use urpm_ng.Orphans.All.{Tracked}

-- the text before the first `[`
unfoldable pub extract_cap_name : Text → Text
extract_cap_name cap = elim (break_at b'[' cap) [ none ↦ cap | some (name, _) ↦ name ]

-- the sets of capabilities that are built from a header's tags
abbrev pub cap_set : List Text → List Text
cap_set caps = update [] (map extract_cap_name caps)

abbrev pub package_caps : List Text → List Text
package_caps caps = cap_set (select is_package_cap caps)

-- `pkg_headers`, `cap_to_pkg` and `name_to_original`. `all_installed` has the keys of the first;
-- `pkg_provides` and its like are written with it, so they are read from the header.
pub record Index : Type 0 where
  pub headers : Dict Header
  pub cap_to_pkg : Dict (List Text)
  pub name_to_original : Dict Text

unfoldable pub index_header : Index → Header → Index
unfolding add_provides
index_header idx hdr = if hdr.name == codes "gpg-pubkey" then idx else record {
  headers = put idx.headers hdr.name hdr;
  cap_to_pkg = add_provides hdr.name (cap_set hdr.provides) idx.cap_to_pkg;
  name_to_original = put idx.name_to_original (lower hdr.name) hdr.name;
}

unfoldable pub index_headers : Index → List Header → Index
index_headers idx [] = idx
index_headers idx (hdr ∷ hdrs) = index_headers (index_header idx hdr) hdrs

abbrev pub no_index : Index
no_index = record { headers = []; cap_to_pkg = []; name_to_original = [] }

unfoldable pub index : List Header → Index
index db = index_headers no_index db

-- the options that say which weak dependencies keep a package
pub record Options : Type 0 where
  pub erase_recommends : Bool
  pub keep_suggests : Bool

-- `pkg_provides.get(name, set())` and its like
unfoldable pub caps_of : (Header → List Text) → Dict Header → Text → List Text
caps_of tag headers name = elim (get headers name) [ none ↦ [] | some h ↦ tag h ]

abbrev pub provides_of : Header → List Text
provides_of h = cap_set h.provides

abbrev pub requires_of : Header → List Text
requires_of h = package_caps h.requires

abbrev pub recommends_of : Header → List Text
recommends_of h = package_caps h.recommends

abbrev pub suggests_of : Header → List Text
suggests_of h = package_caps h.suggests

abbrev pub supplements_of : Header → List Text
supplements_of h = package_caps h.supplements

-- the capabilities that keep their provider while the package stays
abbrev pub needs_of : Options → Header → List Text
needs_of o h =
    requires_of h
    ++ (if o.erase_recommends then [] else recommends_of h)
    ++ (if o.keep_suggests then suggests_of h else [])

-- `cap_needed_by` and `cap_supplemented_by`: who mentions a capability under a tag
unfoldable pub mentions : (Header → List Text) → Dict Header → Dict (List Text) → Dict (List Text)
unfolding add_provides
mentions tag [] m = m
mentions tag ((name, h) ∷ headers) m = mentions tag headers (add_provides name (tag h) m)

-- the members of `dep_tree`, and the stack `to_process`, whose top is the head
pub record Tree : Type 0 where
  pub dep_tree : List Text
  pub to_process : List Text

unfoldable pub visit : Tree → Text → Tree
visit t dep =
    if contains t.dep_tree dep
    then t
    else record { dep_tree = add t.dep_tree dep; to_process = dep ∷ t.to_process }

unfoldable pub visit_all : Tree → List Text → Tree
unfolding visit
visit_all t [] = t
visit_all t (dep ∷ deps) = visit_all (visit t dep) deps

-- `deps.add(provider)`, where there is one that is not the package itself
abbrev pub dep_added : Text → Option Text → List Text → List Text
dep_added name none deps = deps
dep_added name (some p) deps = if not (is_empty p) && not (p == name) then add deps p else deps

-- `erase_set_original.add(orig)`, where there is one
abbrev pub original_added : Option Text → List Text → List Text
original_added none s = s
original_added (some orig) s = if is_empty orig then s else add s orig

module _ (idx : Index) where
  -- `resolve_cap_to_pkg`
  unfoldable pub resolve_cap_to_pkg : Text → Option Text
  resolve_cap_to_pkg cap = elim (get_list idx.cap_to_pkg cap) [ [] ↦ none | p ∷ _ ↦ some p ]

  unfoldable pub collect_deps : Text → List Text → List Text → List Text
  unfolding resolve_cap_to_pkg
  collect_deps name [] deps = deps
  collect_deps name (cap ∷ caps) deps =
      collect_deps name caps (dep_added name (resolve_cap_to_pkg cap) deps)

  unfoldable pub get_all_deps : Text → List Text
  unfolding collect_deps caps_of
  get_all_deps name =
      collect_deps name (caps_of recommends_of idx.headers name)
        (collect_deps name (caps_of requires_of idx.headers name) [])

  -- the packages that supplement a capability of `name`
  unfoldable pub supplementers : Dict (List Text) → List Text → List Text
  supplementers by_cap [] = []
  supplementers by_cap (cap ∷ caps) = get_list by_cap cap ++ supplementers by_cap caps

  abbrev pub cap_supplemented_by : Dict (List Text)
  cap_supplemented_by = mentions supplements_of idx.headers []

  -- what the body of the `while` loop visits from `name`
  unfoldable pub neighbours : Text → List Text
  unfolding supplementers caps_of mentions
  neighbours name =
      get_all_deps name ++ supplementers cap_supplemented_by (caps_of provides_of idx.headers name)

  unfoldable pub grow : ℕ → Tree → Tree
  unfolding visit_all
  grow zero t = t
  grow (suc fuel) t = elim t.to_process [
    | [] ↦ t
    | name ∷ rest ↦ grow fuel (visit_all (record t { to_process = rest }) (neighbours name))
  ]

  -- `erase_set_original`
  unfoldable pub originals : List Text → List Text → List Text
  originals s [] = s
  originals s (name ∷ names) =
      originals (original_added (get idx.name_to_original (lower name)) s) names

  -- a package is processed once
  abbrev pub grow_fuel : List Text → ℕ
  grow_fuel erased = length (keys idx.headers) + length erased

  unfoldable pub dep_tree_of : List Text → List Text
  unfolding grow
  dep_tree_of erased =
      (grow (grow_fuel erased) (record { dep_tree = erased; to_process = erased })).dep_tree

-- `candidates` and `candidates_lower`
pub record Candidates : Type 0 where
  pub candidates : List Text
  pub candidates_lower : List Text

-- `candidates_lower.remove` raises on an absent name, which is `none`
unfoldable pub keep : Candidates → Text → Option Candidates
keep pool name =
    if contains pool.candidates_lower (lower name)
    then some (record {
      candidates = discard pool.candidates name;
      candidates_lower = discard pool.candidates_lower (lower name);
    })
    else none

module _ (idx : Index) (o : Options) (erased : List Text) where
  abbrev pub cap_needed_by : Dict (List Text)
  cap_needed_by = mentions (needs_of o) idx.headers []

  abbrev pub stays : Candidates → Text → Bool
  stays pool p = not (contains pool.candidates_lower (lower p))

  -- a package that stays needs `cap` of `name`, and no other provider stays
  unfoldable pub blocks : Candidates → Text → Text → Text → Bool
  blocks pool name cap dependent =
      not (dependent == name)
      && stays pool dependent
      && is_empty (select (λ p. not (p == name) && stays pool p) (get_list idx.cap_to_pkg cap))

  unfoldable pub is_needed : Candidates → Text → Bool
  unfolding blocks caps_of mentions
  is_needed pool name =
      any (λ cap. any (blocks pool name cap) (get_list cap_needed_by cap))
        (caps_of provides_of idx.headers name)

  unfoldable pub is_anchored : Candidates → Text → Bool
  unfolding caps_of
  is_anchored pool name =
      any (λ cap. not (is_empty (select (stays pool) (get_list idx.cap_to_pkg cap))))
        (caps_of supplements_of idx.headers name)

  abbrev pub dominated : Candidates → Text → Bool
  dominated pool name = is_needed pool name || is_anchored pool name

  -- the `for` loop over `sorted(candidates)`, with `changed`
  unfoldable pub pass : Candidates → Bool → List Text → Option (Candidates × Bool)
  unfolding keep is_needed is_anchored
  pass pool changed [] = some (pool, changed)
  pass pool changed (name ∷ names) =
      let same = pass pool changed names in
      if contains erased name
      then same
      else if dominated pool name
      then elim (keep pool name) [ none ↦ none | some pool' ↦ pass pool' true names ]
      else same

  unfoldable pub settle : ℕ → Candidates → Option Candidates
  unfolding pass
  settle zero pool = some pool
  settle (suc fuel) pool = elim (pass pool false (sorted pool.candidates)) [
    | none ↦ none
    | some (pool', changed) ↦ if changed then settle fuel pool' else some pool'
  ]

-- the packages of the tree that were installed as dependencies
unfoldable pub select_unrequested : List Text → List Text → List Text → List Text
select_unrequested unrequested s [] = s
select_unrequested unrequested s (name ∷ names) =
    select_unrequested unrequested (if contains unrequested (lower name) then add s name else s)
      names

-- the list of actions, without the packages that were named
unfoldable pub erase_actions : Dict Header → List Text → List Text → List PackageAction
unfolding removal
erase_actions headers named [] = []
erase_actions headers named (name ∷ names) =
    let rest = erase_actions headers named names in
    if contains named (lower name)
    then rest
    else elim (get headers name) [ none ↦ rest | some h ↦ removal name h ∷ rest ]

-- the unrequested packages that are not build dependencies
abbrev pub unrequested_only : Tracked → List Text
unrequested_only t = select (λ x. not (contains (keys t.builddeps) x)) t.unrequested

abbrev pub pool_of : List Text → Candidates
pool_of names = record { candidates = names; candidates_lower = update [] (map lower names) }

-- the pool that the loop starts with
unfoldable pub first_pool : Index → List Text → List Text → Candidates
unfolding select_unrequested dep_tree_of
first_pool idx erased unrequested =
    pool_of (select_unrequested unrequested erased (dep_tree_of idx erased))

-- the packages that leave, those that were named included; `none` where the code raises
unfoldable pub find_erased : List Header → Tracked → Options → List Text → Option Candidates
unfolding settle originals first_pool index
find_erased db tracked o erase_names =
    let idx = index db in
    let erased = originals idx [] erase_names in
    let pool = first_pool idx erased (unrequested_only tracked) in
    settle idx o erased (suc (length pool.candidates)) pool

unfoldable pub find_erase_orphans :
    List Header → Tracked → Options → List Text → Option (List PackageAction)
unfolding find_erased erase_actions
find_erase_orphans db tracked o erase_names = elim (find_erased db tracked o erase_names) [
  | none ↦ none
  | some pool ↦ some (erase_actions (index db).headers (map lower erase_names) pool.candidates)
]
