-- ===== src/Resilient/Dependents.antt =====
-- `find_dependents` of urpm/core/resilient_install.py. A file whose header cannot be read is
-- `none`. A queue is a list, taken from the front; its fuel counts the rounds.
pub mod Rpms
pub mod Correct
use urpm_ng.Base.{
  Bool, Dict, List, Option, none, some, Text, add, append_at, codes, contains, get_list,
  if◌then◌else◌, is_empty, keys, length, not, put, select, starts_with, update, zero, suc, ℕ, [],
  ◌∷◌, ◌++◌, ◌+◌, ◌==◌, ◌||◌, ◌&&◌, false, true,
}
use urpm_ng.Orphans.Graph.{link_forward}
use urpm_ng.Orphans.Rpmdb.{Header, add_provides}

-- `pkg_requires` and `cap_providers`
pub record Maps : Type 0 where
  pub pkg_requires : Dict (List Text)
  pub cap_providers : Dict (List Text)

abbrev pub is_outer : Text → Bool
is_outer req = not (starts_with req (codes "rpmlib(") || starts_with req (codes "config("))

-- the package's name is one of its provides
unfoldable pub map_header : Maps → Option Header → Maps
unfolding add_provides
map_header m none = m
map_header m (some hdr) = record {
  pkg_requires = put m.pkg_requires hdr.name (update [] (select is_outer hdr.requires));
  cap_providers = add_provides hdr.name (update (hdr.name ∷ []) hdr.provides) m.cap_providers;
}

unfoldable pub map_headers : Maps → List (Option Header) → Maps
unfolding map_header
map_headers m [] = m
map_headers m (h ∷ hs) = map_headers (map_header m h) hs

abbrev pub no_maps : Maps
no_maps = record { pkg_requires = []; cap_providers = [] }

-- the loop over `pkg_requires`: `reverse_deps.setdefault(provider, set()).add(name)` for the other
-- providers of each requirement, which is the step of the orphan search as well
unfoldable pub link_requirers :
    Dict (List Text) → Dict (List Text) → Dict (List Text) → Dict (List Text)
link_requirers cap_providers [] g = g
link_requirers cap_providers ((name, requires) ∷ pkgs) g =
    link_requirers cap_providers pkgs (link_forward cap_providers name requires g)

module _ (reverse_deps : Dict (List Text)) where
  -- the `while queue` loop
  unfoldable pub exclude : ℕ → List Text → List Text → List Text
  exclude zero excluded queue = excluded
  exclude (suc fuel) excluded [] = excluded
  exclude (suc fuel) excluded (pkg ∷ queue) =
      let next = λ (e q : List Text). exclude fuel e q in
      if contains excluded pkg
      then next excluded queue
      else let excluded' = add excluded pkg in
        next excluded'
          (queue ++ select (λ d. not (contains excluded' d)) (get_list reverse_deps pkg))

-- the rounds that the edges from packages not yet excluded may cause
unfoldable pub edges_left : List Text → Dict (List Text) → ℕ
edges_left excluded [] = 0
edges_left excluded ((x, ds) ∷ g) =
    let rest = edges_left excluded g in if contains excluded x then rest else length ds + rest

unfoldable pub dependents_of : Maps → List Text → List Text
unfolding exclude link_requirers edges_left
dependents_of m failed_names =
    let g = link_requirers m.cap_providers m.pkg_requires [] in
    let queue = select (contains (keys m.pkg_requires)) failed_names in
    exclude g (suc (length queue + edges_left [] g)) [] queue

unfoldable pub find_dependents : List Text → List (Option Header) → List Text
unfolding dependents_of map_headers
find_dependents failed_names rpms =
    if is_empty failed_names || is_empty rpms
    then failed_names
    else dependents_of (map_headers no_maps rpms) failed_names
