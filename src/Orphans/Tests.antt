-- ===== src/Orphans/Tests.antt =====
-- Concrete databases and files for the orphan theorems.
use urpm_ng.Base.{
  false, Dict, List, Text, codes, none, some, [], ◌∷◌, ◌++◌, ◌≡◌, refl, sym, starts_with, strip,
  lstrip, rstrip, word, add, true, contains, ◌↔◌, lower, is_space, length, Bool-cases, inl, inr,
  ◌||◌, arith, ==_iff, if◌then◌else◌, ltb, ◌==◌,
}
use urpm_ng.Orphans.Rpmdb.{Header, action_names}
use urpm_ng.Orphans.Edges.{edge-reverse_graph, protects_in}
use urpm_ng.Orphans.Graph.{reverse_graph, edge}
use urpm_ng.Orphans.Ancestors.{has_explicit_ancestor}
use urpm_ng.Orphans.Ancestors.Kept.{IsKept}
use urpm_ng.Orphans.Ancestors.Correct.{fresh_walk, ancestor_correct}
use urpm_ng.Orphans.All.{Tracked, find_all_orphans, IsOrphan, find_all_orphans_correct}
use urpm_ng.Orphans.BuildDeps.{find_all_builddep_orphans}
use urpm_ng.Orphans.BuildDeps.Correct.{IsLeftover, find_all_builddep_orphans_correct}
use urpm_ng.Orphans.Versions.{
  Sense, Evr, Verdict, no_sense, provider_satisfies, provider_satisfies_correct, Written, Operator,
  operator_text, parse_synthesis_cap, parse_synthesis_cap_round_trip,
}
use urpm_ng.Orphans.Tracking.{
  read_names, split_lines, Disk, get_unrequested_packages, save_unrequested_packages,
  mark_as_dependency, lower_all,
}
use urpm_ng.Orphans.Tracking.Marks.{IsStored, is_name, get-save_unrequested, mark_as_dependency_lem}

abbrev installed : Text → List Text → List Text → Header
installed name provides requires = record {
  name = name;
  epoch = none;
  version = codes "1";
  release = codes "2";
  arch = none;
  size = some 10;
  provides = provides;
  requires = requires;
  recommends = [];
  suggests = [];
  supplements = [];
}

-- `app` was asked for and needs `lib`; `old` and `Older` need each other only.
abbrev database : List Header
database =
    installed (codes "app") (codes "app" ∷ []) (codes "lib" ∷ codes "/bin/sh" ∷ [])
    ∷ installed (codes "lib") (codes "lib" ∷ []) (codes "rpmlib(X)" ∷ [])
    ∷ installed (codes "old") (codes "old" ∷ []) (codes "Older" ∷ [])
    ∷ installed (codes "Older") (codes "Older" ∷ []) (codes "old" ∷ [])
    ∷ []

abbrev tracked : Tracked
tracked = record { unrequested = codes "lib" ∷ codes "old" ∷ codes "older" ∷ []; builddeps = [] }

abbrev for_builds : Tracked
for_builds = record {
  unrequested = [];
  builddeps = (codes "lib", codes "app.spec") ∷ (codes "old", []) ∷ [];
}

find_all_orphans_correct_example :
    (contains (action_names (find_all_orphans database tracked)) (codes "old") ≡ true)
    ↔ IsOrphan database tracked (codes "old")
find_all_orphans_correct_example = find_all_orphans_correct database tracked (codes "old")

edge-reverse_graph_example :
    edge (reverse_graph database) (codes "lib") (codes "app")
    ≡ protects_in database (codes "lib") (codes "app")
edge-reverse_graph_example = edge-reverse_graph database (codes "lib") (codes "app")

abbrev small_graph : Dict (List Text)
small_graph = (codes "a", codes "b" ∷ []) ∷ (codes "b", codes "a" ∷ codes "c" ∷ []) ∷ []

no_member : (c : Text) → contains [] c ≡ true → ⊥
unfolding contains
no_member c h = cc

ancestor_correct_example :
    (((has_explicit_ancestor small_graph (λ d. d == codes "c") 3 (codes "a") (fresh_walk [])).0
        ≡ true)
      ↔ IsKept small_graph (λ d. d == codes "c") (codes "a"))
    × ((c : Text)
        → contains
            (has_explicit_ancestor small_graph
              (λ d. d == codes "c")
              3
              (codes "a")
              (fresh_walk [])).1.cache
            c
          ≡ true
        → IsKept small_graph (λ d. d == codes "c") c)
ancestor_correct_example =
    ancestor_correct small_graph (λ d. d == codes "c") 3 (codes "a") [] (omega arith) no_cached
  where
    no_cached : (c : Text) → contains [] c ≡ true → IsKept small_graph (λ d. d == codes "c") c
    no_cached c h = absurd (no_member c h)

find_all_builddep_orphans_correct_example :
    (contains (action_names (find_all_builddep_orphans database for_builds)) (codes "lib") ≡ true)
    ↔ IsLeftover database for_builds (codes "lib")
find_all_builddep_orphans_correct_example =
    find_all_builddep_orphans_correct database for_builds (codes "lib")

-- a comparison of the versions only, by length
abbrev by_version : Evr → Evr → Verdict
by_version p r =
    if ltb (length p.version) (length r.version)
    then Verdict.older
    else if ltb (length r.version) (length p.version)
    then Verdict.newer
    else Verdict.same

abbrev at_least : Sense
at_least = record no_sense { equal = true; greater = true }

abbrev provided : Written
provided = record {
  written_epoch = none;
  written_version = codes "10";
  written_release = some (codes "1");
}

abbrev required : Written
required = record {
  written_epoch = some (codes "0");
  written_version = codes "9";
  written_release = none;
}

provider_satisfies_correct_example :
    (provider_satisfies by_version [] no_sense (codes "0:9") ≡ true)
    × (provider_satisfies by_version [] at_least (codes "0:9") ≡ false)
    × (provider_satisfies by_version (codes "10-1") at_least (codes "0:9") ≡ true)
provider_satisfies_correct_example =
    provider_satisfies_correct by_version provided required at_least [] (refl, refl) (refl, refl)
      refl refl

parse_synthesis_cap_round_trip_example :
    parse_synthesis_cap
      (codes "libpng" ++ b'[' ∷ ((operator_text Operator.ge ++ b' ' ∷ codes "1.6") ++ b']' ∷ []))
    ≡ record { name = codes "libpng"; sense = at_least; evr = codes "1.6" }
unfolding is_space
parse_synthesis_cap_round_trip_example =
    parse_synthesis_cap_round_trip (codes "libpng") Operator.ge b'1' (codes ".6") refl refl

abbrev disk : Disk
disk = record {
  deps_file = some (codes "# deps\nLibFoo (app)\n\nold\n");
  builddeps_file = none;
  writable = true;
}

read_disk : get_unrequested_packages disk ≡ codes "libfoo" ∷ codes "old" ∷ []
unfolding get_unrequested_packages read_names split_lines strip lstrip rstrip word starts_with add
    lower contains ◌==◌
read_disk = refl

one_name : (n : Text) → contains (codes "App" ∷ []) n ≡ true → is_name (lower n) ≡ true
unfolding contains
one_name n h =
    rw (sym ((==_iff (codes "App") n).0 (ground arith))) (unfold lower is_space starts_with in refl)

two-IsStored : (n : Text) → contains (codes "b" ∷ codes "a" ∷ []) n ≡ true → IsStored n
unfolding contains
two-IsStored n h = elim (Bool-cases (codes "b" == n)) [
  | inl e ↦
      rw (sym ((==_iff (codes "b") n).0 e)) (unfold lower is_space starts_with in (refl, refl))
  | inr ne ↦
      rw (sym ((==_iff (codes "a") n).0 (ground (arith, h, ne))))
        (unfold lower is_space starts_with in (refl, refl))
]

get-save_unrequested_example :
    contains
      (get_unrequested_packages (save_unrequested_packages disk (codes "b" ∷ codes "a" ∷ [])).0)
      (codes "a")
    ≡ contains (codes "b" ∷ codes "a" ∷ []) (codes "a")
get-save_unrequested_example =
    get-save_unrequested disk (codes "b" ∷ codes "a" ∷ []) (codes "a") refl two-IsStored

mark_as_dependency_lem_example :
    contains (get_unrequested_packages (mark_as_dependency disk (codes "App" ∷ [])).0) (codes "app")
    ≡ (contains (get_unrequested_packages disk) (codes "app")
        || contains (lower_all (codes "App" ∷ [])) (codes "app"))
mark_as_dependency_lem_example =
    mark_as_dependency_lem disk (codes "App" ∷ []) (codes "app") refl one_name
