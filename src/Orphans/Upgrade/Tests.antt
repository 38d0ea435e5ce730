-- ===== src/Orphans/Upgrade/Tests.antt =====
-- A concrete upgrade: `tt2` replaces what `app` required of `tt1`.
use urpm_ng.Base.{
  get, Dict, List, Text, codes, contains, is_empty, length, lower, ltb, map, none, some, [], ◌∷◌,
  ◌≡◌, ◌↔◌, ◌⊎◌, ◌&&◌, any, refl, true, false, if◌then◌else◌,
}
use urpm_ng.Orphans.All.{Tracked}
use urpm_ng.Orphans.Ancestors.Kept.{IsKept}
use urpm_ng.Orphans.Graph.{edge}
use urpm_ng.Orphans.Rpmdb.{Header, InstallReason, PackageAction, TransactionType, action_names}
use urpm_ng.Orphans.Versions.{Evr, Sense, Verdict, no_sense}
use urpm_ng.Orphans.Upgrade.States.{
  Entry, PackageTable, Row, VersionedHeader, note_action, note_actions, states_of, transaction_of,
}
use urpm_ng.Orphans.Upgrade.Reverse.{build_reverse_deps, edge-build_reverse_deps, entry_protects}
use urpm_ng.Orphans.Upgrade.Search.{orphan_search, orphan_search_correct}
use urpm_ng.Orphans.Upgrade.Cancel.{has_survivor}
use urpm_ng.Orphans.Upgrade.Plan.{
  cancelled_versions, effective_unrequested, find_upgrade_orphans, is_install, is_upgrade_like,
  names_where, planned_names,
}
use urpm_ng.Orphans.Upgrade.Pinned.{
  before_as, counts_unrequested, installs_as, is_installing, is_upgrading, last_action, last_header,
  leaves, or_old, stays_as,
}
use urpm_ng.Orphans.Upgrade.Correct.{
  IsNewOrphan, cancelled_versions_correct, find_upgrade_orphans_correct,
}

-- a comparison of the versions only, by length
abbrev by_version : Evr → Evr → Verdict
by_version p r =
    if ltb (length p.version) (length r.version)
    then Verdict.older
    else if ltb (length r.version) (length p.version)
    then Verdict.newer
    else Verdict.same

abbrev header : Text → List Text → List Text → Header
header name provides requires = record {
  name = name;
  epoch = none;
  version = codes "1";
  release = codes "2";
  arch = none;
  size = some 10;
  provides = provides;
  requires = requires;
  recommends = [];
  suggests = [];
  supplements = [];
}

abbrev versioned : Header → List Text → List Sense → VersionedHeader
versioned h versions flags = record {
  header = h;
  provide_versions = [];
  require_versions = versions;
  require_flags = flags;
  recommend_versions = [];
  recommend_flags = [];
  suggest_versions = [];
  suggest_flags = [];
  supplement_versions = [];
  supplement_flags = [];
}

abbrev database : List VersionedHeader
database =
    versioned (header (codes "app") [] (codes "tt1" ∷ [])) (codes "1" ∷ []) (no_sense ∷ [])
    ∷ versioned (header (codes "tt1") (codes "tt" ∷ []) []) [] []
    ∷ []

-- the new `app` requires `tt2`
abbrev new_app : Row
new_app = record {
  epoch = 0;
  version = codes "22";
  release = codes "1";
  requires = codes "tt2[>= 2]" ∷ [];
  recommends = [];
  suggests = [];
  provides = [];
  supplements = [];
}

abbrev table : PackageTable
table = record {
  get_package_exact = λ name version release arch epoch. some new_app;
  get_package = λ name arch. none;
}

abbrev action_on : TransactionType → Text → PackageAction
action_on kind name = record {
  action = kind;
  name = name;
  evr = codes "22-1";
  arch = codes "noarch";
  nevra = [];
  size = 10;
  filesize = 0;
  media_name = [];
  reason = InstallReason.explicit;
  from_evr = [];
}

abbrev actions : List PackageAction
actions =
    action_on TransactionType.upgrade (codes "app")
    ∷ action_on TransactionType.install (codes "tt2")
    ∷ []

abbrev tracked : Tracked
tracked = record { unrequested = codes "tt1" ∷ []; builddeps = [] }

find_upgrade_orphans_correct_example :
    let s = states_of table (transaction_of actions []) database in
    ((contains
          (action_names (find_upgrade_orphans by_version table database tracked actions []).removes)
          (codes "tt1")
        ≡ true)
      ↔ ((contains (map (λ (v : VersionedHeader). v.header.name) database) (codes "tt1") ≡ true)
          × IsNewOrphan by_version
              (effective_unrequested tracked (transaction_of actions []))
              (states_of table (transaction_of actions []) database)
              (codes "tt1")))
    × ((n : Text)
        → (get s.pre n ≡ before_as (last_header database n))
          × (get s.post n
              ≡ or_old
                  (stays_as table
                    (leaves actions [] n)
                    (last_action is_upgrading actions n)
                    n
                    (last_header database n))
                  (installs_as table n (last_action is_installing actions n))))
    × ((l : Text)
        → contains (effective_unrequested tracked (transaction_of actions [])) l
          ≡ counts_unrequested tracked actions l)
unfolding transaction_of note_actions note_action urpm_ng.Base.put
find_upgrade_orphans_correct_example =
    find_upgrade_orphans_correct by_version table database tracked actions [] (codes "tt1") refl
      refl

abbrev graph : Dict (List Text)
graph = (codes "tt2", codes "app" ∷ []) ∷ []

cancelled_versions_correct_example :
    let c = cancelled_versions graph (codes "tt2" ∷ []) actions in
    ((name : Text)
      → contains (names_where is_upgrade_like actions) name ≡ true
      → contains (codes "tt2" ∷ []) name ≡ true
      → contains c (lower name) ≡ true)
    × ((name : Text)
        → contains (names_where is_install actions) name ≡ true
        → contains (codes "tt2" ∷ []) name ≡ true
        → contains c (lower name) ≡ false
        → has_survivor graph (planned_names actions) c name ≡ true)
    × ((x : Text)
        → contains c x ≡ true
        → (name : Text) × (lower name ≡ x)
          × (contains (codes "tt2" ∷ []) name ≡ true)
          × ((contains (names_where is_upgrade_like actions) name ≡ true)
              ⊎ ((contains (names_where is_install actions) name ≡ true)
                  × (has_survivor graph (planned_names actions) c name ≡ false))))
cancelled_versions_correct_example = cancelled_versions_correct graph (codes "tt2" ∷ []) actions

orphan_search_correct_example :
    (orphan_search graph (λ _. false) (codes "tt2") ≡ true)
    ↔ ¬ IsKept graph (λ _. false) (codes "tt2")
orphan_search_correct_example = orphan_search_correct graph (λ _. false) (codes "tt2")

abbrev state : Dict Entry
state =
    (
      codes "app",
      record {
        requires = record { name = codes "tt"; sense = no_sense; evr = [] } ∷ [];
        provides = [];
        supplements = [];
      },
    )
    ∷ (
      codes "tt1",
      record {
        requires = [];
        provides = record { name = codes "tt"; evr = codes "1" } ∷ [];
        supplements = [];
      },
    )
    ∷ []

edge-build_reverse_deps_example :
    edge (build_reverse_deps by_version state) (codes "tt1") (codes "app")
    ≡ any (entry_protects by_version state (codes "tt1") (codes "app")) state
edge-build_reverse_deps_example =
    edge-build_reverse_deps by_version state (codes "tt1") (codes "app")
