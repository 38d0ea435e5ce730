-- ===== src/Orphans/Upgrade/Plan.antt =====
-- The plan of `find_upgrade_orphans` (urpm/core/resolution/orphans.py): the candidates, their
-- erasure and the new versions that are cancelled. The debug traces are left out.
use urpm_ng.Base.{
  Bool, Dict, List, Text, contains, if◌then◌else◌, is_empty, keys, lower, map, not, select, update,
  [], ◌∷◌, ◌||◌, ◌&&◌, true, false,
}
use urpm_ng.Orphans.All.{Tracked}
use urpm_ng.Orphans.Erase.{unrequested_only}
use urpm_ng.Orphans.Rpmdb.{PackageAction, TransactionType, removal}
use urpm_ng.Orphans.Versions.{Evr, Verdict}
use urpm_ng.Orphans.Upgrade.States.{
  PackageTable, States, Transaction, VersionedHeader, states_of, transaction_of,
}
use urpm_ng.Orphans.Upgrade.Reverse.{build_reverse_deps}
use urpm_ng.Orphans.Upgrade.Search.{orphan_search}
use urpm_ng.Orphans.Upgrade.Cancel.{cancel_installs}

pub record UpgradeOrphanPlan : Type 0 where
  pub removes : List PackageAction
  pub cancelled_new_versions : List Text

abbrev pub empty_plan : UpgradeOrphanPlan
empty_plan = record { removes = []; cancelled_new_versions = [] }

-- new installs count as unrequested
abbrev pub effective_unrequested : Tracked → Transaction → List Text
effective_unrequested tracked t =
    update (unrequested_only tracked) (map lower (keys t.installed_names))

-- `parent.lower() not in effective_unrequested`
abbrev pub is_requested : List Text → Text → Bool
is_requested effective name = not (contains effective (lower name))

module _ (label_compare : Evr → Evr → Verdict) where
  module _ (effective : List Text) (s : States) where
    -- unrequested, an orphan afterwards, and not one before
    unfoldable pub is_candidate : Text → Bool
    unfolding orphan_search build_reverse_deps
    is_candidate name =
        not (is_requested effective name)
        && orphan_search (build_reverse_deps label_compare s.post) (is_requested effective) name
        && not (
            contains (keys s.pre) name
            && orphan_search (build_reverse_deps label_compare s.pre) (is_requested effective) name)

    unfoldable pub orphan_candidates : List Text
    unfolding is_candidate
    orphan_candidates = select is_candidate (keys s.post)

-- the erasure of the candidates that are installed
unfoldable pub candidate_removals : List Text → List VersionedHeader → List PackageAction
unfolding removal
candidate_removals candidates [] = []
candidate_removals candidates (v ∷ db) =
    let rest = candidate_removals candidates db in
    if contains candidates v.header.name then removal v.header.name v.header ∷ rest else rest

abbrev pub is_upgrade_like : PackageAction → Bool
is_upgrade_like a = elim a.action [
  | TransactionType.upgrade ↦ true
  | TransactionType.downgrade ↦ true
  | TransactionType.reinstall ↦ true
  | _ ↦ false
]

abbrev pub is_install : PackageAction → Bool
is_install a = elim a.action [ TransactionType.install ↦ true | _ ↦ false ]

-- the names of the actions that pass a test
unfoldable pub names_where : (PackageAction → Bool) → List PackageAction → List Text
names_where test [] = []
names_where test (a ∷ actions) =
    let rest = names_where test actions in if test a then a.name ∷ rest else rest

-- the lower-case names of the planned new versions
abbrev pub planned_names : List PackageAction → List Text
planned_names actions = map lower (names_where (λ a. is_install a || is_upgrade_like a) actions)

-- both passes
unfoldable pub cancelled_versions : Dict (List Text) → List Text → List PackageAction → List Text
unfolding names_where cancel_installs
cancelled_versions post_reverse candidates actions =
    let first =
      update []
        (map lower (names_where (λ a. is_upgrade_like a && contains candidates a.name) actions)) in
    cancel_installs post_reverse (planned_names actions)
      (names_where (λ a. is_install a && contains candidates a.name) actions) first

module _ (label_compare : Evr → Evr → Verdict) (table : PackageTable) where
  unfoldable pub find_upgrade_orphans :
      List VersionedHeader → Tracked → List PackageAction → List Text → UpgradeOrphanPlan
  unfolding states_of orphan_candidates candidate_removals cancelled_versions transaction_of
  find_upgrade_orphans db tracked actions obsoleted_names =
      let t = transaction_of actions obsoleted_names in
      let s = states_of table t db in
      let candidates = orphan_candidates label_compare (effective_unrequested tracked t) s in
      if is_empty tracked.unrequested
        || (is_empty t.upgraded_names && is_empty t.installed_names && is_empty t.removed_names)
      then empty_plan
      else record {
        removes = candidate_removals candidates db;
        cancelled_new_versions =
            cancelled_versions (build_reverse_deps label_compare s.post) candidates actions;
      }
