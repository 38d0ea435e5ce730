-- ===== src/Orphans/Upgrade/Correct.antt =====
-- The plan of `find_upgrade_orphans` against what its documentation calls the new orphans of a
-- transaction (urpm/core/resolution/orphans.py).
use urpm_ng.Base.{
  get, Bool, Bool-cases, Dict, List, Text, contains, contains-map-lower, is_empty, keys, lower, map,
  update, [], ◌∷◌, ◌==◌, ◌≡◌, ◌⊎◌, ◌↔◌, ◌&&◌, arith, ==_iff, ==_refl, true, false, refl, inl, inr,
  sym, ◌∙◌, contains-update, contains-select,
}
use urpm_ng.Orphans.All.{Tracked}
use urpm_ng.Orphans.Ancestors.Kept.{IsKept}
use urpm_ng.Orphans.Rpmdb.{PackageAction, removal, action_names}
use urpm_ng.Orphans.Versions.{Evr, Verdict}
use urpm_ng.Orphans.Upgrade.States.{
  PackageTable, States, Transaction, VersionedHeader, states_of, transaction_of,
}
use urpm_ng.Orphans.Upgrade.Pinned.{
  before_as, contains-effective_unrequested, counts_unrequested, get-states_of, installs_as,
  is_installing, is_upgrading, last_action, last_header, leaves, or_old, stays_as,
}
use urpm_ng.Orphans.Upgrade.Reverse.{build_reverse_deps}
use urpm_ng.Orphans.Upgrade.Search.{orphan_search, orphan_search_correct}
use urpm_ng.Orphans.Upgrade.Cancel.{cancel_installs_correct, has_survivor}
use urpm_ng.Orphans.Upgrade.Plan.{
  effective_unrequested, is_requested, is_candidate, orphan_candidates, candidate_removals,
  names_where, is_install, is_upgrade_like, planned_names, cancelled_versions, find_upgrade_orphans,
}

module _ (label_compare : Evr → Evr → Verdict) where
  -- `x` is in the state after the transaction, was not requested, no chain of reverse dependencies
  -- leads from it to a requested package there, and this was not so before the transaction.
  pub record IsNewOrphan (effective : List Text) (s : States) (x : Text) : Type 0 where
    pub present : contains (keys s.post) x ≡ true
    pub unrequested : contains effective (lower x) ≡ true
    pub unkept : ¬ IsKept (build_reverse_deps label_compare s.post) (is_requested effective) x
    pub not_before : ¬ (
        (contains (keys s.pre) x ≡ true)
        × (¬ IsKept (build_reverse_deps label_compare s.pre) (is_requested effective) x))

  is_candidate_correct :
      (effective : List Text) (s : States) (x : Text)
      → contains (keys s.post) x ≡ true
      → (is_candidate label_compare effective s x ≡ true) ↔ IsNewOrphan effective s x
  unfolding is_candidate
  is_candidate_correct effective s x here =
      let post =
        orphan_search_correct (build_reverse_deps label_compare s.post) (is_requested effective)
          x in
      let pre =
        orphan_search_correct (build_reverse_deps label_compare s.pre) (is_requested effective) x in
      (
        λ h. record {
          present = here;
          unrequested = ground (arith, h);
          unkept = post.0 (ground (arith, h));
          not_before = λ b. let before = pre.1 b.1 in ground (arith, h, b.0, before);
        },
        λ n.
            let after = post.1 n.unkept in
            elim (Bool-cases (contains (keys s.pre) x && orphan_search g is_old x)) [
              | inl both ↦
                  absurd (n.not_before (ground (arith, both), pre.0 (ground (arith, both))))
              | inr new ↦ ground (arith, after, n.unrequested, new)
            ],
      )
    where
      g : Dict (List Text)
      g = build_reverse_deps label_compare s.pre

      is_old : Text → Bool
      is_old = is_requested effective

  pub orphan_candidates_correct :
      (effective : List Text) (s : States) (x : Text)
      → (contains (orphan_candidates label_compare effective s) x ≡ true)
        ↔ IsNewOrphan effective s x
  unfolding orphan_candidates
  orphan_candidates_correct effective s x =
      let both = contains-select (is_candidate label_compare effective s) (keys s.post) x in
      (
        λ h.
            (is_candidate_correct effective s x (ground (arith, both, h))).0
              (ground (arith, both, h)),
        λ n. rw (both, n.present, (is_candidate_correct effective s x n.present).1 n) refl,
      )

names-candidate_removals :
    (candidates : List Text) (db : List VersionedHeader) (x : Text)
    → contains (action_names (candidate_removals candidates db)) x
      ≡ (contains candidates x && contains (map (λ v. v.header.name) db) x)
unfolding candidate_removals removal contains
names-candidate_removals candidates [] x = ground arith
names-candidate_removals candidates (v ∷ db) x = elim (Bool-cases (v.header.name == x)) [
  | inl e ↦
      let same : contains candidates v.header.name ≡ contains candidates x =
        rw ((==_iff v.header.name x).0 e) refl in
      ground (arith, names-candidate_removals candidates db x, same, e)
  | inr ne ↦ ground (arith, names-candidate_removals candidates db x, ne)
]

contains-names_where :
    (test : PackageAction → Bool) (p : Text → Bool) (actions : List PackageAction) (x : Text)
    → contains (names_where (λ a. test a && p a.name) actions) x
      ≡ (contains (names_where test actions) x && p x)
unfolding names_where contains
contains-names_where test p [] x = refl
contains-names_where test p (a ∷ actions) x = elim (Bool-cases (a.name == x)) [
  | inl e ↦
      let same : p a.name ≡ p x = rw ((==_iff a.name x).0 e) refl in
      ground (arith, contains-names_where test p actions x, same, e)
  | inr ne ↦ ground (arith, contains-names_where test p actions x, ne)
]

map-lower-origin :
    (names : List Text) (x : Text)
    → contains (map lower names) x ≡ true
    → (name : Text) × (contains names name ≡ true) × (lower name ≡ x)
unfolding contains
map-lower-origin [] x h = cc
map-lower-origin (n ∷ names) x h = elim (Bool-cases (lower n == x)) [
  | inl e ↦ (n, rw (==_refl n) refl, (==_iff (lower n) x).0 e)
  | inr ne ↦
      let r : (name : Text) × (contains names name ≡ true) × (lower name ≡ x) =
        map-lower-origin names x (ground arith) in
      (r.0, ground (arith, r.1), r.2)
]

set_of : (xs : List Text) (x : Text) → contains (update [] xs) x ≡ contains xs x
set_of xs x = rw (contains-update [] xs x) (unfold contains in refl)

module _ (post_reverse : Dict (List Text)) (candidates : List Text)
    (actions : List PackageAction) where
  -- The new versions that are cancelled: every candidate that would be upgraded, downgraded or
  -- reinstalled; every candidate that would be installed, unless a planned package that is not
  -- cancelled requires it; and nothing else.
  pub cancelled_versions_correct :
      let c = cancelled_versions post_reverse candidates actions in
      ((name : Text)
        → contains (names_where is_upgrade_like actions) name ≡ true
        → contains candidates name ≡ true
        → contains c (lower name) ≡ true)
      × ((name : Text)
          → contains (names_where is_install actions) name ≡ true
          → contains candidates name ≡ true
          → contains c (lower name) ≡ false
          → has_survivor post_reverse (planned_names actions) c name ≡ true)
      × ((x : Text)
          → contains c x ≡ true
          → (name : Text) × (lower name ≡ x)
            × (contains candidates name ≡ true)
            × ((contains (names_where is_upgrade_like actions) name ≡ true)
                ⊎ ((contains (names_where is_install actions) name ≡ true)
                    × (has_survivor post_reverse (planned_names actions) c name ≡ false))))
  unfolding cancelled_versions
  cancelled_versions_correct =
      let all =
        cancel_installs_correct post_reverse (planned_names actions) installs
          (update [] (map lower upgrades)) in
      (
        λ name up h. all.0 (lower name) (
            set_of (map lower upgrades) (lower name)
            ∙ contains-map-lower upgrades name (rw (upgrade-iff name, up, h) refl)),
        λ name inst h out. all.1 name (rw (install-iff name, inst, h) refl) out,
        λ x h. elim (all.2 x h) [
          | inl old ↦
              let r = map-lower-origin upgrades x (sym (set_of (map lower upgrades) x) ∙ old) in
              (
                r.0,
                r.2,
                ground (arith, upgrade-iff r.0, r.1),
                inl (ground (arith, upgrade-iff r.0, r.1)),
              )
          | inr r ↦ (
            r.0,
            r.2,
            ground (arith, install-iff r.0, r.1),
            inr (ground (arith, install-iff r.0, r.1), r.3),
          )
        ],
      )
    where
      upgrades : List Text
      upgrades = names_where (λ a. is_upgrade_like a && contains candidates a.name) actions

      installs : List Text
      installs = names_where (λ a. is_install a && contains candidates a.name) actions

      upgrade-iff :
          (x : Text)
          → contains upgrades x
            ≡ (contains (names_where is_upgrade_like actions) x && contains candidates x)
      upgrade-iff = contains-names_where is_upgrade_like (contains candidates) actions

      install-iff :
          (x : Text)
          → contains installs x
            ≡ (contains (names_where is_install actions) x && contains candidates x)
      install-iff = contains-names_where is_install (contains candidates) actions

module _ (label_compare : Evr → Evr → Verdict) (table : PackageTable) (db : List VersionedHeader)
    (tracked : Tracked) (actions : List PackageAction) (obsoleted_names : List Text) where
  abbrev t : Transaction
  t = transaction_of actions obsoleted_names

  -- For a transaction that is not empty, where something is tracked as a dependency, the plan
  -- erases exactly the installed packages that are new orphans: in the state after it, unrequested,
  -- and tied there to no requested package by any chain of reverse dependencies, but not so before.
  -- The state before has the last header of each name. The state after has, of the installed names
  -- that are neither removed nor obsoleted, the entry of the upgrade where there is one and else
  -- that of the header, and of the other names those that are installed. A name counts as
  -- unrequested where it is tracked as a dependency and not for a build, and where the transaction
  -- installs it.
  pub find_upgrade_orphans_correct :
      (x : Text)
      → is_empty tracked.unrequested ≡ false
      → (is_empty t.upgraded_names && is_empty t.installed_names && is_empty t.removed_names)
        ≡ false
      → ((contains
              (action_names
                (find_upgrade_orphans label_compare table db tracked actions
                  obsoleted_names).removes)
              x
            ≡ true)
          ↔ ((contains (map (λ v. v.header.name) db) x ≡ true)
              × IsNewOrphan label_compare
                  (effective_unrequested tracked t)
                  (states_of table t db)
                  x))
        × ((n : Text)
            → (get (states_of table t db).pre n ≡ before_as (last_header db n))
              × (get (states_of table t db).post n
                  ≡ or_old
                      (stays_as table
                        (leaves actions obsoleted_names n)
                        (last_action is_upgrading actions n)
                        n
                        (last_header db n))
                      (installs_as table n (last_action is_installing actions n))))
        × ((l : Text)
            → contains (effective_unrequested tracked t) l ≡ counts_unrequested tracked actions l)
  unfolding find_upgrade_orphans
  find_upgrade_orphans_correct x full moves =
      let spec =
        orphan_candidates_correct label_compare (effective_unrequested tracked t)
          (states_of table t db) x in
      let names =
        names-candidate_removals
          (orphan_candidates label_compare (effective_unrequested tracked t) (states_of table t db))
          db x in
      (
        rw (find_upgrade_orphans, full, moves)
            (
              λ h. (ground (arith, names, h), spec.0 (ground (arith, names, h))),
              λ n. rw (names, spec.1 n.1, n.0) refl,
            ),
        get-states_of table db actions obsoleted_names,
        contains-effective_unrequested tracked actions obsoleted_names,
      )
