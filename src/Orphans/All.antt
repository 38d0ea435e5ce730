-- ===== src/Orphans/All.antt =====
-- `find_all_orphans` and `is_orphan` of urpm/core/resolution/orphans.py. The rpm bindings are
-- taken to be present, and the two tracking files to be read already.
use urpm_ng.Base.{
  Bool, Dict, List, Text, contains, if◌then◌else◌, keys, length, lower, not, suc, ℕ, [], ◌∷◌, ◌==◌,
  ◌≡◌, ◌||◌, any, arith, ==_iff, true, false, Bool-cases, inl, inr, ◌<◌, ◌↔◌, refl, ap, ◌∙◌,
  is_empty, ◌≢◌, sym, ==_refl,
}
use urpm_ng.Orphans.Rpmdb.{Header, PackageAction, removal, action_names}
use urpm_ng.Orphans.Headers.{has_package}
use urpm_ng.Orphans.Edges.{
  IsKept-IsTied, IsTied, IsTied-IsKept, edge-reverse_graph, keys-scan, protects_in,
}
use urpm_ng.Orphans.Graph.{scan, reverse_graph}
use urpm_ng.Orphans.Ancestors.{Walk, has_explicit_ancestor}
use urpm_ng.Orphans.Ancestors.Kept.{IsKept}
use urpm_ng.Orphans.Ancestors.Correct.{fresh_walk, ancestor_correct}

-- the sets read from installed-through-deps.list and installed-through-builddeps.list
pub record Tracked : Type 0 where
  pub unrequested : List Text
  pub builddeps : Dict Text

-- `dep_lower not in unrequested or dep_lower in builddeps_set`
pub is_anchor : Tracked → Text → Bool
is_anchor t n = not (contains t.unrequested (lower n)) || contains (keys t.builddeps) (lower n)

-- the loop over `installed_pkgs`, with the cache of positive answers
module _ (tracked : Tracked) (graph : Dict (List Text)) where
  decide : Text → Header → Bool × Walk → (List Text → List PackageAction) → List PackageAction
  unfolding removal
  decide name h (true, s) rest = rest s.cache
  decide name h (false, s) rest = removal name h ∷ rest s.cache

  collect : ℕ → Dict Header → List Text → List PackageAction
  unfolding decide
  collect fuel [] cache = []
  collect fuel ((name, h) ∷ pkgs) cache =
      let rest = collect fuel pkgs in
      if is_anchor tracked name
      then rest cache
      else decide name h
          (has_explicit_ancestor graph (is_anchor tracked) fuel name (fresh_walk cache)) rest

pub find_all_orphans : List Header → Tracked → List PackageAction
unfolding collect is_anchor
find_all_orphans db tracked =
    if is_empty tracked.unrequested
    then []
    else let graph = reverse_graph db in
      collect tracked graph (suc (length (keys graph))) (scan db).installed []

-- `any(o.name.lower() == target for o in self.find_all_orphans())`
pub is_orphan : Text → List Header → Tracked → Bool
is_orphan [] db tracked = false
is_orphan (c ∷ cs) db tracked =
    any (λ o. lower o == lower (c ∷ cs)) (action_names (find_all_orphans db tracked))

-- the package was asked for, or serves builds
abbrev pub stays_for : Tracked → Text → Bool
stays_for t d = not (contains t.unrequested (lower d)) || contains (keys t.builddeps) (lower d)

-- Installed, recorded as a dependency and not as a build dependency, and no chain of packages that
-- protect one another leads to one that stays.
pub record IsOrphan (db : List Header) (tracked : Tracked) (name : Text) : Type 0 where
  pub installed : has_package db name ≡ true
  pub as_dependency : contains tracked.unrequested (lower name) ≡ true
  pub not_for_builds : contains (keys tracked.builddeps) (lower name) ≡ false
  pub untied : ¬ IsTied (protects_in db) (stays_for tracked) name

module _ (tracked : Tracked) (graph : Dict (List Text)) (fuel : ℕ)
    (enough : length (keys graph) < fuel) where
  abbrev Lone : Text → Type 0
  Lone n = (is_anchor tracked n ≡ false) × ¬ IsKept graph (is_anchor tracked) n

  abbrev CacheOk : List Text → Type 0
  CacheOk cache = (c : Text) → contains cache c ≡ true → IsKept graph (is_anchor tracked) c

  -- what `collect` lists
  abbrev Lists : List Text → List PackageAction → Type 0
  Lists names acts =
      (n : Text) → (contains (action_names acts) n ≡ true) ↔ ((contains names n ≡ true) × Lone n)

  Lists-skip :
      (k : Text) (names : List Text) (acts : List PackageAction)
      → ¬ Lone k
      → Lists names acts
      → Lists (k ∷ names) acts
  unfolding contains
  Lists-skip k names acts no' h n = (
    λ e. (rw (((h n).0 e).0) (ground arith), ((h n).0 e).1),
    λ e. elim (Bool-cases (k == n)) [
      | inl same ↦ absurd (no' (rw (sym ((==_iff k n).0 same)) at e.1))
      | inr other ↦ (h n).1 (ground arith, e.1)
    ],
  )

  Lists-cons :
      (k : Text) (h : Header) (names : List Text) (acts : List PackageAction)
      → Lone k
      → Lists names acts
      → Lists (k ∷ names) (removal k h ∷ acts)
  unfolding contains removal
  Lists-cons k hdr names acts lone h n = elim (Bool-cases (k == n)) [
    | inl same ↦ (λ e. (rw same refl, rw ((==_iff k n).0 same) at lone), λ e. rw same refl)
    | inr other ↦ (
      λ e. let m = (h n).0 (ground (arith, other)) in (rw (other, m.0) refl, m.1),
      λ e. rw (other, (h n).1 (ground (arith, other), e.1)) refl,
    )
  ]

  decide-Lists :
      (k : Text) (h : Header) (names : List Text) (r : Bool × Walk)
      (rest : List Text → List PackageAction)
      → is_anchor tracked k ≡ false
      → ((r.0 ≡ true) ↔ IsKept graph (is_anchor tracked) k)
      → Lists names (rest r.1.cache)
      → Lists (k ∷ names) (decide tracked graph k h r rest)
  unfolding decide
  decide-Lists k h names (true, s) rest a e l =
      Lists-skip k names (rest s.cache) (λ lone. lone.1 (e.0 refl)) l
  decide-Lists k h names (false, s) rest a e l =
      Lists-cons k h names (rest s.cache) (a, λ kept. cc (e.1 kept)) l

  collect-Lists :
      (pkgs : Dict Header) (cache : List Text)
      → CacheOk cache
      → Lists (keys pkgs) (collect tracked graph fuel pkgs cache)
  unfolding collect contains
  collect-Lists [] cache ok = λ n. (λ e. cc, λ e. cc (e.0))
  collect-Lists ((k, h) ∷ pkgs) cache ok = elim (Bool-cases (is_anchor tracked k)) [
    | inl anchor ↦
        rw anchor (Lists-skip k (keys pkgs) _ (λ lone. cc (lone.0)) (collect-Lists pkgs cache ok))
    | inr plain ↦
        let r = has_explicit_ancestor graph (is_anchor tracked) fuel k (fresh_walk cache) in
        let c = ancestor_correct graph (is_anchor tracked) fuel k cache enough ok in
        rw plain (
          decide-Lists k h (keys pkgs) r (collect tracked graph fuel pkgs) plain c.0
            (collect-Lists pkgs r.1.cache c.1))
  ]

anchor_of_empty :
    (tracked : Tracked) (n : Text)
    → is_empty tracked.unrequested ≡ true
    → is_anchor tracked n ≡ true
unfolding is_anchor contains
anchor_of_empty tracked n h = ground arith

-- the tables of the search say what the headers say
IsOrphan-tables :
    (db : List Header) (tracked : Tracked) (n : Text)
    → IsOrphan db tracked n ↔ (
        (contains (keys (scan db).installed) n ≡ true)
        × (is_anchor tracked n ≡ false)
        × ¬ IsKept (reverse_graph db) (is_anchor tracked) n)
unfolding is_anchor
IsOrphan-tables db tracked n =
    let g = reverse_graph db in
    let step = protects_in db in
    let keeps = stays_for tracked in
    let same = edge-reverse_graph db in
    (
      λ o.
          let dep = o.as_dependency in
          let free = o.not_for_builds in
          (
            keys-scan db n ∙ o.installed,
            ground arith,
            λ k. o.untied (IsKept-IsTied g step keeps same n k),
          ),
      λ t.
          let plain = t.1 in
          record {
            installed = sym (keys-scan db n) ∙ t.0;
            as_dependency = ground arith;
            not_for_builds = ground arith;
            untied = λ k. t.2 (IsTied-IsKept g step keeps same n k);
          },
    )

-- The result lists a name exactly when a package of it is installed that is recorded as a
-- dependency and not as a build dependency, and no chain of protecting packages leads up from it
-- to one that is not recorded as a dependency or is a build dependency. A package protects another
-- one when the last header of its name requires, recommends or suggests what the other provides
-- (requirements on rpmlib and on files do not count), or the last header of the other's name
-- supplements what it provides.
pub find_all_orphans_correct :
    (db : List Header) (tracked : Tracked) (n : Text)
    → (contains (action_names (find_all_orphans db tracked)) n ≡ true) ↔ IsOrphan db tracked n
unfolding find_all_orphans
find_all_orphans_correct db tracked n =
    let t = IsOrphan-tables db tracked n in
    elim (Bool-cases (is_empty tracked.unrequested)) [
      | inl none ↦
          rw none
            (unfold contains in (λ e. cc, λ o. cc ((t.0 o).1, anchor_of_empty tracked n none)))
      | inr filled ↦
          let graph = reverse_graph db in
          let l =
            collect-Lists tracked graph (suc (length (keys graph))) (omega arith)
              (scan db).installed [] (λ c h. unfold contains in cc) n in
          rw filled (
            λ e. t.1 ((l.0 e).0, ((l.0 e).1).0, ((l.0 e).1).1),
            λ o. l.1 ((t.0 o).0, ((t.0 o).1, (t.0 o).2)),
          )
    ]

clash : (x y t : Text) → x ≡ y → y ≡ t → (x == t) ≡ false → ⊥
clash x y t e f miss = cc ((==_iff x t).1 (e ∙ f))

any-lower :
    (names : List Text) (target : Text)
    → (any (λ o. lower o == target) names ≡ true)
      ↔ ((n : Text) × (lower n ≡ target) × (contains names n ≡ true))
unfolding contains
any-lower [] target = (λ e. cc, λ e. cc (e.2))
any-lower (k ∷ ks) target = elim (Bool-cases (lower k == target)) [
  | inl hit ↦ rw hit (λ e. (k, (==_iff _ _).0 hit, rw (==_refl k) refl), λ e. refl)
  | inr miss ↦ rw miss (
    λ e. let w = (any-lower ks target).0 e in (w.0, w.1, rw w.2 (ground arith)),
    λ w. elim (Bool-cases (k == w.0)) [
      | inl same ↦
          absurd (clash (lower k) (lower w.0) target (ap lower ((==_iff k w.0).0 same)) w.1 miss)
      | inr other ↦ (any-lower ks target).1 (w.0, w.1, ground (arith, w.2, other))
    ],
  )
]

-- `is_orphan` answers for a name, up to case, what `find_all_orphans` lists; the empty name never is.
pub is_orphan_correct :
    (name : Text) (db : List Header) (tracked : Tracked)
    → (is_orphan name db tracked ≡ true)
      ↔ ((n : Text) × (lower n ≡ lower name) × IsOrphan db tracked n × (name ≢ []))
unfolding is_orphan
is_orphan_correct [] db tracked = (λ e. cc, λ e. absurd (e.3 refl))
is_orphan_correct (c ∷ cs) db tracked =
    let a = any-lower (action_names (find_all_orphans db tracked)) (lower (c ∷ cs)) in
    (
      λ e. let w = a.0 e in (w.0, w.1, (find_all_orphans_correct db tracked w.0).0 w.2, λ p. cc),
      λ w. a.1 (w.0, w.1, (find_all_orphans_correct db tracked w.0).1 w.2),
    )
