-- ===== src/Orphans/BuildDeps/Correct.antt =====
-- The leftovers of `find_all_builddep_orphans` as a predicate, and the search for them.
use urpm_ng.Base.{
  Bool, any, codes, select, if◌then◌else◌, ap, ◌||◌, Bool-cases, Dict, List, Text, add, add, arith,
  contains, false, get_list, is_empty, keys, length, lower, not, true, zero, suc, ℕ, [], ◌∷◌, ◌==◌,
  ◌≡◌, ◌&&◌, ◌↔◌, refl, inl, inr, ==_iff, ==_refl, sym, ◌∙◌,
}
use urpm_ng.Orphans.Rpmdb.{Header, is_package_cap, removal, action_names}
use urpm_ng.Orphans.Headers.{gives_any, gives_package, has_package, is_installed}
use urpm_ng.Orphans.Edges.{
  IsKept-IsTied, IsTied, IsTied-IsKept, keys-scan, needs-gives_any, needs-gives_package,
}
use urpm_ng.Orphans.Graph.{edge, edge-protect_providers, edge-scan, needs, protect_providers, scan}
use urpm_ng.Orphans.Ancestors.{Walk, found, after, walk, has_explicit_ancestor}
use urpm_ng.Orphans.Ancestors.Kept.{IsKept}
use urpm_ng.Orphans.Ancestors.Correct.{ancestor_correct}
use urpm_ng.Orphans.All.{Tracked}
use urpm_ng.Orphans.BuildDeps.{
  link_caps, link_headers, strong_graph, continue, look, has_real_explicit_ancestor, is_explicit,
  collect_builddeps, find_all_builddep_orphans,
}

-- The walk without a cache agrees with the one that starts from an empty cache.
module _ (graph : Dict (List Text)) (keeps : Text → Bool) where
  abbrev from_path : List Text → Walk
  from_path v = record { path = v; cache = [] }

  abbrev Agrees : Bool × List Text → Bool × Walk → Type 0
  Agrees p r = (p.0 ≡ r.0) × (p.1 ≡ r.1.path) × (r.0 ≡ false → r.1.cache ≡ [])

  continue-Agrees :
      (n : Text) (p : Bool × List Text) (r : Bool × Walk) (rest : List Text → Bool × List Text)
      (rest' : Walk → Bool × Walk)
      → Agrees p r
      → ((v : List Text) → Agrees (rest v) (rest' (from_path v)))
      → Agrees (continue p rest) (after n r rest')
  unfolding continue after found
  continue-Agrees n (true, v) (true, s) rest rest' h next = (refl, h.1, λ e. cc)
  continue-Agrees n (true, v) (false, s) rest rest' h next = cc (h.0)
  continue-Agrees n (false, v) (true, s) rest rest' h next = cc (h.0)
  continue-Agrees n (false, v) (false, s) rest rest' h next =
      let same : s ≡ from_path v = λ i. record { path = sym h.1 i; cache = h.2 refl i } in
      rw same (next v)

  look-Agrees :
      (call : Text → List Text → Bool × List Text) (call' : Text → Walk → Bool × Walk) (n : Text)
      (ds v : List Text)
      → ((d : Text) (w : List Text) → Agrees (call d w) (call' d (from_path w)))
      → Agrees (look graph keeps call ds v) (walk graph keeps call' n ds (from_path v))
  unfolding look walk found
  look-Agrees call call' n [] v h = (refl, refl, λ e. refl)
  look-Agrees call call' n (d ∷ ds) v h = elim (Bool-cases (keeps d)) [
    | inl k ↦ rw k (refl, refl, λ e. cc)
    | inr k ↦ rw k (
        continue-Agrees n (call d v) (call' d (from_path v)) (look graph keeps call ds)
          (walk graph keeps call' n ds) (h d v) λ w. look-Agrees call call' n ds w h)
  ]

  ancestor-Agrees :
      (fuel : ℕ) (n : Text) (v : List Text)
      → Agrees
          (has_real_explicit_ancestor graph keeps fuel n v)
          (has_explicit_ancestor graph keeps fuel n (from_path v))
  unfolding has_real_explicit_ancestor has_explicit_ancestor contains
  ancestor-Agrees zero n v = (refl, refl, λ e. refl)
  ancestor-Agrees (suc fuel) n v = elim (Bool-cases (contains v n)) [
    | inl seen ↦ rw seen (refl, refl, λ e. refl)
    | inr fresh ↦ rw fresh (
        look-Agrees (has_real_explicit_ancestor graph keeps fuel)
          (has_explicit_ancestor graph keeps fuel) n (get_list graph n) (add v n)
          (ancestor-Agrees fuel))
  ]

module _ (tracked : Tracked) (graph : Dict (List Text)) (fuel : ℕ) where
  abbrev unanchored : Text → Bool
  unanchored n =
      contains (keys tracked.builddeps) (lower n)
      && not ((has_real_explicit_ancestor graph (is_explicit tracked) fuel n []).0)

  collect_builddeps-contains :
      (pkgs : Dict Header) (n : Text)
      → contains (action_names (collect_builddeps tracked graph fuel pkgs)) n
        ≡ (contains (keys pkgs) n && unanchored n)
  unfolding collect_builddeps contains removal
  collect_builddeps-contains [] n = refl
  collect_builddeps-contains ((k, h) ∷ pkgs) n = elim (Bool-cases (k == n)) [
    | inl same ↦
        rw ((==_iff k n).0 same) (ground (arith, ==_refl n, collect_builddeps-contains pkgs n))
    | inr other ↦ ground (arith, other, collect_builddeps-contains pkgs n)
  ]

no_keys {ℓ} : {V : Type ℓ} (d : Dict V) (n : Text) → is_empty d ≡ true → contains (keys d) n ≡ false
unfolding contains
no_keys [] n h = refl
no_keys (e ∷ d) n h = cc

edge-link_caps :
    (m : Dict (List Text)) (name : Text) (caps : List Text) (g : Dict (List Text)) (x d : Text)
    → edge (link_caps m name caps g) x d
      ≡ (edge g x d || (name == d && not (x == name) && needs m caps x))
unfolding link_caps
edge-link_caps m name [] g x d = ground arith
edge-link_caps m name (c ∷ caps) g x d =
    let rest = edge-link_caps m name caps (protect_providers name (get_list m c) g) x d in
    let here = edge-protect_providers name (get_list m c) g x d in ground arith

-- a header of the name `d` requires or recommends what `x`, another package, provides
abbrev pub depends_in : List Header → List Header → Text → Text → Bool
depends_in db hs x d =
    any
      (λ (h : Header).
        is_installed h
        && (h.name == d
            && (not (x == h.name)
                && (gives_package db h.requires x || gives_any db h.recommends x))))
      hs

module _ (db : List Header) where
  edge-link_headers :
      (hs : List Header) (g : Dict (List Text)) (x d : Text)
      → edge (link_headers (scan db).provides_map hs g) x d ≡ (edge g x d || depends_in db hs x d)
  unfolding link_headers
  edge-link_headers [] g x d = ground arith
  edge-link_headers (h ∷ hs) g x d =
      let m = (scan db).provides_map in
      let g1 = link_caps m h.name (select is_package_cap h.requires) g in
      let rest =
        edge-link_headers hs
          (if h.name == codes "gpg-pubkey" then g else link_caps m h.name h.recommends g1) x d in
      let a = edge-link_caps m h.name (select is_package_cap h.requires) g x d in
      let b = edge-link_caps m h.name h.recommends g1 x d in
      let p = needs-gives_package db h.requires x in
      let q = needs-gives_any db h.recommends x in ground arith

  edge-strong_graph : (x d : Text) → edge (strong_graph db) x d ≡ depends_in db db x d
  unfolding strong_graph
  edge-strong_graph x d =
      edge-link_headers db (scan db).reverse_deps x d
      ∙ ap (λ b. b || depends_in db db x d) (edge-scan db x d)

-- the package is recorded neither as a dependency nor as a build dependency
abbrev pub was_asked_for : Tracked → Text → Bool
was_asked_for t d =
    not (contains t.unrequested (lower d)) && not (contains (keys t.builddeps) (lower d))

-- An installed build dependency up which no package that was asked for depends.
pub record IsLeftover (db : List Header) (tracked : Tracked) (n : Text) : Type 0 where
  pub installed : has_package db n ≡ true
  pub built_for : contains (keys tracked.builddeps) (lower n) ≡ true
  pub untied : ¬ IsTied (depends_in db db) (was_asked_for tracked) n

has_real_correct :
    (db : List Header) (tracked : Tracked) (n : Text)
    → ((has_real_explicit_ancestor
          (strong_graph db)
          (is_explicit tracked)
          (suc (length (keys (strong_graph db))))
          n
          []).0
        ≡ true)
      ↔ IsKept (strong_graph db) (is_explicit tracked) n
has_real_correct db tracked n =
    let g = strong_graph db in
    let a = ancestor-Agrees g (is_explicit tracked) (suc (length (keys g))) n [] in
    let c =
      ancestor_correct g (is_explicit tracked) (suc (length (keys g))) n [] (omega arith)
        (λ c h. unfold contains in cc) in
    (λ e. c.0.0 (sym a.0 ∙ e), λ k. a.0 ∙ c.0.1 k)

-- The result lists a name exactly when a package of it is installed, it is recorded as a build
-- dependency, and no chain of packages leads up from it, each requiring or recommending what the
-- one before provides (requirements on rpmlib and on files do not count), to a package that is
-- recorded neither as a dependency nor as a build dependency.
pub find_all_builddep_orphans_correct :
    (db : List Header) (tracked : Tracked) (n : Text)
    → (contains (action_names (find_all_builddep_orphans db tracked)) n ≡ true)
      ↔ IsLeftover db tracked n
unfolding find_all_builddep_orphans is_explicit
find_all_builddep_orphans_correct db tracked n = elim (Bool-cases (is_empty tracked.builddeps)) [
  | inl none' ↦ rw none' (
      unfold contains in
      (λ e. cc, λ o. cc (o.built_for, no_keys tracked.builddeps (lower n) none')))
  | inr some' ↦
      let g = strong_graph db in
      let c = collect_builddeps-contains tracked g (suc (length (keys g))) (scan db).installed n in
      let h = has_real_correct db tracked n in
      let k = keys-scan db n in
      let up = IsTied-IsKept g (depends_in db db) (is_explicit tracked) (edge-strong_graph db) n in
      let down =
        IsKept-IsTied g (depends_in db db) (is_explicit tracked) (edge-strong_graph db) n in
      rw some' (
        λ e. record {
          installed = sym k ∙ ground (arith, c, e);
          built_for = ground (arith, c, e);
          untied = λ tied. ground (arith, c, e, h.1 (up tied));
        },
        λ o.
            elim (Bool-cases (
              (has_real_explicit_ancestor g (is_explicit tracked) (suc (length (keys g))) n
                []).0)) [
                  | inl above ↦ absurd (o.untied (down (h.0 above)))
                  | inr below ↦ rw (c, k, o.installed, o.built_for, below) refl
                ],
      )
]
