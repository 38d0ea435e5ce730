-- ===== src/Resilient/Dependents/Correct.antt =====
-- `find_dependents` of urpm/core/resilient_install.py against the relation of need.
use urpm_ng.Base.{
  Bool, Bool-cases, Dict, List, Option, Text, add, any, contains, contains-add, contains-add_self,
  contains-append, contains-select, get, get_list, is_empty, keys, length, length-append,
  length-select-le, not, select, zero, suc, ℕ, [], ◌∷◌, ◌++◌, ◌+◌, ◌==◌, ◌||◌, ◌&&◌, ◌≡◌, ◌↔◌, ◌≤◌,
  ◌<◌, arith, ==_iff, ==_refl, false, true, refl, inl, inr, sym, ◌∙◌,
}
use urpm_ng.Orphans.Graph.{edge, edge-link_forward, link_forward, needs}
use urpm_ng.Orphans.Rpmdb.{Header}
use urpm_ng.Resilient.Dependents.Rpms.{has_rpm, keys-maps, requires-maps, requires_in}
use urpm_ng.Resilient.Dependents.{
  Maps, dependents_of, edges_left, exclude, find_dependents, link_requirers, map_headers, no_maps,
}

module _ (m : Dict (List Text)) where
  -- the package `d` requires a capability that `x`, another one, provides
  abbrev pub requires_from : Dict (List Text) → Text → Text → Bool
  requires_from pkgs d x =
      any (λ (e : Text × List Text). e.0 == d && not (x == d) && needs m e.1 x) pkgs

  edge-link_requirers :
      (pkgs g : Dict (List Text)) (x d : Text)
      → edge (link_requirers m pkgs g) x d ≡ (edge g x d || requires_from pkgs d x)
  unfolding link_requirers
  edge-link_requirers [] g x d = ground arith
  edge-link_requirers ((name, caps) ∷ pkgs) g x d =
      rw
        (
          edge-link_requirers pkgs (link_forward m name caps g) x d,
          edge-link_forward m name caps g x d,
        )
        (ground (arith, ==_iff name d))

-- The package is a failed one of the transaction, or requires a capability that such a package
-- provides.
pub data IsDoomed (m : Maps) (failed : List Text) : Text → Type 0 where
  itself :
      {x : Text}
      → contains failed x ≡ true
      → contains (keys m.pkg_requires) x ≡ true
      → IsDoomed m failed x
  requirer :
      {x : Text} (y : Text)
      → IsDoomed m failed y
      → requires_from m.cap_providers m.pkg_requires x y ≡ true
      → IsDoomed m failed x

edges_left-add :
    (e : List Text) (g : Dict (List Text)) (x : Text)
    → contains e x ≡ false
    → edges_left (add e x) g + length (get_list g x) ≤ edges_left e g
unfolding edges_left get_list get
edges_left-add e [] x h = omega arith
edges_left-add e ((y, ds) ∷ g) x h = elim (Bool-cases (y == x)) [
  | inl same ↦
      rw ((==_iff y x).0 same, contains-add_self e x, ==_refl x, h)
        (omega (arith, edges_left-add e g x h))
  | inr apart ↦ rw (contains-add e x y) (ground (arith, edges_left-add e g x h, ==_iff x y, apart))
]

module _ (m : Maps) (failed : List Text) where
  abbrev graph : Dict (List Text)
  graph = link_requirers m.cap_providers m.pkg_requires []

  edge-graph : (x d : Text) → edge graph x d ≡ requires_from m.cap_providers m.pkg_requires d x
  edge-graph x d =
      rw (edge-link_requirers m.cap_providers m.pkg_requires [] x d)
        (unfold get_list get contains in refl)

  -- between two rounds
  record Inv (excluded queue : List Text) : Type 0 where
    doomed : (x : Text) → (contains excluded x || contains queue x) ≡ true → IsDoomed m failed x
    seeds :
        (x : Text)
        → contains failed x ≡ true
        → contains (keys m.pkg_requires) x ≡ true
        → (contains excluded x || contains queue x) ≡ true
    closed :
        (x d : Text)
        → contains excluded x ≡ true
        → edge graph x d ≡ true
        → (contains excluded d || contains queue d) ≡ true

  -- the queue after a package was excluded
  abbrev queue_after : List Text → Text → List Text → List Text
  queue_after excluded pkg queue =
      queue ++ select (λ d. not (contains (add excluded pkg) d)) (get_list graph pkg)

  contains-queue_after :
      (excluded : List Text) (pkg : Text) (queue : List Text) (x : Text)
      → contains (queue_after excluded pkg queue) x
        ≡ (contains queue x || (edge graph pkg x && not (contains (add excluded pkg) x)))
  contains-queue_after excluded pkg queue x =
      rw
        (
          contains-append queue
              (select (λ d. not (contains (add excluded pkg) d)) (get_list graph pkg)) x,
          contains-select (λ d. not (contains (add excluded pkg) d)) (get_list graph pkg) x,
        )
        refl

  skip-Inv :
      (excluded : List Text) (pkg : Text) (queue : List Text)
      → contains excluded pkg ≡ true
      → Inv excluded (pkg ∷ queue)
      → Inv excluded queue
  unfolding contains
  skip-Inv excluded pkg queue old inv = record {
    doomed = λ x h. inv.doomed x (ground (arith, h));
    seeds = λ x hf hk. ground (arith, inv.seeds x hf hk, ==_iff pkg x, old);
    closed = λ x d hx e. ground (arith, inv.closed x d hx e, ==_iff pkg d, old);
  }

  exclude-Inv :
      (excluded : List Text) (pkg : Text) (queue : List Text)
      → Inv excluded (pkg ∷ queue)
      → Inv (add excluded pkg) (queue_after excluded pkg queue)
  unfolding contains
  exclude-Inv excluded pkg queue inv =
      let here = inv.doomed pkg (ground (arith, ==_refl pkg)) in
      record {
        doomed = λ x h. elim (Bool-cases (contains excluded x || (pkg == x || contains queue x))) [
          | inl old ↦ inv.doomed x old
          | inr new ↦ requirer pkg here (
              sym (edge-graph pkg x)
              ∙ ground
                  (arith, contains-add excluded pkg x, contains-queue_after excluded pkg queue x))
        ];
        seeds = λ x hf hk. ground (
          arith,
          inv.seeds x hf hk,
          contains-add excluded pkg x,
          contains-queue_after excluded pkg queue x,
        );
        closed = λ x d hx e. elim (Bool-cases (contains excluded x)) [
          | inl old ↦ ground (
            arith,
            inv.closed x d old e,
            contains-add excluded pkg d,
            contains-queue_after excluded pkg queue d,
          )
          | inr new ↦
              let same : x ≡ pkg =
                sym ((==_iff pkg x).0 (ground (arith, contains-add excluded pkg x))) in
              let e' : edge graph pkg d ≡ true = rw same at e in
              ground (arith, contains-add excluded pkg d, contains-queue_after excluded pkg queue d)
        ];
      }

  exclude_lem :
      (fuel : ℕ) (excluded queue : List Text)
      → length queue + edges_left excluded graph < fuel
      → Inv excluded queue
      → Inv (exclude graph fuel excluded queue) []
  unfolding exclude
  exclude_lem zero excluded queue h inv = absurd (omega arith)
  exclude_lem (suc fuel) excluded [] h inv = inv
  exclude_lem (suc fuel) excluded (pkg ∷ queue) h inv = elim (Bool-cases (contains excluded pkg)) [
    | inl old ↦
        rw old (exclude_lem fuel excluded queue (omega arith) (skip-Inv excluded pkg queue old inv))
    | inr new ↦ rw new (
        exclude_lem fuel (add excluded pkg) (queue_after excluded pkg queue)
          (omega (
            arith,
            edges_left-add excluded graph pkg new,
            length-append queue
                (select (λ d. not (contains (add excluded pkg) d)) (get_list graph pkg)),
            length-select-le (λ d. not (contains (add excluded pkg) d)) (get_list graph pkg),
          ))
          (exclude-Inv excluded pkg queue inv))
  ]

  start-Inv : Inv [] (select (contains (keys m.pkg_requires)) failed)
  unfolding contains
  start-Inv = record {
    doomed = λ x h.
        let both = contains-select (contains (keys m.pkg_requires)) failed x in
        itself (ground (arith, both)) (ground (arith, both));
    seeds = λ x hf hk. rw (contains-select (contains (keys m.pkg_requires)) failed x, hf, hk) refl;
    closed = λ x d h e. cc;
  }

  Inv-complete :
      (excluded : List Text) (x : Text)
      → Inv excluded []
      → IsDoomed m failed x
      → contains excluded x ≡ true
  unfolding contains
  Inv-complete excluded x inv (itself h k) = ground (arith, inv.seeds x h k)
  Inv-complete excluded x inv (requirer y p e) =
      ground (arith, inv.closed y x (Inv-complete excluded y inv p) (edge-graph y x ∙ e))

  dependents_of-IsDoomed :
      (x : Text) → (contains (dependents_of m failed) x ≡ true) ↔ IsDoomed m failed x
  unfolding dependents_of contains
  dependents_of-IsDoomed x =
      let queue = select (contains (keys m.pkg_requires)) failed in
      let inv =
        exclude_lem (suc (length queue + edges_left [] graph)) [] queue (omega arith) start-Inv in
      (λ h. inv.doomed x (rw h refl), λ d. Inv-complete (dependents_of m failed) x inv d)

-- The package is a failed one of the transaction, or requires what such a package gives.
pub data IsExcluded (rpms : List (Option Header)) (failed : List Text) : Text → Type 0 where
  failing : {x : Text} → contains failed x ≡ true → has_rpm rpms x ≡ true → IsExcluded rpms failed x
  dependent :
      {x : Text} (y : Text)
      → IsExcluded rpms failed y
      → requires_in rpms x y ≡ true
      → IsExcluded rpms failed x

module _ (failed : List Text) (rpms : List (Option Header)) where
  IsDoomed-IsExcluded :
      (x : Text) → IsDoomed (map_headers no_maps rpms) failed x → IsExcluded rpms failed x
  IsDoomed-IsExcluded x (itself h k) = failing h (sym (keys-maps rpms x) ∙ k)
  IsDoomed-IsExcluded x (requirer y p e) =
      dependent y (IsDoomed-IsExcluded y p) (sym (requires-maps rpms x y) ∙ e)

  IsExcluded-IsDoomed :
      (x : Text) → IsExcluded rpms failed x → IsDoomed (map_headers no_maps rpms) failed x
  IsExcluded-IsDoomed x (failing h k) = itself h (keys-maps rpms x ∙ k)
  IsExcluded-IsDoomed x (dependent y p e) =
      requirer y (IsExcluded-IsDoomed y p) (requires-maps rpms x y ∙ e)

-- The search ends, and for failed names and files, neither of them empty, it finds exactly the
-- failed names of which a file can be read and, through any number of steps, the names whose last
-- readable file requires what a file of a found name gives: that name or one of its provides.
-- Requirements on rpmlib and config do not count, and neither do those of an earlier file of a name.
pub find_dependents_correct :
    (failed_names : List Text) (rpms : List (Option Header)) (x : Text)
    → is_empty failed_names ≡ false
    → is_empty rpms ≡ false
    → (contains (find_dependents failed_names rpms) x ≡ true) ↔ IsExcluded rpms failed_names x
unfolding find_dependents
find_dependents_correct failed_names rpms x hf hr =
    let d = dependents_of-IsDoomed (map_headers no_maps rpms) failed_names x in
    rw (find_dependents, hf, hr)
      (
        λ h. IsDoomed-IsExcluded failed_names rpms x (d.0 h),
        λ e. d.1 (IsExcluded-IsDoomed failed_names rpms x e),
      )
