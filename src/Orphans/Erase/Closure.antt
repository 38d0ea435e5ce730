-- ===== src/Orphans/Erase/Closure.antt =====
-- The worklist that builds `dep_tree` in `find_erase_orphans` (urpm/core/resolution/orphans.py).
use urpm_ng.Base.{
  Dict, List, Option, none, some, Text, contains, contains-add, contains-append, get_list, keys,
  length, not, zero, suc, ℕ, [], ◌∷◌, ◌==◌, ◌≡◌, ◌⊎◌, ◌||◌, ◌&&◌, ◌+◌, ◌≤◌, ◌↔◌, arith, ==_iff,
  true, false, refl, Bool-cases, inl, inr, sym, ==_refl, length-select-le, any, ◌∙◌,
}
use urpm_ng.Orphans.Ancestors.Kept.{Subset, missing, missing-add}
use urpm_ng.Orphans.Erase.{
  Index, Tree, caps_of, collect_deps, dep_added, dep_tree_of, get_all_deps, grow, grow_fuel,
  neighbours, resolve_cap_to_pkg, supplementers, cap_supplemented_by, supplements_of, requires_of,
  recommends_of, provides_of, visit, visit_all,
}
use urpm_ng.Orphans.Erase.Tables.{IsIndex, contains-mentions, has_tag-keys}

module _ (idx : Index) where
  -- `x` is erased, or a neighbour of a package that is pulled along
  pub data IsPulled (erased : List Text) : Text → Type 0 where
    origin : {x : Text} → contains erased x ≡ true → IsPulled erased x
    along :
        {x : Text} (y : Text)
        → IsPulled erased y
        → contains (neighbours idx y) x ≡ true
        → IsPulled erased x

  resolve_cap_to_pkg-known :
      (c p : Text)
      → resolve_cap_to_pkg idx c ≡ some p
      → contains (get_list idx.cap_to_pkg c) p ≡ true
  unfolding resolve_cap_to_pkg contains
  resolve_cap_to_pkg-known c p e = first (get_list idx.cap_to_pkg c) e
    where
      first :
          (ps : List Text)
          → elim ps as (λ _. Option Text) [ [] ↦ none | q ∷ _ ↦ some q ] ≡ some p
          → contains ps p ≡ true
      first [] e' = cc
      first (q ∷ qs) e' = ground (arith, ==_iff q p)

  dep_added-known :
      (name : Text) (r : Option Text) (deps : List Text)
      → ((p : Text) → r ≡ some p → contains (keys idx.headers) p ≡ true)
      → Subset deps (keys idx.headers)
      → Subset (dep_added name r deps) (keys idx.headers)
  dep_added-known name none deps k sub x h = sub x h
  dep_added-known name (some p) deps k sub x h =
      ground (arith, contains-add deps p x, k p refl, sub x, ==_iff p x)

  pub contains-supplementers :
      (by_cap : Dict (List Text)) (caps : List Text) (x : Text)
      → contains (supplementers idx by_cap caps) x ≡ any (λ c. contains (get_list by_cap c) x) caps
  unfolding supplementers contains
  contains-supplementers by_cap [] x = refl
  contains-supplementers by_cap (c ∷ caps) x = ground (
    arith,
    contains-append (get_list by_cap c) (supplementers idx by_cap caps) x,
    contains-supplementers by_cap caps x,
  )

  any-known :
      (m : Dict (List Text)) (caps : List Text) (x : Text)
      → ((c : Text) → contains (get_list m c) x ≡ true → contains (keys idx.headers) x ≡ true)
      → any (λ c. contains (get_list m c) x) caps ≡ true
      → contains (keys idx.headers) x ≡ true
  any-known m [] x k h = cc
  any-known m (c ∷ caps) x k h = ground (arith, any-known m caps x k, k c)

  -- every neighbour is installed
  module _ (ok : IsIndex idx) where
    collect_deps-known :
        (name : Text) (caps deps : List Text)
        → Subset deps (keys idx.headers)
        → Subset (collect_deps idx name caps deps) (keys idx.headers)
    unfolding collect_deps
    collect_deps-known name [] deps sub = sub
    collect_deps-known name (c ∷ caps) deps sub =
        collect_deps-known name caps (dep_added name (resolve_cap_to_pkg idx c) deps) (
          dep_added-known name (resolve_cap_to_pkg idx c) deps
            (λ p e. ok.provider_known c p (resolve_cap_to_pkg-known c p e)) sub)

    supplementers-known :
        (caps : List Text)
        → Subset (supplementers idx (cap_supplemented_by idx) caps) (keys idx.headers)
    supplementers-known caps x h =
        any-known (cap_supplemented_by idx) caps x
          (λ c e.
            has_tag-keys supplements_of idx.headers c x
              (sym (contains-mentions supplements_of idx.headers c x) ∙ e))
          (sym (contains-supplementers (cap_supplemented_by idx) caps x) ∙ h)

    pub neighbours-known : (name : Text) → Subset (neighbours idx name) (keys idx.headers)
    unfolding neighbours get_all_deps
    neighbours-known name x h = ground (
      arith,
      contains-append (get_all_deps idx name)
          (supplementers idx (cap_supplemented_by idx) (caps_of provides_of idx.headers name)) x,
      supplementers-known (caps_of provides_of idx.headers name) x,
      collect_deps-known name (caps_of recommends_of idx.headers name)
          (collect_deps idx name (caps_of requires_of idx.headers name) [])
          (collect_deps-known name (caps_of requires_of idx.headers name) []
            (λ y hy. unfold contains in cc))
          x,
    )

contains-visit :
    (t : Tree) (d x : Text) → contains (visit t d).dep_tree x ≡ (contains t.dep_tree x || d == x)
unfolding visit
contains-visit t d x = ground (arith, contains-add t.dep_tree d x, ==_iff d x)

-- one round visits a list
contains-visit_all :
    (t : Tree) (deps : List Text) (x : Text)
    → contains (visit_all t deps).dep_tree x ≡ (contains t.dep_tree x || contains deps x)
unfolding visit_all contains
contains-visit_all t [] x = ground arith
contains-visit_all t (d ∷ deps) x =
    rw (contains-visit_all (visit t d) deps x, contains-visit t d x) (ground arith)

-- The state of the worklist: everything found is reachable, and the neighbours of what was taken
-- from the stack have been found.
module _ (idx : Index) (ok : IsIndex idx) (erased : List Text) where
  record Inv (t : Tree) : Type 0 where
    pulled : (x : Text) → contains t.dep_tree x ≡ true → IsPulled idx erased x
    started : Subset erased t.dep_tree
    waiting : Subset t.to_process t.dep_tree
    done :
        (x : Text)
        → contains t.dep_tree x ≡ true
        → (contains t.to_process x ≡ true) ⊎ Subset (neighbours idx x) t.dep_tree

  -- what is left to do
  abbrev cost : Tree → ℕ
  cost t = missing (keys idx.headers) t.dep_tree + length t.to_process

  cost-visit :
      (t : Tree) (d : Text) → contains (keys idx.headers) d ≡ true → cost (visit t d) ≤ cost t
  unfolding visit
  cost-visit t d known = ground (arith, missing-add (keys idx.headers) t.dep_tree d known)

  cost-visit_all :
      (t : Tree) (deps : List Text)
      → Subset deps (keys idx.headers)
      → cost (visit_all t deps) ≤ cost t
  unfolding visit_all contains
  cost-visit_all t [] sub = omega arith
  cost-visit_all t (d ∷ deps) sub = omega (
    arith,
    cost-visit_all (visit t d) deps (λ x h. sub x (ground arith)),
    cost-visit t d (sub d (ground (arith, ==_refl d))),
  )

  -- the stack keeps what it had, and gets what is new
  waiting-visit :
      (t : Tree) (d x : Text)
      → contains (visit t d).to_process x
        ≡ (contains t.to_process x || (not (contains t.dep_tree d) && d == x))
  unfolding visit contains
  waiting-visit t d x = ground arith

  waiting-visit_all :
      (t : Tree) (deps : List Text) (x : Text)
      → contains (visit_all t deps).to_process x
        ≡ (contains t.to_process x || (not (contains t.dep_tree x) && contains deps x))
  unfolding visit_all contains
  waiting-visit_all t [] x = ground arith
  waiting-visit_all t (d ∷ deps) x =
      rw (waiting-visit_all (visit t d) deps x, waiting-visit t d x, contains-visit t d x)
        (ground (arith, ==_iff d x))

  -- after a round the neighbours of `name` have been found
  done-step :
      (t : Tree) (name : Text) (rest : List Text) (x : Text)
      → contains t.to_process x ≡ (name == x || contains rest x)
      → Inv t
      → let t' = visit_all (record t { to_process = rest }) (neighbours idx name) in
        contains t'.dep_tree x ≡ true
        → (contains t'.to_process x ≡ true) ⊎ Subset (neighbours idx x) t'.dep_tree
  done-step t name rest x top inv h = elim (Bool-cases (contains t.dep_tree x)) [
    | inr new ↦ inl (ground (arith, waiting-visit_all t1 ns x, contains-visit_all t1 ns x))
    | inl old ↦ elim (inv.done x old) [
      | inr closed ↦ inr (λ y hy. ground (arith, contains-visit_all t1 ns y, closed y hy))
      | inl waits ↦ elim (Bool-cases (name == x)) [
        | inl e ↦ inr (λ y hy.
            let mine : contains ns y ≡ true = rw (sym ((==_iff name x).0 e)) at hy in
            ground (arith, contains-visit_all t1 ns y))
        | inr ne ↦ inl (ground (arith, waiting-visit_all t1 ns x))
      ]
    ]
  ]
    where
      t1 : Tree
      t1 = record t { to_process = rest }

      ns : List Text
      ns = neighbours idx name

  step-Inv :
      (t : Tree) (name : Text) (rest : List Text)
      → t.to_process ≡ name ∷ rest
      → Inv t
      → Inv (visit_all (record t { to_process = rest }) (neighbours idx name))
  unfolding contains
  step-Inv t name rest e inv =
      let t' : Tree = record t { to_process = rest } in
      let ns = neighbours idx name in
      let top : (x : Text) → contains t.to_process x ≡ (name == x || contains rest x) =
        λ x. rw e refl in
      let here : contains t.dep_tree name ≡ true =
        inv.waiting name (rw (top name, ==_refl name) refl) in
      record {
        pulled = λ x h. elim (Bool-cases (contains t.dep_tree x)) [
          | inl old ↦ inv.pulled x old
          | inr new ↦ along name (inv.pulled name here) (ground (arith, contains-visit_all t' ns x))
        ];
        started = λ x h. ground (arith, contains-visit_all t' ns x, inv.started x);
        waiting = λ x h.
            ground
              (arith, contains-visit_all t' ns x, waiting-visit_all t' ns x, inv.waiting x, top x);
        done = λ x h. done-step t name rest x (top x) inv h;
      }

  grow_done :
      (fuel : ℕ) (tree stack : List Text)
      → let t : Tree = record { dep_tree = tree; to_process = stack } in
        cost t ≤ fuel → Inv t → Inv (grow idx fuel t) × ((grow idx fuel t).to_process ≡ [])
  unfolding grow
  grow_done zero tree [] c inv = (inv, refl)
  grow_done zero tree (name ∷ rest) c inv = absurd (omega arith)
  grow_done (suc fuel) tree [] c inv = (inv, refl)
  grow_done (suc fuel) tree (name ∷ rest) c inv =
      let t' : Tree = record { dep_tree = tree; to_process = rest } in
      let next = visit_all t' (neighbours idx name) in
      grow_done fuel next.dep_tree next.to_process
        (omega (arith, cost-visit_all t' (neighbours idx name) (neighbours-known idx ok name)))
        (step-Inv (record { dep_tree = tree; to_process = name ∷ rest }) name rest refl inv)

  pub dep_tree_correct :
      (x : Text) → (contains (dep_tree_of idx erased) x ≡ true) ↔ IsPulled idx erased x
  unfolding dep_tree_of contains
  dep_tree_correct x =
      let first : Inv (record { dep_tree = erased; to_process = erased }) = record {
        pulled = λ y h. origin h;
        started = λ y h. h;
        waiting = λ y h. h;
        done = λ y h. inl h;
      } in
      let r =
        grow_done (grow_fuel idx erased) erased erased
          (omega (arith, length-select-le (λ k. not (contains erased k)) (keys idx.headers)))
          first in
      ((r.0).pulled x, complete _ r.0 r.1 x)
    where
      complete :
          (t : Tree)
          → Inv t
          → t.to_process ≡ []
          → (y : Text) → IsPulled idx erased y
          → contains t.dep_tree y ≡ true
      complete t inv e y (origin h) = inv.started y h
      complete t inv e y (along z p h) = elim (inv.done z (complete t inv e z p)) [
        | inl waits ↦ let no_more : contains t.to_process z ≡ false = rw e refl in cc
        | inr sub ↦ sub y h
      ]
