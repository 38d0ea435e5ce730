-- ===== src/Orphans/Upgrade/Search.antt =====
-- `_is_orphan` of `find_upgrade_orphans` (urpm/core/resolution/orphans.py): the search for an
-- ancestor that was not installed as a dependency, with a stack whose top is the head of a list.
use urpm_ng.Base.{
  Bool, Bool-cases, Dict, List, Option, Option-cases, none, some, Text, add, contains, contains-add,
  contains-append, get_list, get, if◌then◌else◌, length, length-select-le, not, zero, suc, ℕ, [],
  ◌∷◌, ◌++◌, ◌==◌, ◌≡◌, ◌⊎◌, ◌↔◌, ◌||◌, ◌&&◌, ◌+◌, ◌≤◌, ◌<◌, arith, ==_iff, ==_refl, true, false,
  refl, inl, inr, sym,
}
use urpm_ng.Orphans.Ancestors.Failure.{IsClosed, IsClosed-not-IsKept}
use urpm_ng.Orphans.Ancestors.Kept.{IsKept, direct, through, Subset, missing, missing-add}

pub record Search : Type 0 where
  pub visited : List Text
  pub stack : List Text

unfoldable pub visit_parent : Search → Text → Search
visit_parent s parent =
    if contains s.visited parent
    then s
    else record { visited = add s.visited parent; stack = parent ∷ s.stack }

module _ (rev_deps : Dict (List Text)) (is_explicit : Text → Bool) where
  -- the `for` loop over the parents; `none` is `return False`
  unfoldable pub push_parents : Search → List Text → Option Search
  unfolding visit_parent
  push_parents s [] = some s
  push_parents s (parent ∷ parents) =
      let next = λ (t : Search). push_parents t parents in
      if is_explicit parent then none else next (visit_parent s parent)

  unfoldable pub search : ℕ → Search → Bool
  unfolding push_parents
  search zero s = true
  search (suc fuel) s = elim s.stack [
    | [] ↦ true
    | current ∷ rest ↦ elim (push_parents (record s { stack = rest }) (get_list rev_deps current)) [
      | none ↦ false
      | some s' ↦ search fuel s'
    ]
  ]

-- every parent that the graph names; each is pushed once at most
unfoldable pub all_parents : Dict (List Text) → List Text
all_parents [] = []
all_parents ((x, parents) ∷ g) = parents ++ all_parents g

unfoldable pub orphan_search : Dict (List Text) → (Text → Bool) → Text → Bool
unfolding search all_parents
orphan_search rev_deps is_explicit name =
    search rev_deps is_explicit (suc (suc (length (all_parents rev_deps))))
      (record { visited = name ∷ []; stack = name ∷ [] })

all_parents-Subset : (g : Dict (List Text)) (x : Text) → Subset (get_list g x) (all_parents g)
unfolding get_list get all_parents contains
all_parents-Subset [] x d h = cc
all_parents-Subset ((y, ps) ∷ g) x d h =
    ground (arith, all_parents-Subset g x d, contains-append ps (all_parents g) d)

module _ (g : Dict (List Text)) (keeps : Text → Bool) where
  abbrev cost : Search → ℕ
  cost s = missing (all_parents g) s.visited + length s.stack

  -- the state of the search from `n`: nothing explicit was met, all that was visited is above `n`,
  -- and the parents of what was taken from the stack have been visited
  record Inv (n : Text) (s : Search) : Type 0 where
    above : (x : Text) → contains s.visited x ≡ true → IsKept g keeps x → IsKept g keeps n
    waiting : Subset s.stack s.visited
    started : contains s.visited n ≡ true
    done :
        (x : Text)
        → contains s.visited x ≡ true
        → (contains s.stack x ≡ true) ⊎ IsClosed g keeps s.visited x

  -- what the loop over `ps` leaves
  record Pushed (s : Search) (ps : List Text) (t : Search) : Type 0 where
    visits : (x : Text) → contains t.visited x ≡ (contains s.visited x || contains ps x)
    stacks :
        (x : Text)
        → contains t.stack x ≡ (contains s.stack x || (not (contains s.visited x) && contains ps x))
    unkept : (x : Text) → contains ps x ≡ true → keeps x ≡ false
    cheaper : cost t ≤ cost s

  visited-visit_parent :
      (s : Search) (p x : Text)
      → contains (visit_parent s p).visited x ≡ (contains s.visited x || p == x)
  unfolding visit_parent
  visited-visit_parent s p x = ground (arith, contains-add s.visited p x, ==_iff p x)

  stack-visit_parent :
      (s : Search) (p x : Text)
      → contains (visit_parent s p).stack x
        ≡ (contains s.stack x || (not (contains s.visited p) && p == x))
  unfolding visit_parent contains
  stack-visit_parent s p x = ground arith

  cost-visit_parent :
      (s : Search) (p : Text) → contains (all_parents g) p ≡ true → cost (visit_parent s p) ≤ cost s
  unfolding visit_parent
  cost-visit_parent s p known = ground (arith, missing-add (all_parents g) s.visited p known)

  push_parents-some :
      (s : Search) (ps : List Text) (t : Search)
      → Subset ps (all_parents g)
      → push_parents g keeps s ps ≡ some t
      → Pushed s ps t
  unfolding push_parents contains
  push_parents-some s [] t sub e =
      let same : t ≡ s = cc in
      record {
        visits = λ x. rw same (ground arith);
        stacks = λ x. rw same (ground arith);
        unkept = λ x h. cc;
        cheaper = rw same (omega arith);
      }
  push_parents-some s (p ∷ ps) t sub e = elim (Bool-cases (keeps p)) [
    | inl k ↦ absurd (cc (rw k at e))
    | inr nk ↦
        let r =
          push_parents-some (visit_parent s p) ps t (λ x h. sub x (ground arith)) (rw nk at e) in
        record {
          visits = λ x. rw (r.visits x, visited-visit_parent s p x) (ground arith);
          stacks = λ x.
              rw (r.stacks x, stack-visit_parent s p x, visited-visit_parent s p x)
                (ground (arith, ==_iff p x));
          unkept = λ x h. ground (arith, r.unkept x, ==_iff p x);
          cheaper = omega (arith, r.cheaper, cost-visit_parent s p (sub p (rw (==_refl p) refl)));
        }
  ]

  push_parents-none :
      (s : Search) (ps : List Text)
      → push_parents g keeps s ps ≡ none
      → (p : Text) × (contains ps p ≡ true) × (keeps p ≡ true)
  unfolding push_parents contains
  push_parents-none s [] e = cc
  push_parents-none s (p ∷ ps) e = elim (Bool-cases (keeps p)) [
    | inl k ↦ (p, rw (==_refl p) refl, k)
    | inr nk ↦
        let r = push_parents-none (visit_parent s p) ps (rw nk at e) in
        (r.0, ground (arith, r.1), r.2)
  ]

  -- after a round the parents of `current` have been visited
  done-step :
      (n : Text) (visited : List Text) (current : Text) (rest : List Text) (t : Search)
      → Inv n (record { visited = visited; stack = current ∷ rest })
      → Pushed (record { visited = visited; stack = rest }) (get_list g current) t
      → (x : Text) → contains t.visited x ≡ true
      → (contains t.stack x ≡ true) ⊎ IsClosed g keeps t.visited x
  unfolding contains
  done-step n visited current rest t inv p x h = elim (Bool-cases (contains visited x)) [
    | inr new ↦ inl (ground (arith, p.stacks x, p.visits x))
    | inl old ↦ elim (inv.done x old) [
      | inr c ↦ inr (record {
        open_ends = λ d hd. ((c.open_ends d hd).0, rw (p.visits d, (c.open_ends d hd).1) refl);
      })
      | inl waits ↦ elim (Bool-cases (current == x)) [
        | inr ne ↦ inl (ground (arith, p.stacks x))
        | inl e ↦
            let here : x ≡ current = sym ((==_iff current x).0 e) in
            inr (record {
              open_ends = λ d hd.
                  let mine : contains (get_list g current) d ≡ true = rw here at hd in
                  (p.unkept d mine, ground (arith, p.visits d));
            })
      ]
    ]
  ]

  -- a round that met nothing explicit
  step-Inv :
      (n : Text) (visited : List Text) (current : Text) (rest : List Text) (t : Search)
      → Inv n (record { visited = visited; stack = current ∷ rest })
      → Pushed (record { visited = visited; stack = rest }) (get_list g current) t
      → Inv n t
  unfolding contains
  step-Inv n visited current rest t inv p = record {
    above = λ x h kept. elim (Bool-cases (contains visited x)) [
      | inl old ↦ inv.above x old kept
      | inr new ↦
          inv.above current (inv.waiting current (rw (==_refl current) refl))
            (through x (ground (arith, p.visits x)) kept)
    ];
    waiting = λ x h. ground (arith, p.stacks x, p.visits x, inv.waiting x);
    started = rw (p.visits n, inv.started) refl;
    done = λ x h. done-step n visited current rest t inv p x h;
  }

  search_correct :
      (n : Text) (fuel : ℕ) (visited stack : List Text)
      → let s : Search = record { visited = visited; stack = stack } in
        cost s < fuel → Inv n s → (search g keeps fuel s ≡ true) ↔ ¬ IsKept g keeps n
  unfolding search
  search_correct n zero visited stack m inv = absurd (omega arith)
  search_correct n (suc fuel) visited [] m inv = (
    λ _.
        IsClosed-not-IsKept g keeps visited
          (λ x h. elim (inv.done x h) [ inl bad ↦ absurd (unfold contains in cc bad) | inr c ↦ c ])
          inv.started,
    λ _. refl,
  )
  search_correct n (suc fuel) visited (current ∷ rest) m inv =
      let here = inv.waiting current (unfold contains in rw (==_refl current) refl) in
      elim (Option-cases (push_parents g keeps popped (get_list g current))) [
        | inl e ↦
            let r = push_parents-none popped (get_list g current) e in
            rw (search, e)
              (λ f. cc, λ un. absurd (un (inv.above current here (direct r.0 r.1 r.2))))
        | inr (t, e) ↦
            let p =
              push_parents-some popped (get_list g current) t (all_parents-Subset g current) e in
            rw (search, e)
              (search_correct n fuel t.visited t.stack (omega (arith, p.cheaper))
                (step-Inv n visited current rest t inv p))
      ]
    where
      popped : Search
      popped = record { visited = visited; stack = rest }

  -- `_is_orphan` ends, and says that `name` is an orphan exactly when no chain of reverse
  -- dependencies leads from it to an explicit package.
  pub orphan_search_correct :
      (name : Text) → (orphan_search g keeps name ≡ true) ↔ ¬ IsKept g keeps name
  unfolding orphan_search contains
  orphan_search_correct name =
      search_correct name (suc (suc (length (all_parents g)))) (name ∷ []) (name ∷ [])
        (omega (arith, length-select-le (λ k. not (contains (name ∷ []) k)) (all_parents g)))
        (record {
          above = λ x h kept. rw (sym ((==_iff name x).0 (ground arith))) at kept;
          waiting = λ x h. h;
          started = rw (==_refl name) refl;
          done = λ x h. inl h;
        })
