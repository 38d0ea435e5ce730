-- ===== src/Orphans/Erase/Result.antt =====
-- What `find_erase_orphans` returns (urpm/core/resolution/orphans.py).
use urpm_ng.Base.{
  Bool-cases, List, some, Text, contains, contains-append, contains-update, keys, length, lower,
  map, suc, unique, [], ◌∷◌, ◌++◌, ◌≡◌, ◌⊎◌, arith, ==_iff, ==_refl, true, false, refl, inl, inr,
  sym, ◌∙◌,
}
use urpm_ng.Orphans.Rpmdb.{Header, PackageAction, action_names}
use urpm_ng.Orphans.All.{Tracked}
use urpm_ng.Orphans.Ancestors.Kept.{Subset}
use urpm_ng.Orphans.Erase.{
  Index, Options, Candidates, index, originals, dep_tree_of, first_pool, pool_of, unrequested_only,
  erase_actions, find_erased, find_erase_orphans,
}
use urpm_ng.Orphans.Erase.Tables.{IsIndex, index-IsIndex}
use urpm_ng.Orphans.Erase.Closure.{IsPulled, origin, along, dep_tree_correct, neighbours-known}
use urpm_ng.Orphans.Erase.Settled.{HasPlainNames, IsPool, Settled, settle_lem}
use urpm_ng.Orphans.Erase.Useless.{IsUseless, dominated-false}
use urpm_ng.Orphans.Erase.Names.{
  contains-select_unrequested, unique-select_unrequested, names-erase_actions, originals_sound,
  originals_complete, unique-originals,
}

module _ (idx : Index) (ok : IsIndex idx) (plain : HasPlainNames idx) where
  IsPulled-known :
      (erased : List Text)
      → Subset erased (keys idx.headers)
      → (x : Text) → IsPulled idx erased x
      → contains (keys idx.headers) x ≡ true
  IsPulled-known erased sub x (origin h) = sub x h
  IsPulled-known erased sub x (along y p h) = neighbours-known idx ok y x h

  contains-lower :
      (names : List Text) (x : Text)
      → Subset names (keys idx.headers)
      → contains (keys idx.headers) x ≡ true
      → contains (map lower names) (lower x) ≡ contains names x
  unfolding contains
  contains-lower [] x sub known = refl
  contains-lower (n ∷ names) x sub known = ground (
    arith,
    contains-lower names x (λ y h. sub y (ground arith)) known,
    ==_iff n x,
    ==_iff (lower n) (lower x),
    ==_refl (lower n),
    plain.one_case n x (sub n (rw (==_refl n) refl)) known,
  )

  pool_of-IsPool :
      (o : Options) (erased names : List Text)
      → Subset names (keys idx.headers)
      → unique names ≡ true
      → IsPool idx o erased (pool_of names)
  unfolding contains
  pool_of-IsPool o erased names sub u = record {
    known = sub;
    once = u;
    lowered =
        λ x h. rw (contains-update [] (map lower names) (lower x)) (contains-lower names x sub h);
  }

-- What is said of a package `x` in the result: it is installed and was tracked as a dependency,
-- it was not named, a named package pulls it along, and it has no use once the erased packages
-- and the packages of the result are gone.
pub record IsEraseOrphan (db : List Header) (tracked : Tracked) (o : Options)
    (erase_names : List Text) (actions : List PackageAction) (x : Text) : Type 0 where
  pub installed : contains (keys (index db).headers) x ≡ true
  pub tracked_only : contains (unrequested_only tracked) (lower x) ≡ true
  pub unnamed : contains (map lower erase_names) (lower x) ≡ false
  pub pulled : IsPulled (index db) (originals (index db) [] erase_names) x
  pub useless :
      IsUseless (index db) o (originals (index db) [] erase_names ++ action_names actions) x

IsUseless-ext :
    (idx : Index) (o : Options) (p q : List Text) (x : Text)
    → ((y : Text) → contains p y ≡ contains q y)
    → IsUseless idx o p x
    → IsUseless idx o q x
IsUseless-ext idx o p q x same u = record {
  unneeded = λ c d hc hd ne out.
      let r = u.unneeded c d hc hd ne (same d ∙ out) in (r.0, r.1, r.2, sym (same r.0) ∙ r.3);
  unanchored = λ c y hc hy. sym (same y) ∙ u.unanchored c y hc hy;
}

module _ (db : List Header) (tracked : Tracked) (o : Options) (erase_names : List Text) where
  abbrev idx : Index
  idx = index db

  abbrev erased : List Text
  erased = originals idx [] erase_names

  abbrev pool : Candidates
  pool = first_pool idx erased (unrequested_only tracked)

  module _ (plain : HasPlainNames (index db)) where
    erased-known :
        (x : Text)
        → contains erased x ≡ true
        → (contains (keys idx.headers) x ≡ true)
          × (contains (map lower erase_names) (lower x) ≡ true)
    unfolding contains
    erased-known x h = elim (originals_sound idx (index-IsIndex db) [] erase_names x h) [
      | inl bad ↦ cc
      | inr r ↦ r
    ]

    first_pool-known :
        (x : Text)
        → contains pool.candidates x ≡ true
        → IsPulled idx erased x
          × ((contains erased x ≡ true) ⊎ (contains (unrequested_only tracked) (lower x) ≡ true))
    unfolding first_pool
    first_pool-known x h =
        let both =
          contains-select_unrequested (unrequested_only tracked) erased (dep_tree_of idx erased)
            x in
        elim (Bool-cases (contains erased x)) [
          | inl e ↦ (origin e, inl e)
          | inr ne ↦ (
            (dep_tree_correct idx (index-IsIndex db) erased x).0 (ground (arith, both, h, ne)),
            inr (ground (arith, both, h, ne)),
          )
        ]

    first_pool-IsPool : IsPool idx o erased pool
    unfolding first_pool
    first_pool-IsPool =
        pool_of-IsPool idx (index-IsIndex db) plain o erased pool.candidates
          (λ x h.
            IsPulled-known idx (index-IsIndex db) plain erased (λ y hy. (erased-known y hy).0) x
              (first_pool-known x h).0)
          (unique-select_unrequested (unrequested_only tracked) erased (dep_tree_of idx erased)
            (unique-originals idx [] erase_names refl))

    going :
        (last : Candidates)
        → IsPool idx o erased last
        → ((x : Text) → contains erased x ≡ true → contains last.candidates x ≡ true)
        → (y : Text)
        → contains last.candidates y
          ≡ contains
              (erased
                ++ action_names (erase_actions idx.headers (map lower erase_names) last.candidates))
              y
    going last inv kept y = ground (
      arith,
      contains-append erased
          (action_names (erase_actions idx.headers (map lower erase_names) last.candidates)) y,
      names-erase_actions idx.headers (map lower erase_names) last.candidates y,
      kept y,
      inv.known y,
      originals_complete idx (index-IsIndex db) plain [] erase_names y,
    )

    settled : Settled idx o erased pool (find_erased db tracked o erase_names)
    unfolding find_erased
    settled =
        settle_lem idx o erased plain (suc (length pool.candidates)) pool (omega arith)
          first_pool-IsPool

    erased-first : (x : Text) → contains erased x ≡ true → contains pool.candidates x ≡ true
    unfolding first_pool
    erased-first x h =
        rw
          (
            contains-select_unrequested (unrequested_only tracked) erased (dep_tree_of idx erased)
                x,
            h,
          )
          refl

    abbrev actions_of : Candidates → List PackageAction
    actions_of last = erase_actions idx.headers (map lower erase_names) last.candidates

    listed :
        (s : Settled idx o erased pool (find_erased db tracked o erase_names)) (x : Text)
        → contains (action_names (actions_of s.last)) x ≡ true
        → IsEraseOrphan db tracked o erase_names (actions_of s.last) x
    listed s x h =
        let same = going s.last s.valid (λ y hy. s.shrinks.erased_left y hy (erased-first y hy)) in
        let all = names-erase_actions idx.headers (map lower erase_names) s.last.candidates x in
        let left : contains s.last.candidates x ≡ true = ground (arith, all, h) in
        let other : contains (map lower erase_names) (lower x) ≡ false = ground (arith, all, h) in
        let free = first_pool-known x (s.shrinks.within x left) in
        record {
          installed = ground (arith, all, h);
          tracked_only = elim free.1 [ inl e ↦ cc (erased-known x e).1 | inr t ↦ t ];
          unnamed = other;
          pulled = free.0;
          useless =
              IsUseless-ext idx o s.last.candidates (erased ++ action_names (actions_of s.last)) x
                same
                (dominated-false idx o erased s.last x (index-IsIndex db) s.valid
                  (elim (s.stable x left) [ inl e ↦ cc (erased-known x e).1 | inr free' ↦ free' ]));
        }

    pub find_erase_orphans_lem :
        (actions : List PackageAction) × (find_erase_orphans db tracked o erase_names
          ≡ some actions)
        × ((x : Text)
            → contains (action_names actions) x ≡ true
            → IsEraseOrphan db tracked o erase_names actions x)
    unfolding find_erase_orphans
    find_erase_orphans_lem = (
      actions_of settled.last,
      rw (find_erase_orphans, settled.ends) refl,
      λ x h. listed settled x h,
    )
