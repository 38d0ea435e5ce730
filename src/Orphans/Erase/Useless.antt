-- ===== src/Orphans/Erase/Useless.antt =====
-- What a stable pool of `find_erase_orphans` says of its packages (urpm/core/resolution/orphans.py).
use urpm_ng.Base.{
  Bool, Bool-cases, List, Text, any, contains, get_list, is_empty, not, select, [], ◌∷◌, ◌==◌, ◌≡◌,
  ◌≢◌, ◌&&◌, arith, ==_iff, ==_refl, true, false, refl, inl, inr, ◌∙◌,
}
use urpm_ng.Orphans.Erase.{
  Index, Options, Candidates, caps_of, provides_of, needs_of, supplements_of, dominated, is_needed,
  is_anchored, blocks, cap_needed_by, stays,
}
use urpm_ng.Orphans.Erase.Tables.{IsIndex, has_tag, has_tag-keys, contains-mentions}
use urpm_ng.Orphans.Erase.Settled.{IsPool}

-- The package `x` has no use once the packages in `going` are gone: whatever needs a capability
-- of it goes too, or finds another provider that stays; and no capability that it supplements
-- has a provider that stays.
pub record IsUseless (idx : Index) (o : Options) (going : List Text) (x : Text) : Type 0 where
  pub unneeded :
      (c dependent : Text)
      → contains (caps_of provides_of idx.headers x) c ≡ true
      → has_tag (needs_of o) idx.headers c dependent ≡ true
      → dependent ≢ x
      → contains going dependent ≡ false
      → (p : Text) × (contains (get_list idx.cap_to_pkg c) p ≡ true)
        × (p ≢ x)
        × (contains going p ≡ false)
  pub unanchored :
      (c p : Text)
      → contains (caps_of supplements_of idx.headers x) c ≡ true
      → contains (get_list idx.cap_to_pkg c) p ≡ true
      → contains going p ≡ true

any-false :
    (p : Text → Bool) (xs : List Text) (x : Text)
    → any p xs ≡ false
    → contains xs x ≡ true
    → p x ≡ false
unfolding contains
any-false p [] x h hx = cc
any-false p (y ∷ ys) x h hx = elim (Bool-cases (y == x)) [
  | inl e ↦ let here : p y ≡ false = ground arith in rw ((==_iff y x).0 e) at here
  | inr ne ↦ any-false p ys x (ground arith) (ground arith)
]

select_none :
    (p : Text → Bool) (xs : List Text) (x : Text)
    → is_empty (select p xs) ≡ true
    → contains xs x ≡ true
    → p x ≡ false
unfolding contains
select_none p [] x h hx = cc
select_none p (y ∷ ys) x h hx = elim (Bool-cases (y == x)) [
  | inl e ↦ let here : p y ≡ false = ground arith in rw ((==_iff y x).0 e) at here
  | inr ne ↦ select_none p ys x (ground arith) (ground arith)
]

select_some :
    (p : Text → Bool) (xs : List Text)
    → is_empty (select p xs) ≡ false
    → (x : Text) × (contains xs x ≡ true) × (p x ≡ true)
unfolding contains
select_some p [] h = cc
select_some p (y ∷ ys) h = elim (Bool-cases (p y)) [
  | inl e ↦ (y, rw (==_refl y) refl, e)
  | inr ne ↦
      let r : (x : Text) × (contains ys x ≡ true) × (p x ≡ true) =
        select_some p ys (ground arith) in
      (r.0, ground arith, r.2)
]

module _ (idx : Index) (o : Options) (erased : List Text) where
  blocks-false :
      (pool : Candidates) (x c d : Text)
      → blocks idx o erased pool x c d ≡ false
      → d ≢ x
      → stays idx o erased pool d ≡ true
      → (p : Text) × (contains (get_list idx.cap_to_pkg c) p ≡ true)
        × (p ≢ x)
        × (stays idx o erased pool p ≡ true)
  unfolding blocks
  blocks-false pool x c d free ne st =
      let r : (p : Text) × (contains (get_list idx.cap_to_pkg c) p ≡ true)
          × ((not (p == x) && stays idx o erased pool p) ≡ true) =
        select_some (λ p. not (p == x) && stays idx o erased pool p) (get_list idx.cap_to_pkg c)
          (ground (arith, ==_iff d x)) in
      (r.0, r.1, (λ e. ground (arith, r.2, (==_iff r.0 x).1 e)), ground (arith, r.2))

  pub dominated-false :
      (pool : Candidates) (x : Text)
      → IsIndex idx
      → IsPool idx o erased pool
      → dominated idx o erased pool x ≡ false
      → IsUseless idx o pool.candidates x
  unfolding is_needed is_anchored
  dominated-false pool x ok inv free = record {
    unneeded = λ c d hc hd ne out.
        let r =
          blocks-false pool x c d
            (any-false (blocks idx o erased pool x c) (get_list (cap_needed_by idx o erased) c) d
              (any-false
                (λ c'.
                  any (blocks idx o erased pool x c') (get_list (cap_needed_by idx o erased) c'))
                (caps_of provides_of idx.headers x) c (ground arith) hc)
              (contains-mentions (needs_of o) idx.headers c d ∙ hd))
            ne
            (ground (arith, inv.lowered d (has_tag-keys (needs_of o) idx.headers c d hd), out)) in
        (r.0, r.1, r.2, ground (arith, inv.lowered r.0 (ok.provider_known c r.0 r.1), r.3));
    unanchored = λ c p hc hp.
        let gone : stays idx o erased pool p ≡ false =
          select_none (stays idx o erased pool) (get_list idx.cap_to_pkg c) p
            (none_stays (
              any-false
                (λ c'.
                  not (is_empty (select (stays idx o erased pool) (get_list idx.cap_to_pkg c'))))
                (caps_of supplements_of idx.headers x) c (ground arith) hc))
            hp in
        ground (arith, inv.lowered p (ok.provider_known c p hp), gone);
  }
    where
      none_stays : {b : Bool} → not b ≡ false → b ≡ true
      none_stays h = ground arith
