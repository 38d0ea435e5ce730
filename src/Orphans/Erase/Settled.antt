-- ===== src/Orphans/Erase/Settled.antt =====
-- The loop of `find_erase_orphans` that takes packages out of `candidates`
-- (urpm/core/resolution/orphans.py): it ends, raises nothing, and leaves a stable set.
use urpm_ng.Base.{
  Bool, Bool-cases, List, Option, some, Text, contains, contains-discard, discard, keys, length,
  lower, sorted, unique, unique-sorted, unique-discard, length-discard-le, length-discard-lt,
  contains-sorted, zero, suc, ℕ, [], ◌∷◌, ◌==◌, ◌≡◌, ◌⊎◌, ◌≤◌, ◌<◌, ◌&&◌, not, arith, ==_iff,
  ==_refl, true, false, refl, inl, inr, sym, ◌∙◌,
}
use urpm_ng.Orphans.Ancestors.Kept.{Subset}
use urpm_ng.Orphans.Erase.{Index, Options, Candidates, dominated, keep, pass, settle}

-- no installed package has an empty name, and no two have names that differ in case only
pub record HasPlainNames (idx : Index) : Type 0 where
  pub full : contains (keys idx.headers) [] ≡ false
  pub one_case :
      (x y : Text)
      → contains (keys idx.headers) x ≡ true
      → contains (keys idx.headers) y ≡ true
      → lower x ≡ lower y
      → x ≡ y

module _ (idx : Index) (o : Options) (erased : List Text) where
  pub record IsPool (pool : Candidates) : Type 0 where
    pub known : Subset pool.candidates (keys idx.headers)
    pub once : unique pool.candidates ≡ true
    pub lowered :
        (x : Text)
        → contains (keys idx.headers) x ≡ true
        → contains pool.candidates_lower (lower x) ≡ contains pool.candidates x

  -- no candidate but the erased ones is dominated
  abbrev pub IsStable : Candidates → List Text → Type 0
  IsStable pool names =
      (x : Text)
      → contains names x ≡ true
      → (contains erased x ≡ true) ⊎ (dominated idx o erased pool x ≡ false)

  -- from the pool `p` to the pool `q`
  pub record Shrinks (p q : Candidates) : Type 0 where
    pub fewer : length q.candidates ≤ length p.candidates
    pub within : Subset q.candidates p.candidates
    pub erased_left :
        (x : Text)
        → contains erased x ≡ true
        → contains p.candidates x ≡ true
        → contains q.candidates x ≡ true

  Shrinks-refl : (p : Candidates) → Shrinks p p
  Shrinks-refl p = record { fewer = omega arith; within = λ x h. h; erased_left = λ x e h. h }

  Shrinks-trans : (p q r : Candidates) → Shrinks p q → Shrinks q r → Shrinks p r
  Shrinks-trans p q r f g = record {
    fewer = omega (arith, f.fewer, g.fewer);
    within = λ x h. f.within x (g.within x h);
    erased_left = λ x e h. g.erased_left x e (f.erased_left x e h);
  }

  discarded : Candidates → Text → Candidates
  discarded pool name = record {
    candidates = discard pool.candidates name;
    candidates_lower = discard pool.candidates_lower (lower name);
  }

  contains-discarded :
      (pool : Candidates) (name x : Text)
      → contains (discarded pool name).candidates x
        ≡ (contains pool.candidates x && not (name == x))
  unfolding discarded
  contains-discarded pool name x = contains-discard pool.candidates name x

  keep-discarded :
      (pool : Candidates) (name : Text)
      → IsPool pool
      → contains pool.candidates name ≡ true
      → keep pool name ≡ some (discarded pool name)
  unfolding keep discarded
  keep-discarded pool name inv h = rw (inv.lowered name (inv.known name h) ∙ h) refl

  discarded-IsPool :
      HasPlainNames idx
      → (pool : Candidates) (name : Text) → IsPool pool
      → contains pool.candidates name ≡ true
      → IsPool (discarded pool name)
  unfolding discarded
  discarded-IsPool plain pool name inv h = record {
    known = λ x hx. inv.known x (ground (arith, contains-discard pool.candidates name x));
    once = unique-discard pool.candidates name inv.once;
    lowered = λ x hx. ground (
      arith,
      contains-discard pool.candidates name x,
      contains-discard pool.candidates_lower (lower name) (lower x),
      inv.lowered x hx,
      ==_iff name x,
      ==_iff (lower name) (lower x),
      plain.one_case name x (inv.known name h) hx,
      ==_refl (lower name),
    );
  }

  discarded-Shrinks :
      (pool : Candidates) (name : Text)
      → contains erased name ≡ false
      → Shrinks pool (discarded pool name)
  unfolding discarded
  discarded-Shrinks pool name ne = record {
    fewer = length-discard-le pool.candidates name;
    within = λ x hx. ground (arith, contains-discard pool.candidates name x);
    erased_left = λ x e hx. ground (arith, contains-discard pool.candidates name x, ==_iff name x);
  }

  -- what a pass over `names` leaves
  record Passed (pool : Candidates) (changed : Bool) (names : List Text)
      (r : Option (Candidates × Bool)) : Type 0 where
    last : Candidates
    moved : Bool
    ends : r ≡ some (last, moved)
    valid : IsPool last
    shrinks : Shrinks pool last
    still : moved ≡ false → (last ≡ pool) × (changed ≡ false) × IsStable pool names
    smaller : moved ≡ true → (changed ≡ true) ⊎ (length last.candidates < length pool.candidates)

  Passed-nil :
      (pool : Candidates) (changed : Bool)
      → IsPool pool
      → Passed pool changed [] (some (pool, changed))
  unfolding contains
  Passed-nil pool changed inv = record {
    last = pool;
    moved = changed;
    ends = refl;
    valid = inv;
    shrinks = Shrinks-refl pool;
    still = λ e. (refl, e, λ x h. cc);
    smaller = λ e. inl e;
  }

  -- a name that stays a candidate
  Passed-same :
      (pool : Candidates) (changed : Bool) (name : Text) (names : List Text)
      (r : Option (Candidates × Bool))
      → (contains erased name ≡ true) ⊎ (dominated idx o erased pool name ≡ false)
      → Passed pool changed names r
      → Passed pool changed (name ∷ names) r
  unfolding contains
  Passed-same pool changed name names r fine p = record {
    last = p.last;
    moved = p.moved;
    ends = p.ends;
    valid = p.valid;
    shrinks = p.shrinks;
    still = λ e.
        let s = p.still e in
        (
          s.0,
          s.1,
          λ x h. elim (Bool-cases (name == x)) [
            | inl same ↦ rw ((==_iff name x).0 same) at fine
            | inr ne ↦ s.2 x (ground arith)
          ],
        );
    smaller = p.smaller;
  }

  -- a name that is kept installed
  Passed-kept :
      (pool : Candidates) (changed : Bool) (name : Text) (names : List Text)
      (r : Option (Candidates × Bool))
      → contains erased name ≡ false
      → contains pool.candidates name ≡ true
      → Passed (discarded pool name) true names r
      → Passed pool changed (name ∷ names) r
  unfolding discarded
  Passed-kept pool changed name names r ne h p = record {
    last = p.last;
    moved = p.moved;
    ends = p.ends;
    valid = p.valid;
    shrinks =
        Shrinks-trans pool (discarded pool name) p.last (discarded-Shrinks pool name ne) p.shrinks;
    still = λ e. absurd (cc (p.still e).1);
    smaller = λ e. inr (omega (arith, p.shrinks.fewer, length-discard-lt pool.candidates name h));
  }

  pass_lem :
      HasPlainNames idx
      → (pool : Candidates) (changed : Bool) (names : List Text) → IsPool pool
      → Subset names pool.candidates
      → unique names ≡ true
      → Passed pool changed names (pass idx o erased pool changed names)
  unfolding pass contains
  pass_lem plain pool changed [] inv sub u = Passed-nil pool changed inv
  pass_lem plain pool changed (name ∷ names) inv sub u =
      let here : contains pool.candidates name ≡ true = sub name (rw (==_refl name) refl) in
      let same =
        pass_lem plain pool changed names inv (λ x h. sub x (ground arith)) (ground arith) in
      elim (Bool-cases (contains erased name)) [
        | inl e ↦ rw e (Passed-same pool changed name names _ (inl e) same)
        | inr ne ↦ elim (Bool-cases (dominated idx o erased pool name)) [
          | inr d ↦ rw (ne, d) (Passed-same pool changed name names _ (inr d) same)
          | inl d ↦
              rw (ne, d, keep-discarded pool name inv here)
                (Passed-kept pool changed name names _ ne here (
                  pass_lem plain (discarded pool name) true names
                    (discarded-IsPool plain pool name inv here)
                    (λ x h. ground (arith, contains-discarded pool name x, sub x, ==_iff name x))
                    (ground arith)))
        ]
      ]

  -- what the loop leaves
  pub record Settled (pool : Candidates) (r : Option Candidates) : Type 0 where
    pub last : Candidates
    pub ends : r ≡ some last
    pub valid : IsPool last
    pub shrinks : Shrinks pool last
    pub stable : IsStable last last.candidates

  settle-Passed :
      (fuel : ℕ) (pool : Candidates)
      → (p : Passed pool false
          (sorted pool.candidates)
          (pass idx o erased pool false (sorted pool.candidates)))
      → (p.moved ≡ true → Settled p.last (settle idx o erased fuel p.last))
      → Settled pool (settle idx o erased (suc fuel) pool)
  unfolding settle
  settle-Passed fuel pool p next = elim (Bool-cases p.moved) [
    | inr done ↦
        let s = p.still done in
        record {
          last = p.last;
          ends = rw (settle, p.ends, done) refl;
          valid = p.valid;
          shrinks = p.shrinks;
          stable = rw s.0 (λ x h. s.2 x (contains-sorted pool.candidates x ∙ h));
        }
    | inl m ↦
        let n = next m in
        let again : settle idx o erased (suc fuel) pool ≡ settle idx o erased fuel p.last =
          rw (settle, p.ends, m) refl in
        record {
          last = n.last;
          ends = again ∙ n.ends;
          valid = n.valid;
          shrinks = Shrinks-trans pool p.last n.last p.shrinks n.shrinks;
          stable = n.stable;
        }
  ]

  -- With plain round more than there are candidates the loop ends without an exception, and no
  -- package is left that something staying needs or anchors, but for those that were named.
  pub settle_lem :
      HasPlainNames idx
      → (fuel : ℕ) (pool : Candidates) → length pool.candidates < fuel
      → IsPool pool
      → Settled pool (settle idx o erased fuel pool)
  settle_lem plain zero pool m inv = absurd (omega arith)
  settle_lem plain (suc fuel) pool m inv =
      let p =
        pass_lem plain pool false (sorted pool.candidates) inv
          (λ x h. sym (contains-sorted pool.candidates x) ∙ h)
          (unique-sorted pool.candidates inv.once) in
      settle-Passed fuel pool p (λ e. settle_lem plain fuel p.last (smaller_fuel p e) p.valid)
    where
      smaller_fuel :
          (p : Passed pool false
            (sorted pool.candidates)
            (pass idx o erased pool false (sorted pool.candidates)))
          → p.moved ≡ true
          → length p.last.candidates < fuel
      smaller_fuel p e = elim (p.smaller e) [ inl f ↦ cc | inr lt ↦ omega arith ]
