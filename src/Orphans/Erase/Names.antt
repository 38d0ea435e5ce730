-- ===== src/Orphans/Erase/Names.antt =====
-- `erase_set_original`, the first candidates and the list of actions in `find_erase_orphans`
-- (urpm/core/resolution/orphans.py).
use urpm_ng.Base.{
  Bool-cases, Dict, List, Option, Option-cases, none, some, Text, add, contains, contains-add,
  contains-add_self, get, keys, lower, map, not, unique, unique-add, [], ◌∷◌, ◌==◌, ◌≡◌, ◌⊎◌, ◌||◌,
  ◌&&◌, arith, ==_iff, ==_refl, true, refl, inl, inr, sym, if◌then◌else◌,
}
use urpm_ng.Orphans.Rpmdb.{Header, removal, action_names}
use urpm_ng.Orphans.Erase.{Index, originals, select_unrequested, original_added, erase_actions}
use urpm_ng.Orphans.Erase.Tables.{IsIndex, get-some-keys, get-none-keys}
use urpm_ng.Orphans.Erase.Settled.{HasPlainNames}

pub contains-select_unrequested :
    (unrequested s names : List Text) (x : Text)
    → contains (select_unrequested unrequested s names) x
      ≡ (contains s x || (contains names x && contains unrequested (lower x)))
unfolding select_unrequested contains
contains-select_unrequested unrequested s [] x = ground arith
contains-select_unrequested unrequested s (n ∷ names) x =
    rw
      (contains-select_unrequested unrequested
        (if contains unrequested (lower n) then add s n else s) names x)
      (elim (Bool-cases (n == x)) [
        | inl e ↦ rw ((==_iff n x).0 e) (ground (arith, contains-add s x x, ==_refl x))
        | inr ne ↦ ground (arith, contains-add s n x)
      ])

pub unique-select_unrequested :
    (unrequested s names : List Text)
    → unique s ≡ true
    → unique (select_unrequested unrequested s names) ≡ true
unfolding select_unrequested
unique-select_unrequested unrequested s [] u = u
unique-select_unrequested unrequested s (n ∷ names) u =
    unique-select_unrequested unrequested (if contains unrequested (lower n) then add s n else s)
      names (ground (arith, unique-add s n u))

pub names-erase_actions :
    (headers : Dict Header) (named names : List Text) (x : Text)
    → contains (action_names (erase_actions headers named names)) x
      ≡ (contains names x && not (contains named (lower x)) && contains (keys headers) x)
unfolding erase_actions removal contains
names-erase_actions headers named [] x = refl
names-erase_actions headers named (n ∷ names) x =
    let ih = names-erase_actions headers named names x in
    elim (Bool-cases (n == x)) [
      | inl e ↦ rw ((==_iff n x).0 e) (elim (Option-cases (get headers x)) [
        | inl e' ↦ rw e' (ground (arith, ih, get-none-keys headers x e'))
        | inr (h, e') ↦ rw e' (ground (arith, ih, get-some-keys headers x h e', ==_refl x))
      ])
      | inr ne ↦ elim (Option-cases (get headers n)) [
        | inl e' ↦ rw e' (ground (arith, ih, ne))
        | inr (h, e') ↦ rw e' (ground (arith, ih, ne))
      ]
    ]

original_added_sound :
    (idx : Index) (r : Option Text) (s : List Text) (l x : Text)
    → ((n : Text) → r ≡ some n → (contains (keys idx.headers) n ≡ true) × (lower n ≡ l))
    → contains (original_added r s) x ≡ true
    → (contains s x ≡ true) ⊎ ((contains (keys idx.headers) x ≡ true) × (lower x ≡ l))
original_added_sound idx none s l x k h = inl h
original_added_sound idx (some n) s l x k h = elim (Bool-cases (n == x)) [
  | inl e ↦ inr (rw ((==_iff n x).0 e) at (k n refl))
  | inr ne ↦ inl (ground (arith, contains-add s n x))
]

original_added_mono :
    (r : Option Text) (s : List Text) (x : Text)
    → contains s x ≡ true
    → contains (original_added r s) x ≡ true
original_added_mono none s x h = h
original_added_mono (some n) s x h = ground (arith, contains-add s n x)

originals_mono :
    (idx : Index) (s names : List Text) (x : Text)
    → contains s x ≡ true
    → contains (originals idx s names) x ≡ true
unfolding originals
originals_mono idx s [] x h = h
originals_mono idx s (n ∷ names) x h =
    originals_mono idx (original_added (get idx.name_to_original (lower n)) s) names x
      (original_added_mono (get idx.name_to_original (lower n)) s x h)

-- an erased package is installed, and was named in some case
pub originals_sound :
    (idx : Index)
    → IsIndex idx
    → (s names : List Text) (x : Text) → contains (originals idx s names) x ≡ true
    → (contains s x ≡ true)
      ⊎ ((contains (keys idx.headers) x ≡ true) × (contains (map lower names) (lower x) ≡ true))
unfolding originals contains
originals_sound idx ok s [] x h = inl h
originals_sound idx ok s (n ∷ names) x h =
    elim (originals_sound idx ok (original_added (get idx.name_to_original (lower n)) s) names x
      h) [
        | inr r ↦ inr (r.0, ground (arith, r.1))
        | inl old ↦
            elim (original_added_sound idx (get idx.name_to_original (lower n)) s (lower n) x
              (λ m e. ok.original_known (lower n) m e) old) [
                | inl o ↦ inl o
                | inr r ↦ inr (r.0, rw ((==_iff (lower n) (lower x)).1 (sym r.1)) refl)
              ]
      ]

added_full :
    (idx : Index) (x : Text) (s : List Text)
    → HasPlainNames idx
    → contains (keys idx.headers) x ≡ true
    → contains (original_added (some x) s) x ≡ true
added_full idx [] s plain known = absurd (cc plain.full)
added_full idx (c ∷ cs) s plain known = contains-add_self s (c ∷ cs)

-- an installed package that was named is erased
pub originals_complete :
    (idx : Index)
    → IsIndex idx
    → HasPlainNames idx
    → (s names : List Text) (x : Text) → contains (keys idx.headers) x ≡ true
    → contains (map lower names) (lower x) ≡ true
    → contains (originals idx s names) x ≡ true
unfolding originals contains
originals_complete idx ok plain s [] x known h = cc
originals_complete idx ok plain s (n ∷ names) x known h = elim (Bool-cases (lower n == lower x)) [
  | inr ne ↦
      originals_complete idx ok plain (original_added (get idx.name_to_original (lower n)) s) names
        x known (ground arith)
  | inl e ↦ originals_mono idx (original_added (get idx.name_to_original (lower n)) s) names x (
      rw ((==_iff (lower n) (lower x)).0 e) (
        added (get idx.name_to_original (lower x)) (ok.name_known x known).0
          (ok.name_known x known).1))
]
  where
    same : (orig : Text) → get idx.name_to_original (lower x) ≡ some orig → orig ≡ x
    same orig e =
        plain.one_case orig x (ok.original_known (lower x) orig e).0 known
          (ok.original_known (lower x) orig e).1

    added :
        (r : Option Text) (orig : Text)
        → get idx.name_to_original (lower x) ≡ some orig
        → contains (original_added (get idx.name_to_original (lower x)) s) x ≡ true
    added r orig e = rw (e, same orig e) (added_full idx x s plain known)

unique-original_added :
    (r : Option Text) (s : List Text) → unique s ≡ true → unique (original_added r s) ≡ true
unique-original_added none s u = u
unique-original_added (some n) s u = ground (arith, unique-add s n u)

pub unique-originals :
    (idx : Index) (s names : List Text) → unique s ≡ true → unique (originals idx s names) ≡ true
unfolding originals
unique-originals idx s [] u = u
unique-originals idx s (n ∷ names) u =
    unique-originals idx (original_added (get idx.name_to_original (lower n)) s) names
      (unique-original_added (get idx.name_to_original (lower n)) s u)
