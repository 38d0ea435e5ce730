-- ===== src/Base/Sets.antt =====
-- Python sets of texts: lists without repetition, in some order. Only membership is observed.
use mathlib.Core.Path.{◌≡◌, refl}
use mathlib.Core.Logic.{inl, inr}
use mathlib.Core.Bool.{Bool, true, false, not, ◌&&◌, ◌||◌}
use mathlib.Core.List.{List, [], ◌∷◌, ◌++◌, map}
use native.Mathlib.Omega.{arith}
use urpm_ng.Base.Tests.{if◌then◌else◌, Bool-cases, select}
use urpm_ng.Base.Texts.{Text, ◌==◌, ==_iff, ==_refl, lower}

-- `x in s`
unfoldable pub contains : List Text → Text → Bool
contains [] x = false
contains (y ∷ s) x = y == x || contains s x

-- `s.add(x)`
unfoldable pub add : List Text → Text → List Text
unfolding contains
add s x = if contains s x then s else s ++ x ∷ []

-- `s.discard(x)`
unfoldable pub discard : List Text → Text → List Text
discard [] x = []
discard (y ∷ s) x = let rest = discard s x in if y == x then rest else y ∷ rest

-- `s.update(xs)`
unfoldable pub update : List Text → List Text → List Text
unfolding add
update s [] = s
update s (x ∷ xs) = update (add s x) xs

pub contains-append :
    (s t : List Text) (x : Text) → contains (s ++ t) x ≡ (contains s x || contains t x)
unfolding contains
contains-append [] t x = refl
contains-append (y ∷ s) t x = ground (arith, contains-append s t x)

pub contains-add : (s : List Text) (y x : Text) → contains (add s y) x ≡ (contains s x || y == x)
unfolding add
contains-add s y x = elim (Bool-cases (contains s y)) [
  | inl old ↦ elim (Bool-cases (y == x)) [
    | inl e ↦ rw (old, e) (ground (arith, (==_iff y x).0 e))
    | inr ne ↦ rw (old, ne) (ground arith)
  ]
  | inr new ↦ rw (new, contains-append s (y ∷ []) x) (ground arith)
]

pub contains-add_self : (s : List Text) (x : Text) → contains (add s x) x ≡ true
contains-add_self s x = rw (contains-add s x x, ==_refl x) (ground arith)

pub contains-discard :
    (s : List Text) (y x : Text) → contains (discard s y) x ≡ (contains s x && not (y == x))
unfolding contains discard
contains-discard [] y x = refl
contains-discard (z ∷ s) y x =
    ground (arith, contains-discard s y x, ==_iff z y, ==_iff z x, ==_iff y x)

pub contains-update :
    (s xs : List Text) (x : Text) → contains (update s xs) x ≡ (contains s x || contains xs x)
unfolding update
contains-update s [] x = ground arith
contains-update s (y ∷ xs) x =
    rw (contains-update (add s y) xs x, contains-add s y x) (unfold contains in ground arith)

pub contains-map-lower :
    (s : List Text) (x : Text) → contains s x ≡ true → contains (map lower s) (lower x) ≡ true
unfolding contains
contains-map-lower [] x h = cc
contains-map-lower (y ∷ s) x h = elim (Bool-cases (y == x)) [
  | inl e ↦ rw ((==_iff y x).0 e, ==_refl (lower x)) refl
  | inr ne ↦ ground (arith, contains-map-lower s x)
]

pub contains-select :
    (p : Text → Bool) (xs : List Text) (x : Text)
    → contains (select p xs) x ≡ (contains xs x && p x)
unfolding contains
contains-select p [] x = refl
contains-select p (y ∷ ys) x = elim (Bool-cases (y == x)) [
  | inl e ↦ rw ((==_iff y x).0 e) (ground (arith, contains-select p ys x, ==_refl x))
  | inr ne ↦ ground (arith, contains-select p ys x)
]
