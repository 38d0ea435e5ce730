-- ===== src/Base/Sorted.antt =====
-- `sorted` on texts: a stable insertion sort, which keeps the members; lists without
-- repetition.
use Prim.Native.Nat.{◌≤◌, ◌<◌}
use mathlib.Core.Path.{◌≡◌, refl}
use mathlib.Core.Bool.{Bool, true, false, not, ◌||◌, ◌&&◌}
use mathlib.Core.List.{List, [], ◌∷◌, ◌++◌}
use native.Mathlib.Omega.{arith}
use urpm_ng.Base.Tests.{if◌then◌else◌, length}
use urpm_ng.Base.Texts.{Text, ◌==◌, ==_iff, lexicographic}
use urpm_ng.Base.Sets.{add, contains, contains-append, contains-discard, discard}

insert_sorted : Text → List Text → List Text
insert_sorted x [] = x ∷ []
insert_sorted x (y ∷ ys) = if lexicographic x y then x ∷ y ∷ ys else y ∷ insert_sorted x ys

-- `sorted(xs)`
unfoldable pub sorted : List Text → List Text
unfolding insert_sorted
sorted [] = []
sorted (x ∷ xs) = insert_sorted x (sorted xs)

contains-insert_sorted :
    (x : Text) (ys : List Text) (z : Text)
    → contains (insert_sorted x ys) z ≡ (x == z || contains ys z)
unfolding insert_sorted contains
contains-insert_sorted x [] z = refl
contains-insert_sorted x (y ∷ ys) z = ground (arith, contains-insert_sorted x ys z)

pub contains-sorted : (xs : List Text) (z : Text) → contains (sorted xs) z ≡ contains xs z
unfolding sorted contains
contains-sorted [] z = refl
contains-sorted (x ∷ xs) z = rw (contains-insert_sorted x (sorted xs) z, contains-sorted xs z) refl

-- a text occurs once at most
abbrev pub unique : List Text → Bool
unique [] = true
unique (x ∷ xs) = not (contains xs x) && unique xs

unique-insert_sorted :
    (x : Text) (ys : List Text)
    → contains ys x ≡ false
    → unique ys ≡ true
    → unique (insert_sorted x ys) ≡ true
unfolding insert_sorted contains
unique-insert_sorted x [] h u = refl
unique-insert_sorted x (y ∷ ys) h u =
    ground (arith, unique-insert_sorted x ys, contains-insert_sorted x ys y, ==_iff x y, ==_iff y x)

pub unique-sorted : (xs : List Text) → unique xs ≡ true → unique (sorted xs) ≡ true
unfolding sorted
unique-sorted [] u = refl
unique-sorted (x ∷ xs) u =
    unique-insert_sorted x (sorted xs) (rw (contains-sorted xs x) (ground arith))
      (unique-sorted xs (ground arith))

unique-append :
    (xs : List Text) (x : Text)
    → contains xs x ≡ false
    → unique xs ≡ true
    → unique (xs ++ x ∷ []) ≡ true
unfolding contains
unique-append [] x h u = refl
unique-append (y ∷ ys) x h u =
    ground (arith, unique-append ys x, contains-append ys (x ∷ []) y, ==_iff x y, ==_iff y x)

pub unique-add : (xs : List Text) (x : Text) → unique xs ≡ true → unique (add xs x) ≡ true
unfolding add
unique-add xs x u = ground (arith, unique-append xs x)

pub unique-discard : (xs : List Text) (x : Text) → unique xs ≡ true → unique (discard xs x) ≡ true
unfolding discard
unique-discard [] x u = refl
unique-discard (y ∷ ys) x u = ground (arith, unique-discard ys x, contains-discard ys x y)

pub length-discard-le : (xs : List Text) (x : Text) → length (discard xs x) ≤ length xs
unfolding discard
length-discard-le [] x = omega arith
length-discard-le (y ∷ ys) x = ground (arith, length-discard-le ys x)

pub length-discard-lt :
    (xs : List Text) (x : Text) → contains xs x ≡ true → length (discard xs x) < length xs
unfolding discard contains
length-discard-lt [] x h = cc
length-discard-lt (y ∷ ys) x h = ground (arith, length-discard-lt ys x, length-discard-le ys x)
