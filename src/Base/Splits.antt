-- ===== src/Base/Splits.antt =====
-- Splitting and stripping texts as `str` does. White space is what `str.isspace` accepts below 256.
use Prim.Native.Nat.{ℕ}
use mathlib.Core.Path.{◌≡◌, refl}
use mathlib.Core.Bool.{Bool, true, ◌||◌, ◌&&◌, not}
use mathlib.Core.Option.{Option, none, some}
use mathlib.Core.List.{List, [], ◌∷◌, ◌++◌}
use native.Mathlib.Omega.{arith}
use urpm_ng.Base.Tests.{leb, eqb, if◌then◌else◌, is_empty}
use urpm_ng.Base.Texts.{Text}

unfoldable pub is_space : ℕ → Bool
is_space c = (leb 9 c && leb c 13) || (leb 28 c && leb c 32) || eqb c 133 || eqb c 160

-- the text before the first `c` and the one after it
unfoldable pub break_at : ℕ → Text → Option (Text × Text)
break_at c [] = none
break_at c (x ∷ s) =
    if eqb x c
    then some ([], s)
    else elim (break_at c s) [ none ↦ none | some (a, b) ↦ some (x ∷ a, b) ]

-- the text before the last `c` and the one after it
unfoldable pub rbreak_at : ℕ → Text → Option (Text × Text)
rbreak_at c [] = none
rbreak_at c (x ∷ s) = elim (rbreak_at c s) [
  | some (a, b) ↦ some (x ∷ a, b)
  | none ↦ if eqb x c then some ([], s) else none
]

-- `s.lstrip()`
unfoldable pub lstrip : Text → Text
unfolding is_space
lstrip [] = []
lstrip (c ∷ s) = let rest = lstrip s in if is_space c then rest else c ∷ s

-- `s.rstrip()`
unfoldable pub rstrip : Text → Text
unfolding is_space
rstrip [] = []
rstrip (c ∷ s) = let rest = rstrip s in if is_empty rest && is_space c then [] else c ∷ rest

-- `s.strip()`
unfoldable pub strip : Text → Text
unfolding lstrip rstrip
strip s = rstrip (lstrip s)

-- the characters up to the first white space, and the rest from there
unfoldable pub word : Text → Text × Text
unfolding is_space
word [] = ([], [])
word (c ∷ s) = if is_space c then ([], c ∷ s) else (c ∷ (word s).0, (word s).1)

-- `s.split(None, 1)`, where it has two parts
unfoldable pub split_two : Text → Option (Text × Text)
unfolding lstrip word
split_two s =
    let w = word (lstrip s) in
    let rest = lstrip w.1 in if is_empty w.0 || is_empty rest then none else some (w.0, rest)

-- `s.split(c)`
unfoldable pub split_on : ℕ → Text → List Text
split_on c [] = [] ∷ []
split_on c (x ∷ s) = elim (split_on c s) [
  | [] ↦ (x ∷ []) ∷ []
  | p ∷ ps ↦ if eqb x c then [] ∷ p ∷ ps else (x ∷ p) ∷ ps
]

-- `s` has no `c`
abbrev pub lacks : ℕ → Text → Bool
lacks c [] = true
lacks c (x ∷ s) = not (eqb x c) && lacks c s

pub break_at-append :
    (c : ℕ) (s t : Text) → lacks c s ≡ true → break_at c (s ++ c ∷ t) ≡ some (s, t)
unfolding break_at
break_at-append c [] t h = ground arith
break_at-append c (x ∷ s) t h = ground (arith, break_at-append c s t)

pub break_at-none : (c : ℕ) (s : Text) → lacks c s ≡ true → break_at c s ≡ none
unfolding break_at
break_at-none c [] h = refl
break_at-none c (x ∷ s) h = ground (arith, break_at-none c s)

pub rbreak_at-none : (c : ℕ) (s : Text) → lacks c s ≡ true → rbreak_at c s ≡ none
unfolding rbreak_at
rbreak_at-none c [] h = refl
rbreak_at-none c (x ∷ s) h = ground (arith, rbreak_at-none c s)

pub rbreak_at-append :
    (c : ℕ) (s t : Text) → lacks c t ≡ true → rbreak_at c (s ++ c ∷ t) ≡ some (s, t)
unfolding rbreak_at
rbreak_at-append c [] t h = rw (rbreak_at-none c t h) (ground arith)
rbreak_at-append c (x ∷ s) t h = rw (rbreak_at-append c s t h) refl

-- `s` has no white space
abbrev pub no_space : Text → Bool
no_space [] = true
no_space (c ∷ s) = not (is_space c) && no_space s

pub lstrip_id : (s : Text) → no_space s ≡ true → lstrip s ≡ s
unfolding lstrip
lstrip_id [] h = refl
lstrip_id (c ∷ s) h = ground arith

pub rstrip_id : (s : Text) → no_space s ≡ true → rstrip s ≡ s
unfolding rstrip
rstrip_id [] h = refl
rstrip_id (c ∷ s) h = ground (arith, rstrip_id s)

pub strip_id : (s : Text) → no_space s ≡ true → strip s ≡ s
unfolding strip
strip_id s h = rw (lstrip_id s h) (rstrip_id s h)

pub word_id : (s : Text) → no_space s ≡ true → (word s).0 ≡ s
unfolding word
word_id [] h = refl
word_id (c ∷ s) h = ground (arith, word_id s)

pub no_space-word : (s : Text) → no_space (word s).0 ≡ true
unfolding word
no_space-word [] = refl
no_space-word (c ∷ s) = ground (arith, no_space-word s)
