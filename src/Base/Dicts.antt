-- ===== src/Base/Dicts.antt =====
-- Python dictionaries with text keys, in insertion order: a write to a present key keeps its place.
use mathlib.Core.Path.{◌≡◌, refl}
use mathlib.Core.Bool.{◌&&◌, ◌||◌, false}
use mathlib.Core.Option.{Option, none, some}
use mathlib.Core.List.{List, [], ◌∷◌}
use native.Mathlib.Omega.{arith}
use urpm_ng.Base.Tests.{if◌then◌else◌, or_else}
use urpm_ng.Base.Texts.{Text, ◌==◌, ==_iff}
use urpm_ng.Base.Sets.{contains, add, contains-add}

abbrev pub Dict {ℓ} : Type ℓ → Type ℓ
Dict V = List (Text × V)

module _ {ℓ} {V : Type ℓ} where
  -- `d.get(k)`
  unfoldable pub get : Dict V → Text → Option V
  get [] k = none
  get ((j, v) ∷ d) k = if j == k then some v else get d k

  -- `d[k] = v`
  unfoldable pub put : Dict V → Text → V → Dict V
  put [] k v = (k, v) ∷ []
  put ((j, w) ∷ d) k v = if j == k then (j, v) ∷ d else (j, w) ∷ put d k v

  -- `del d[k]`, where `k` is present
  unfoldable pub remove : Dict V → Text → Dict V
  remove [] k = []
  remove ((j, w) ∷ d) k = let rest = remove d k in if j == k then rest else (j, w) ∷ rest

  -- `d.keys()`
  abbrev pub keys : Dict V → List Text
  keys [] = []
  keys ((k, v) ∷ d) = k ∷ keys d

  pub get-put :
      (d : Dict V) (k j : Text) (v : V) → get (put d k v) j ≡ (if k == j then some v else get d j)
  unfolding get put
  get-put [] k j v = refl
  get-put ((i, w) ∷ d) k j v = ground (arith, get-put d k j v, ==_iff i k, ==_iff i j, ==_iff k j)

  pub get-remove :
      (d : Dict V) (k j : Text) → get (remove d k) j ≡ (if k == j then none else get d j)
  unfolding get remove
  get-remove [] k j = ground arith
  get-remove ((i, w) ∷ d) k j = ground (arith, get-remove d k j, ==_iff i k, ==_iff i j, ==_iff k j)

  pub get-none : (d : Dict V) (k : Text) → contains (keys d) k ≡ false → get d k ≡ none
  unfolding get contains
  get-none [] k h = refl
  get-none ((i, w) ∷ d) k h = ground (arith, get-none d k)

-- `d.get(k, set())`
unfoldable pub get_list : Dict (List Text) → Text → List Text
unfolding get
get_list d k = or_else (get d k) []

-- `d.setdefault(k, set()).add(x)`
unfoldable pub append_at : Dict (List Text) → Text → Text → Dict (List Text)
append_at [] k x = (k, x ∷ []) ∷ []
append_at ((j, s) ∷ d) k x = if j == k then (j, add s x) ∷ d else (j, s) ∷ append_at d k x

pub contains-append_at :
    (d : Dict (List Text)) (k j x y : Text)
    → contains (get_list (append_at d k x) j) y ≡ (contains (get_list d j) y || (k == j && x == y))
unfolding get_list append_at contains
contains-append_at [] k j x y = ground arith
contains-append_at ((i, s) ∷ d) k j x y =
    ground
      (arith, contains-append_at d k j x y, contains-add s x y, ==_iff i k, ==_iff i j, ==_iff k j)
