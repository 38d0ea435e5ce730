-- ===== src/Orphans/Ancestors.antt =====
-- The walk up the reverse dependencies: `has_explicit_ancestor` of `find_all_orphans`
-- (urpm/core/resolution/orphans.py). Python recurses without a bound; the fuel counts the depth.
pub mod Kept
pub mod Failure
pub mod Correct
use urpm_ng.Base.{
  Bool, Dict, List, Text, add, contains, false, get_list, if◌then◌else◌, true, zero, suc, ℕ, [],
  ◌∷◌,
}

-- `path` is never popped, and the cache holds positive answers only
pub record Walk : Type 0 where
  pub path : List Text
  pub cache : List Text

-- `_cache_true.add(pkg_name); return True`
unfoldable pub found : Text → Walk → Bool × Walk
found n s = (true, record s { cache = add s.cache n })

-- the test on the recursive call, and the rest of the `for` loop where it fails
unfoldable pub after : Text → Bool × Walk → (Walk → Bool × Walk) → Bool × Walk
unfolding found
after n (true, s) rest = found n s
after n (false, s) rest = rest s

module _ (graph : Dict (List Text)) (keeps : Text → Bool) where
  -- the `for` loop over `reverse_deps.get(pkg_name, set())`, with the recursive call as `call`
  unfoldable pub walk : (Text → Walk → Bool × Walk) → Text → List Text → Walk → Bool × Walk
  unfolding found after
  walk call n [] s = (false, s)
  walk call n (d ∷ ds) s =
      let rest = walk call n ds in if keeps d then found n s else after n (call d s) rest

  unfoldable pub has_explicit_ancestor : ℕ → Text → Walk → Bool × Walk
  unfolding walk
  has_explicit_ancestor zero n s = (false, s)
  has_explicit_ancestor (suc fuel) n s =
      if contains s.cache n
      then (true, s)
      else if contains s.path n
      then (false, s)
      else walk (has_explicit_ancestor fuel) n (get_list graph n) (record s { path = add s.path n })
