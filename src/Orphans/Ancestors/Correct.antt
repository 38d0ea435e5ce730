-- ===== src/Orphans/Ancestors/Correct.antt =====
-- The search `has_explicit_ancestor` against the relation of protection.
use urpm_ng.Base.{
  Bool, Bool-cases, Dict, List, Text, arith, contains, length-select-le, keys, length, true, ℕ, [],
  not, ◌<◌, ◌≡◌, inl, inr, ◌↔◌,
}
use urpm_ng.Orphans.Ancestors.{Walk, has_explicit_ancestor}
use urpm_ng.Orphans.Ancestors.Kept.{IsKept, ancestor-Sound}
use urpm_ng.Orphans.Ancestors.Failure.{ancestor-Leaves, IsClosed-not-IsKept}

abbrev pub fresh_walk : List Text → Walk
fresh_walk cache = record { path = []; cache = cache }

module _ (graph : Dict (List Text)) (keeps : Text → Bool) where
  -- With as much fuel as there are packages, and one more, the search answers whether a
  -- protecting ancestor exists, and it leaves a cache of kept packages only.
  pub ancestor_correct :
      (fuel : ℕ) (n : Text) (cache : List Text)
      → length (keys graph) < fuel
      → ((c : Text) → contains cache c ≡ true → IsKept graph keeps c)
      → (((has_explicit_ancestor graph keeps fuel n (fresh_walk cache)).0 ≡ true)
          ↔ IsKept graph keeps n)
        × ((c : Text)
            → contains (has_explicit_ancestor graph keeps fuel n (fresh_walk cache)).1.cache c
              ≡ true
            → IsKept graph keeps c)
  unfolding contains
  ancestor_correct fuel n cache m cached =
      let r = has_explicit_ancestor graph keeps fuel n (fresh_walk cache) in
      let sound = ancestor-Sound graph keeps fuel n (fresh_walk cache) cached in
      let leaves =
        ancestor-Leaves graph keeps fuel n (fresh_walk cache)
          (omega (arith, length-select-le (λ k. not (contains [] k)) (keys graph))) in
      (
        (
          sound.1,
          λ kept. elim (Bool-cases r.0) [
            | inl yes' ↦ yes'
            | inr no' ↦ absurd (
                IsClosed-not-IsKept graph keeps r.1.path
                  (λ x hx. elim ((leaves no').2 x hx) [ inl old ↦ cc | inr c ↦ c ]) (leaves no').1
                  kept)
          ],
        ),
        sound.0,
      )
