-- ===== src/Download/Budget.antt =====
-- How much `_plan_server_assignments` gives a server in its first pass (urpm/core/download.py).
use native.Mathlib.Nat.{add-mul, mul-le-mul_right}
use urpm_ng.Base.{
  All, List, Option, if_elim, ℕ, [], ◌∷◌, ◌&&◌, ◌+◌, ◌*◌, ◌≡◌, ◌≤◌, ◌<◌, true, arith,
}
use urpm_ng.Download.Items.{DownloadItem}
use urpm_ng.Download.Plan.{Share, give, has_budget, has_server, place, place_all}

module _ (total_bytes total_kbps largest : ℕ) where
  -- the bytes of a server exceed its part of the total, which is as its speed is to the speed of
  -- all, by less than one file
  abbrev pub IsWithin : Share → Type 0
  IsWithin s = s.given * total_kbps < total_bytes * s.kbps + largest * total_kbps

  give-IsWithin :
      (i : DownloadItem) (s : Share)
      → i.size ≤ largest
      → has_budget total_bytes total_kbps s ≡ true
      → IsWithin (give i.size s)
  give-IsWithin i s small budget =
      let split = add-mul s.given i.size total_kbps in
      let bound = mul-le-mul_right total_kbps small in ground arith

  place-IsWithin :
      (i : DownloadItem) (ss : List Share)
      → i.size ≤ largest
      → All IsWithin ss
      → All IsWithin (place total_bytes total_kbps i ss).1
  unfolding place
  place-IsWithin i [] small h = tt
  place-IsWithin i (s ∷ ss) small (here, there) =
      if_elim (λ (r : Option ℕ × List Share). All IsWithin (r.1))
        (has_server i s.sid && has_budget total_bytes total_kbps s) _ _
        (λ e. (give-IsWithin i s small (ground arith), there))
        (λ e. (here, place-IsWithin i ss small there))

  -- From shares within the bound, the first pass keeps every server within it: more is given only
  -- to a server whose budget is not used up, so that it is exceeded by less than the largest file.
  pub place_all-IsWithin :
      (is : List DownloadItem) (ss : List Share)
      → All (λ i. i.size ≤ largest) is
      → All IsWithin ss
      → All IsWithin (place_all total_bytes total_kbps is ss).1
  unfolding place_all
  place_all-IsWithin [] ss small h = h
  place_all-IsWithin (i ∷ is) ss (here, there) h =
      place_all-IsWithin is (place total_bytes total_kbps i ss).1 there (place-IsWithin i ss here h)
