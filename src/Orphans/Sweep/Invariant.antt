-- ===== src/Orphans/Sweep/Invariant.antt =====
-- The invariant of the rounds of `_find_orphans_iterative`, and its result.
use urpm_ng.Base.{All, List, Text, contains, ◌++◌, ◌||◌, false, ◌≡◌}
use urpm_ng.Orphans.Rpmdb.{PackageAction, action_names}
use urpm_ng.Orphans.Sweep.{Picture, Sweep}
use urpm_ng.Orphans.Sweep.Unneeded.{IsUnneeded, AllTracked}

module _ (pic : Picture) (unrequested initial : List Text) where
  -- `old` are the orphans of earlier rounds
  record Inv (old : List PackageAction) (s : Sweep) : Type 0 where
    members :
        (x : Text)
        → contains s.to_remove x
          ≡ (contains initial x || contains (action_names (old ++ s.new_orphans)) x)
    unneeded : All (λ a. IsUnneeded pic unrequested s.to_remove a.name) (old ++ s.new_orphans)
    apart : All (λ a. contains initial a.name ≡ false) (old ++ s.new_orphans)
    tracked : AllTracked pic unrequested s.candidates

  -- what is claimed of the orphans found
  pub record AreOrphans (orphans : List PackageAction) : Type 0 where
    pub unneeded :
        All (λ a. IsUnneeded pic unrequested (initial ++ action_names orphans) a.name) orphans
    pub apart : All (λ a. contains initial a.name ≡ false) orphans
