-- ===== src/Orphans/BuildDeps.antt =====
-- `find_all_builddep_orphans` of urpm/core/resolution/orphans.py.
pub mod Correct
use urpm_ng.Base.{
  Bool, Bool-cases, Dict, List, Text, add, add, append_at, arith, codes, contains, false, get_list,
  if◌then◌else◌, is_empty, keys, length, lower, not, put, select, true, zero, suc, ℕ, [], ◌∷◌, ◌==◌,
  ◌≡◌, ◌&&◌, ◌↔◌, refl, inl, inr, ==_iff, ==_refl, sym, ap, ◌∙◌,
}
use urpm_ng.Orphans.Rpmdb.{Header, PackageAction, removal, action_names, is_package_cap}
use urpm_ng.Orphans.Graph.{Tables, scan, protect_providers}
use urpm_ng.Orphans.Ancestors.{Walk, found, after, walk, has_explicit_ancestor}
use urpm_ng.Orphans.Ancestors.Kept.{IsKept}
use urpm_ng.Orphans.Ancestors.Correct.{fresh_walk, ancestor_correct}
use urpm_ng.Orphans.All.{Tracked}

-- the second `ts.dbMatch()` loop: Requires and Recommends of every header
unfoldable pub link_caps : Dict (List Text) → Text → List Text → Dict (List Text) → Dict (List Text)
link_caps m name [] g = g
link_caps m name (cap ∷ caps) g = link_caps m name caps (protect_providers name (get_list m cap) g)

unfoldable pub link_headers : Dict (List Text) → List Header → Dict (List Text) → Dict (List Text)
unfolding link_caps
link_headers m [] g = g
link_headers m (hdr ∷ hdrs) g = link_headers m hdrs (
    if hdr.name == codes "gpg-pubkey"
    then g
    else link_caps m hdr.name hdr.recommends
        (link_caps m hdr.name (select is_package_cap hdr.requires) g))

unfoldable pub strong_graph : List Header → Dict (List Text)
unfolding link_headers
strong_graph db = let t = scan db in link_headers t.provides_map db t.reverse_deps

-- the test on the recursive call, and the rest of the `for` loop where it fails
pub continue : Bool × List Text → (List Text → Bool × List Text) → Bool × List Text
continue (true, v) rest = (true, v)
continue (false, v) rest = rest v

module _ (graph : Dict (List Text)) (keeps : Text → Bool) where
  pub look : (Text → List Text → Bool × List Text) → List Text → List Text → Bool × List Text
  unfolding continue
  look call [] v = (false, v)
  look call (d ∷ ds) v =
      let rest = look call ds in if keeps d then (true, v) else continue (call d v) rest

  pub has_real_explicit_ancestor : ℕ → Text → List Text → Bool × List Text
  unfolding look
  has_real_explicit_ancestor zero n v = (false, v)
  has_real_explicit_ancestor (suc fuel) n v =
      if contains v n
      then (false, v)
      else look (has_real_explicit_ancestor fuel) (get_list graph n) (add v n)

-- neither tracked as a dependency nor as a build dependency
pub is_explicit : Tracked → Text → Bool
is_explicit t n =
    not (contains t.unrequested (lower n)) && not (contains (keys t.builddeps) (lower n))

module _ (tracked : Tracked) (graph : Dict (List Text)) (fuel : ℕ) where
  pub collect_builddeps : Dict Header → List PackageAction
  unfolding removal
  collect_builddeps [] = []
  collect_builddeps ((name, h) ∷ pkgs) =
      let rest = collect_builddeps pkgs in
      if not (contains (keys tracked.builddeps) (lower name))
      then rest
      else if (has_real_explicit_ancestor graph (is_explicit tracked) fuel name []).0
      then rest
      else removal name h ∷ rest

pub find_all_builddep_orphans : List Header → Tracked → List PackageAction
unfolding collect_builddeps is_explicit
find_all_builddep_orphans db tracked =
    if is_empty tracked.builddeps
    then []
    else let graph = strong_graph db in
      collect_builddeps tracked graph (suc (length (keys graph))) (scan db).installed
