-- ===== src/Orphans/Rpmdb.antt =====
-- Installed packages as the rpm database gives them (the header tags that
-- urpm/core/resolution/orphans.py reads), and the actions of urpm/core/resolver.py.
use urpm_ng.Base.{
  Bool, Dict, List, Option, Text, append_at, codes, decimal, if◌then◌else◌, ltb, not, or_else,
  starts_with, ℕ, [], ◌∷◌, ◌++◌, ◌&&◌,
}

pub record Header : Type 0 where
  pub name : Text
  pub epoch : Option ℕ
  pub version : Text
  pub release : Text
  pub arch : Option Text
  pub size : Option ℕ
  pub provides : List Text
  pub requires : List Text
  pub recommends : List Text
  pub suggests : List Text
  pub supplements : List Text

pub data TransactionType : Type 0 where
  install remove upgrade downgrade reinstall : TransactionType

pub data InstallReason : Type 0 where
  explicit dependency recommended suggested : InstallReason

pub record PackageAction : Type 0 where
  pub action : TransactionType
  pub name : Text
  pub evr : Text
  pub arch : Text
  pub nevra : Text
  pub size : ℕ
  pub filesize : ℕ
  pub media_name : Text
  pub reason : InstallReason
  pub from_evr : Text

-- `f"{epoch}:{version}-{release}"`, or without a zero epoch
unfoldable pub evr_text : ℕ → Text → Text → Text
evr_text epoch version release =
    let vr = version ++ b'-' ∷ release in if ltb 0 epoch then decimal epoch ++ b':' ∷ vr else vr

unfoldable pub evr_of : Header → Text
evr_of h = evr_text (or_else h.epoch 0) h.version h.release

-- the erase action for an installed package
unfoldable pub removal : Text → Header → PackageAction
unfolding evr_of
removal name h =
    let arch = or_else h.arch (codes "noarch") in
    let evr = evr_of h in
    record {
      action = TransactionType.remove;
      name = name;
      evr = evr;
      arch = arch;
      nevra = name ++ codes "-" ++ evr ++ codes "." ++ arch;
      size = or_else h.size 0;
      filesize = 0;
      media_name = [];
      reason = InstallReason.dependency;
      from_evr = [];
    }

abbrev pub action_names : List PackageAction → List Text
action_names [] = []
action_names (a ∷ as') = a.name ∷ action_names as'

-- requirements on rpmlib and on files are skipped
unfoldable pub is_package_cap : Text → Bool
is_package_cap r = not (starts_with r (codes "rpmlib(")) && not (starts_with r (codes "/"))

-- `for prov in provides: provides_map.setdefault(prov, set()).add(name)`
unfoldable pub add_provides : Text → List Text → Dict (List Text) → Dict (List Text)
add_provides name [] m = m
add_provides name (cap ∷ caps) m = add_provides name caps (append_at m cap name)
