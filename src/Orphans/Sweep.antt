-- ===== src/Orphans/Sweep.antt =====
-- `_find_orphans_iterative` of urpm/core/resolution/orphans.py: the orphans that an erase of
-- `initial_removes` leaves, found in at most fifty rounds. Sets are visited in list order.
pub mod Unneeded
pub mod Invariant
use urpm_ng.Base.{
  Bool, Dict, List, Text, Option, none, some, add, any, codes, contains, discard, get, get_list,
  if◌then◌else◌, is_empty, keys, lower, not, put, select, zero, suc, ℕ, [], ◌∷◌, ◌++◌, ◌==◌, ◌||◌,
  ◌&&◌, true, false,
}
use urpm_ng.Orphans.Rpmdb.{
  Header, PackageAction, removal, action_names, is_package_cap, add_provides,
}

-- base packages are never orphans
abbrev pub base_packages : List Text
base_packages =
    codes "basesystem"
    ∷ codes "filesystem"
    ∷ codes "setup"
    ∷ codes "glibc"
    ∷ codes "bash"
    ∷ codes "coreutils"
    ∷ codes "rpm"
    ∷ codes "systemd"
    ∷ codes "dbus"
    ∷ codes "util-linux"
    ∷ codes "shadow-utils"
    ∷ codes "pam"
    ∷ codes "ncurses"
    ∷ codes "readline"
    ∷ codes "zlib"
    ∷ codes "bzip2"
    ∷ codes "xz"
    ∷ codes "openssl"
    ∷ codes "ca-certificates"
    ∷ codes "krb5-libs"
    ∷ codes "libgcc"
    ∷ codes "libstdc++"
    ∷ codes "glib2"
    ∷ codes "dbus-libs"
    ∷ codes "audit-libs"
    ∷ codes "libselinux"
    ∷ codes "pcre"
    ∷ codes "pcre2"
    ∷ codes "libcap"
    ∷ codes "libacl"
    ∷ codes "libattr"
    ∷ codes "expat"
    ∷ codes "libffi"
    ∷ codes "sqlite"
    ∷ codes "nspr"
    ∷ codes "nss"
    ∷ codes "nss-util"
    ∷ codes "nss-softokn"
    ∷ codes "nss-sysinit"
    ∷ codes "p11-kit"
    ∷ codes "p11-kit-trust"
    ∷ []

-- `installed_pkgs` and `provides_map`; the entry's `requires` set leaves out rpmlib and files
pub record Picture : Type 0 where
  pub installed : Dict Header
  pub provides_map : Dict (List Text)

unfoldable pub observe : Picture → List Header → Picture
observe p [] = p
observe p (hdr ∷ hdrs) =
    observe
      (if hdr.name == codes "gpg-pubkey" then p else record {
        installed = put p.installed hdr.name hdr;
        provides_map = add_provides hdr.name hdr.provides p.provides_map;
      })
      hdrs

abbrev pub requires : Header → List Text
requires h = select is_package_cap h.requires

pub record Sweep : Type 0 where
  pub to_remove : List Text
  pub candidates : List Text
  pub new_orphans : List PackageAction

abbrev pub start_round : List Text → List Text → Sweep
start_round to_remove candidates = record {
  to_remove = to_remove;
  candidates = candidates;
  new_orphans = [];
}

module _ (pic : Picture) (unrequested : List Text) where
  -- the test under which a provider becomes a candidate
  abbrev pub eligible : List Text → Text → Bool
  eligible to_remove provider =
      not (contains to_remove provider)
      && not (contains base_packages provider)
      && contains unrequested (lower provider)

  pub offer : List Text → List Text → List Text → List Text
  offer to_remove [] candidates = candidates
  offer to_remove (provider ∷ ps) candidates =
      offer to_remove ps
        (if eligible to_remove provider then add candidates provider else candidates)

  -- the providers of the requirements become candidates
  pub offer_all : List Text → List Text → List Text → List Text
  unfolding offer
  offer_all to_remove [] candidates = candidates
  offer_all to_remove (req ∷ reqs) candidates =
      offer_all to_remove reqs (offer to_remove (get_list pic.provides_map req) candidates)

  -- step 1: the dependencies of what is being removed
  pub initial_candidates : List Text → List Text → List Text → List Text
  unfolding offer_all
  initial_candidates to_remove [] candidates = candidates
  initial_candidates to_remove (name ∷ names) candidates =
      initial_candidates to_remove names (elim (get pic.installed name) [
        | none ↦ candidates
        | some h ↦ offer_all to_remove (requires h) candidates
      ])

  -- a package that stays requires the capability `prov`
  pub wants : List Text → Text → Text → Text × Header → Bool
  wants to_remove name prov (other, h) =
      not (other == name) && not (contains to_remove other) && contains (requires h) prov

  pub is_required : List Text → Text → Header → Bool
  unfolding wants
  is_required to_remove name h =
      any (λ prov. any (wants to_remove name prov) pic.installed) h.provides

  pub drop : Text → Header → Sweep → Sweep
  unfolding offer_all removal
  drop name h s =
      let to_remove = add s.to_remove name in
      record {
        to_remove = to_remove;
        candidates = offer_all to_remove (requires h) (discard s.candidates name);
        new_orphans = s.new_orphans ++ removal name h ∷ [];
      }

  -- one name of the copy of `candidate_orphans`
  pub examine : Sweep → Text → Sweep
  unfolding drop
  examine s name =
      if contains s.to_remove name || contains base_packages name
      then s
      else elim (get pic.installed name) [
        | none ↦ s
        | some h ↦ if is_required s.to_remove name h then s else drop name h s
      ]

  pub examine_all : Sweep → List Text → Sweep
  unfolding examine
  examine_all s [] = s
  examine_all s (name ∷ names) = examine_all (examine s name) names

  -- `max_iterations` rounds, or until one finds nothing; `orphans` has those of earlier rounds
  pub rounds : ℕ → List Text → List Text → List PackageAction → List PackageAction
  unfolding examine_all
  rounds zero to_remove candidates orphans = orphans
  rounds (suc n) to_remove candidates orphans =
      let s = examine_all (start_round to_remove candidates) candidates in
      let more = rounds n s.to_remove s.candidates (orphans ++ s.new_orphans) in
      if is_empty s.new_orphans then orphans else more

abbrev pub max_iterations : ℕ
max_iterations = 50

abbrev no_picture : Picture
no_picture = record { installed = []; provides_map = [] }

pub picture : List Header → Picture
unfolding observe
picture db = observe no_picture db

pub find_orphans_iterative : List Header → List Text → List Text → List PackageAction
unfolding rounds initial_candidates picture
find_orphans_iterative db unrequested initial_removes =
    if is_empty unrequested
    then []
    else let pic = picture db in
      rounds pic unrequested max_iterations initial_removes
        (initial_candidates pic unrequested initial_removes initial_removes []) []
