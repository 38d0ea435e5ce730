-- ===== src/Orphans/Erase/Tests.antt =====
-- A concrete database for the erasure theorems.
use urpm_ng.Base.{
  Bool-cases, List, Text, Option, codes, contains, contains-map-lower, keys, length, lower, map,
  none, some, unique, [], ◌∷◌, ◌≡◌, refl, true, false, not, arith, ==_iff, ==_refl, inl, inr, sym,
  ap, add, update, put, get, get_list, append_at, break_at, starts_with, discard, sorted,
  lexicographic, ◌==◌, ◌<◌, lower, ◌∙◌, or_else, suc,
}
use urpm_ng.Orphans.Rpmdb.{
  Header, InstallReason, PackageAction, TransactionType, action_names, add_provides,
}
use urpm_ng.Orphans.All.{Tracked}
use urpm_ng.Orphans.Erase.{
  Options, index, index_header, index_headers, dep_tree_of, find_erase_orphans, extract_cap_name,
  originals,
}
use urpm_ng.Orphans.Erase.Offers.{keys-index}
use urpm_ng.Orphans.Erase.Correct.{ArePlain, IsErasable, find_erase_orphans_correct}

abbrev installed : Text → List Text → List Text → Header
installed name provides requires = record {
  name = name;
  epoch = none;
  version = codes "1";
  release = codes "2";
  arch = none;
  size = some 10;
  provides = provides;
  requires = requires;
  recommends = [];
  suggests = [];
  supplements = [];
}

-- `app` and `tool` need libraries; `shared` is needed by both.
abbrev database : List Header
database =
    installed (codes "app") (codes "app" ∷ [])
      (codes "lib[>= 1]" ∷ codes "shared" ∷ codes "/bin/sh" ∷ [])
    ∷ installed (codes "tool") (codes "tool" ∷ []) (codes "shared" ∷ [])
    ∷ installed (codes "lib") (codes "lib[== 1-2]" ∷ []) (codes "rpmlib(X)" ∷ [])
    ∷ installed (codes "shared") (codes "shared" ∷ []) []
    ∷ []

abbrev tracked : Tracked
tracked = record { unrequested = codes "lib" ∷ codes "shared" ∷ []; builddeps = [] }

abbrev by_default : Options
by_default = record { erase_recommends = false; keep_suggests = false }

-- names that are distinct in lower case
unique-one_case :
    (names : List Text) (x y : Text)
    → unique (map lower names) ≡ true
    → contains names x ≡ true
    → contains names y ≡ true
    → lower x ≡ lower y
    → x ≡ y
unfolding contains
unique-one_case [] x y u hx hy e = cc
unique-one_case (n ∷ names) x y u hx hy e = elim (Bool-cases (n == x)) [
  | inl ex ↦ elim (Bool-cases (n == y)) [
    | inl ey ↦ sym ((==_iff n x).0 ex) ∙ (==_iff n y).0 ey
    | inr ny ↦
        let again : contains (map lower names) (lower y) ≡ true =
          contains-map-lower names y (ground arith) in
        let same : lower n ≡ lower y = ap lower ((==_iff n x).0 ex) ∙ e in cc
  ]
  | inr nx ↦ elim (Bool-cases (n == y)) [
    | inl ey ↦
        let again : contains (map lower names) (lower x) ≡ true =
          contains-map-lower names x (ground arith) in
        let same : lower x ≡ lower n = e ∙ sym (ap lower ((==_iff n y).0 ey)) in cc
    | inr ny ↦ unique-one_case names x y (ground arith) (ground arith) (ground arith) e
  ]
]

database-ArePlain : ArePlain database
unfolding index index_headers index_header put lower contains ◌==◌
database-ArePlain = record {
  full = refl;
  one_case = λ x y hx hy e.
      unique-one_case (keys (index database).headers) x y refl (keys-index database x ∙ hx)
        (keys-index database y ∙ hy) e;
}

-- erasing `app` takes `lib` along; `tool` still needs `shared`
erase_app :
    find_erase_orphans database tracked by_default (codes "App" ∷ [])
    ≡ some (
        record {
          action = TransactionType.remove;
          name = codes "lib";
          evr = codes "1-2";
          arch = codes "noarch";
          nevra = codes "lib-1-2.noarch";
          size = 10;
          filesize = 0;
          media_name = [];
          reason = InstallReason.dependency;
          from_evr = [];
        }
        ∷ [])
unfolding urpm_ng.Orphans.Erase.extract_cap_name urpm_ng.Orphans.Erase.index_header
    urpm_ng.Orphans.Erase.index_headers urpm_ng.Orphans.Erase.index urpm_ng.Orphans.Erase.caps_of
    urpm_ng.Orphans.Erase.mentions urpm_ng.Orphans.Erase.visit urpm_ng.Orphans.Erase.visit_all
    urpm_ng.Orphans.Erase.resolve_cap_to_pkg urpm_ng.Orphans.Erase.collect_deps
    urpm_ng.Orphans.Erase.get_all_deps urpm_ng.Orphans.Erase.supplementers
    urpm_ng.Orphans.Erase.neighbours urpm_ng.Orphans.Erase.grow urpm_ng.Orphans.Erase.originals
    urpm_ng.Orphans.Erase.dep_tree_of urpm_ng.Orphans.Erase.keep urpm_ng.Orphans.Erase.blocks
    urpm_ng.Orphans.Erase.is_needed urpm_ng.Orphans.Erase.is_anchored urpm_ng.Orphans.Erase.pass
    urpm_ng.Orphans.Erase.settle urpm_ng.Orphans.Erase.select_unrequested
    urpm_ng.Orphans.Erase.erase_actions urpm_ng.Orphans.Erase.first_pool
    urpm_ng.Orphans.Erase.find_erased urpm_ng.Orphans.Erase.find_erase_orphans
    urpm_ng.Orphans.Rpmdb.removal urpm_ng.Orphans.Rpmdb.evr_of urpm_ng.Orphans.Rpmdb.evr_text
    urpm_ng.Orphans.Rpmdb.is_package_cap urpm_ng.Orphans.Rpmdb.add_provides urpm_ng.Base.◌==◌
    urpm_ng.Base.put urpm_ng.Base.get urpm_ng.Base.lower urpm_ng.Base.add urpm_ng.Base.update
    urpm_ng.Base.starts_with urpm_ng.Base.break_at urpm_ng.Base.get_list urpm_ng.Base.append_at
    urpm_ng.Base.contains urpm_ng.Base.discard urpm_ng.Base.sorted urpm_ng.Base.decimal
    urpm_ng.Base.digits urpm_ng.Base.lexicographic
erase_app = refl

find_erase_orphans_correct_example :
    (actions : List PackageAction) × (find_erase_orphans database tracked by_default
        (codes "App" ∷ [])
      ≡ some actions)
    × ((x : Text)
        → contains (action_names actions) x ≡ true
        → IsErasable database tracked by_default (codes "App" ∷ []) actions x)
find_erase_orphans_correct_example =
    find_erase_orphans_correct database tracked by_default (codes "App" ∷ []) database-ArePlain
