-- ===== src/Orphans/Upgrade/States.antt =====
-- The states before and after a transaction, as `find_upgrade_orphans` builds them
-- (urpm/core/resolution/orphans.py). The package table is an interface: `get_package_exact` and
-- `get_package` of urpm/core/database.py. A flag word is its three comparison bits.
use urpm_ng.Base.{
  Bool, Dict, List, Option, none, some, Text, add, codes, contains, get, if◌then◌else◌, keys, map,
  not, or_else, put, select, starts_with, update, ℕ, ℤ, [], ◌∷◌, ◌++◌, ◌==◌,
}
use urpm_ng.Orphans.Rpmdb.{Header, PackageAction, TransactionType, evr_text}
use urpm_ng.Orphans.Versions.{Capability, Sense, no_sense, parse_synthesis_cap}
use urpm_ng.Synthesis.Names.{parse_evr}

-- a header with the versions and flags that stand beside the names of its tags
pub record VersionedHeader : Type 0 where
  pub header : Header
  pub provide_versions : List Text
  pub require_versions : List Text
  pub require_flags : List Sense
  pub recommend_versions : List Text
  pub recommend_flags : List Sense
  pub suggest_versions : List Text
  pub suggest_flags : List Sense
  pub supplement_versions : List Text
  pub supplement_flags : List Sense

pub record Provide : Type 0 where
  pub name : Text
  pub evr : Text

-- an entry of `pre_state` and `post_state`
pub record Entry : Type 0 where
  pub requires : List Capability
  pub provides : List Provide
  pub supplements : List Capability

-- `vers[i] if i < len(vers) else ''`, and the rest for the next name
first_or {ℓ} : {A : Type ℓ} → A → List A → A
first_or d [] = d
first_or d (x ∷ xs) = x

rest_of {ℓ} : {A : Type ℓ} → List A → List A
rest_of [] = []
rest_of (x ∷ xs) = xs

-- the loop over a tag's names
unfoldable pub tag_caps : List Text → List Text → List Sense → List Capability
unfolding first_or rest_of
tag_caps [] vers flags = []
tag_caps (n ∷ names) vers flags =
    record { name = n; sense = first_or no_sense flags; evr = first_or [] vers }
    ∷ tag_caps names (rest_of vers) (rest_of flags)

unfoldable pub tag_provides : List Text → List Text → List Provide
unfolding first_or rest_of
tag_provides [] vers = []
tag_provides (n ∷ names) vers =
    record { name = n; evr = first_or [] vers } ∷ tag_provides names (rest_of vers)

abbrev pub not_rpmlib : Capability → Bool
not_rpmlib c = not (starts_with c.name (codes "rpmlib("))

unfoldable pub collect_from_header : VersionedHeader → Entry
unfolding tag_caps tag_provides
collect_from_header v =
    let h = v.header in
    record {
      requires =
          select not_rpmlib (tag_caps h.requires v.require_versions v.require_flags)
          ++ tag_caps h.recommends v.recommend_versions v.recommend_flags
          ++ tag_caps h.suggests v.suggest_versions v.suggest_flags;
      provides = tag_provides h.provides v.provide_versions;
      supplements = tag_caps h.supplements v.supplement_versions v.supplement_flags;
    }

-- a row of the package table
pub record Row : Type 0 where
  pub epoch : ℕ
  pub version : Text
  pub release : Text
  pub requires : List Text
  pub recommends : List Text
  pub suggests : List Text
  pub provides : List Text
  pub supplements : List Text

pub record PackageTable : Type 0 where
  pub get_package_exact : (name version release arch : Text) → Option ℤ → Option Row
  pub get_package : (name arch : Text) → Option Row

unfoldable pub provide_of : Text → Provide
provide_of p = let c = parse_synthesis_cap p in record { name = c.name; evr = c.evr }

unfoldable pub collect_from_synthesis : Option Row → Entry
unfolding provide_of
collect_from_synthesis none = record { requires = []; provides = []; supplements = [] }
collect_from_synthesis (some row) = record {
  requires =
      select not_rpmlib (map parse_synthesis_cap row.requires)
      ++ map parse_synthesis_cap row.recommends
      ++ map parse_synthesis_cap row.suggests;
  provides = map provide_of row.provides;
  supplements = map parse_synthesis_cap row.supplements;
}

unfoldable pub pkg_self_evr : Option Row → Text
pkg_self_evr none = []
pkg_self_evr (some row) = evr_text row.epoch row.version row.release

-- `provs.append((name, evr))`
abbrev pub with_self : Text → Text → Entry → Entry
with_self name evr e = record e { provides = e.provides ++ record { name = name; evr = evr } ∷ [] }

unfoldable pub header_entry : VersionedHeader → Entry
unfolding collect_from_header
header_entry v =
    let h = v.header in
    with_self h.name (evr_text (or_else h.epoch 0) h.version h.release) (collect_from_header v)

-- the names of a transaction, with their actions
pub record Transaction : Type 0 where
  pub upgraded_names : Dict PackageAction
  pub installed_names : Dict PackageAction
  pub removed_names : List Text

abbrev pub no_transaction : Transaction
no_transaction = record { upgraded_names = []; installed_names = []; removed_names = [] }

unfoldable pub note_action : Transaction → PackageAction → Transaction
note_action t a = elim a.action [
  | TransactionType.upgrade ↦ record t { upgraded_names = put t.upgraded_names a.name a }
  | TransactionType.install ↦ record t { installed_names = put t.installed_names a.name a }
  | TransactionType.remove ↦ record t { removed_names = add t.removed_names a.name }
  | _ ↦ t
]

unfoldable pub note_actions : Transaction → List PackageAction → Transaction
unfolding note_action
note_actions t [] = t
note_actions t (a ∷ actions) = note_actions (note_action t a) actions

-- with the packages that are replaced, which the actions do not show
unfoldable pub transaction_of : List PackageAction → List Text → Transaction
unfolding note_actions
transaction_of actions obsoleted_names =
    let t = note_actions no_transaction actions in
    record t { removed_names = update t.removed_names obsoleted_names }

-- `pre_state` and `post_state`
pub record States : Type 0 where
  pub pre : Dict Entry
  pub post : Dict Entry

abbrev pub no_states : States
no_states = record { pre = []; post = [] }

module _ (table : PackageTable) where
  -- the row that was chosen, or else the latest one
  unfoldable pub lookup_post_pkg : PackageAction → Option Row
  lookup_post_pkg a =
      let e = parse_evr a.evr in
      elim (table.get_package_exact a.name e.version e.release a.arch e.epoch) [
        | some row ↦ some row
        | none ↦ table.get_package a.name a.arch
      ]

  unfoldable pub new_entry : Text → PackageAction → Entry
  unfolding lookup_post_pkg collect_from_synthesis pkg_self_evr
  new_entry name a =
      let pkg = lookup_post_pkg a in with_self name (pkg_self_evr pkg) (collect_from_synthesis pkg)

  module _ (t : Transaction) where
    -- one header of `ts.dbMatch()`
    unfoldable pub read_header : States → VersionedHeader → States
    unfolding header_entry new_entry
    read_header s v =
        let name = v.header.name in
        let old = header_entry v in
        let s' = record s { pre = put s.pre name old } in
        if name == codes "gpg-pubkey"
        then s
        else if contains t.removed_names name
        then s'
        else record s' {
          post =
              put s.post name
                (elim (get t.upgraded_names name) [ some a ↦ new_entry name a | none ↦ old ]);
        }

    unfoldable pub read_headers : States → List VersionedHeader → States
    unfolding read_header
    read_headers s [] = s
    read_headers s (v ∷ vs) = read_headers (read_header s v) vs

  -- `for name in installed_names`
  unfoldable pub add_installs : Dict PackageAction → Dict Entry → Dict Entry
  unfolding new_entry
  add_installs [] post = post
  add_installs ((name, a) ∷ installs) post =
      add_installs installs
        (if contains (keys post) name then post else put post name (new_entry name a))

  unfoldable pub states_of : Transaction → List VersionedHeader → States
  unfolding read_headers add_installs
  states_of t db =
      let s = read_headers t no_states db in
      record s { post = add_installs t.installed_names s.post }
