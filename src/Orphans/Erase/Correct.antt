-- ===== src/Orphans/Erase/Correct.antt =====
-- What `find_erase_orphans` returns (urpm/core/resolution/orphans.py), in terms of the headers.
use urpm_ng.Base.{
  if◌then◌else◌, Bool, Bool-cases, List, Option, some, none, Text, ap, contains, contains-append,
  get, keys, inl, inr, lower, map, not, [], ◌++◌, ◌≡◌, ◌≢◌, ◌||◌, ◌&&◌, ◌∙◌, arith, refl, true,
  false, sym, contains-select,
}
use urpm_ng.Orphans.Rpmdb.{Header, PackageAction, action_names}
use urpm_ng.Orphans.All.{Tracked}
use urpm_ng.Orphans.Headers.{has_package, last_of}
use urpm_ng.Orphans.Erase.{
  package_caps, Options, caps_of, find_erase_orphans, index, needs_of, originals, provides_of,
  supplements_of,
}
use urpm_ng.Orphans.Erase.Tables.{index-IsIndex}
use urpm_ng.Orphans.Erase.Settled.{HasPlainNames}
use urpm_ng.Orphans.Erase.Names.{originals_complete, originals_sound}
use urpm_ng.Orphans.Erase.Useless.{IsUseless}
use urpm_ng.Orphans.Erase.Result.{IsEraseOrphan, find_erase_orphans_lem}
use urpm_ng.Orphans.Erase.Offers.{
  contains-cap_set, contains-index, contains-package_caps, get-index, has_tag-index, holds_of,
  keys-index, names_cap, names_package_cap, offers,
}
use urpm_ng.Orphans.Erase.Pulled.{IsPulled-IsReached, IsReached}

-- no installed package has an empty name, and no two have names that differ in case only
pub record ArePlain (db : List Header) : Type 0 where
  pub full : has_package db [] ≡ false
  pub one_case :
      (x y : Text) → has_package db x ≡ true → has_package db y ≡ true → lower x ≡ lower y → x ≡ y

-- a package that the user named, in any case
abbrev pub is_named : List Header → List Text → Text → Bool
is_named db names x = has_package db x && contains (map lower names) (lower x)

-- a package needs a capability: what it requires counts, what it recommends counts unless
-- recommended packages are erased, and what it suggests counts if they are kept
abbrev pub needs_cap : Options → Header → Text → Bool
needs_cap o h c =
    names_package_cap h.requires c
    || (not o.erase_recommends && names_package_cap h.recommends c)
    || (o.keep_suggests && names_package_cap h.suggests c)

-- The package `x` has no use once those in `going` are gone: whatever needs a capability of it
-- goes too, or finds another provider that stays; and no capability that it supplements has a
-- provider that stays.
pub record HasNoUse (db : List Header) (o : Options) (going : Text → Bool) (x : Text) : Type 0 where
  pub unneeded :
      (c dependent : Text)
      → holds_of (last_of db x) (λ h. names_cap h.provides c) ≡ true
      → holds_of (last_of db dependent) (λ h. needs_cap o h c) ≡ true
      → dependent ≢ x
      → going dependent ≡ false
      → (p : Text) × (offers db c p ≡ true) × (p ≢ x) × (going p ≡ false)
  pub unanchored :
      (c p : Text)
      → holds_of (last_of db x) (λ h. names_package_cap h.supplements c) ≡ true
      → offers db c p ≡ true
      → going p ≡ true

pub record IsErasable (db : List Header) (tracked : Tracked) (o : Options) (names : List Text)
    (actions : List PackageAction) (x : Text) : Type 0 where
  pub installed : has_package db x ≡ true
  pub as_dependency : contains tracked.unrequested (lower x) ≡ true
  pub not_for_builds : contains (keys tracked.builddeps) (lower x) ≡ false
  pub unnamed : contains (map lower names) (lower x) ≡ false
  pub reached : IsReached db (is_named db names) x
  pub no_use : HasNoUse db o (λ y. is_named db names y || contains (action_names actions) y) x

ArePlain-HasPlainNames : (db : List Header) → ArePlain db → HasPlainNames (index db)
ArePlain-HasPlainNames db plain = record {
  full = keys-index db [] ∙ plain.full;
  one_case =
      λ x y hx hy. plain.one_case x y (sym (keys-index db x) ∙ hx) (sym (keys-index db y) ∙ hy);
}

contains-originals :
    (db : List Header) (names : List Text) (x : Text)
    → ArePlain db
    → contains (originals (index db) [] names) x ≡ is_named db names x
unfolding contains
contains-originals db names x plain =
    let key = keys-index db x in
    elim (Bool-cases (contains (originals (index db) [] names) x)) [
      | inl e ↦ elim (originals_sound (index db) (index-IsIndex db) [] names x e) [
        | inl bad ↦ absurd (ground arith)
        | inr (k, n) ↦ ground arith
      ]
      | inr e ↦ elim (Bool-cases (is_named db names x)) [
        | inr n ↦ e ∙ sym n
        | inl n ↦
            let there =
              originals_complete (index db) (index-IsIndex db) (ArePlain-HasPlainNames db plain) []
                names x (ground arith) (ground arith) in
            ground arith
      ]
    ]

contains-caps_of :
    (tag : Header → List Text) (db : List Header) (x c : Text)
    → contains (caps_of tag (index db).headers x) c
      ≡ holds_of (last_of db x) (λ h. contains (tag h) c)
unfolding caps_of contains
contains-caps_of tag db x c =
    same (get (index db).headers x)
    ∙ ap (λ o. holds_of o (λ h. contains (tag h) c)) (get-index db x)
  where
    same :
        (o : Option Header)
        → contains (elim o as (λ _. List Text) [ none ↦ [] | some h ↦ tag h ]) c
          ≡ holds_of o (λ h. contains (tag h) c)
    same none = refl
    same (some h) = refl

holds_of-ext :
    (p q : Header → Bool) (o : Option Header)
    → ((h : Header) → p h ≡ q h)
    → holds_of o p ≡ holds_of o q
holds_of-ext p q none same = refl
holds_of-ext p q (some h) same = same h

contains-needs_of :
    (o : Options) (h : Header) (c : Text) → contains (needs_of o h) c ≡ needs_cap o h c
unfolding contains
contains-needs_of o h c =
    let e1 = contains-package_caps h.requires c in
    let e2 = contains-package_caps h.recommends c in
    let e3 = contains-package_caps h.suggests c in
    let weak : List Text = if o.erase_recommends then [] else package_caps h.recommends in
    let loose : List Text = if o.keep_suggests then package_caps h.suggests else [] in
    let split = contains-append (package_caps h.requires ++ weak) loose c in
    let later = contains-append (package_caps h.requires) weak c in
    split
    ∙ rw later (elim (Bool-cases o.erase_recommends) [
      | inl e ↦ rw e (ground arith)
      | inr e ↦ rw e (ground arith)
    ])

IsUseless-HasNoUse :
    (db : List Header) (o : Options) (names : List Text) (going : Text → Bool) (x : Text)
    → ((y : Text) → contains names y ≡ going y)
    → IsUseless (index db) o names x
    → HasNoUse db o going x
IsUseless-HasNoUse db o names going x same u = record {
  unneeded = λ c d hc hd ne out.
      let r =
        u.unneeded c d
          (contains-caps_of provides_of db x c
            ∙ holds_of-ext _ (λ h. names_cap h.provides c) (last_of db x)
                (λ h. contains-cap_set h.provides c)
            ∙ hc)
          (has_tag-index (needs_of o) db c d
            ∙ holds_of-ext _ (λ h. needs_cap o h c) (last_of db d) (λ h. contains-needs_of o h c)
            ∙ hd)
          ne (same d ∙ out) in
      (r.0, sym (contains-index db c r.0) ∙ r.1, r.2, sym (same r.0) ∙ r.3);
  unanchored = λ c p hc hp.
      sym (same p)
      ∙ u.unanchored c p
          (contains-caps_of supplements_of db x c
            ∙ holds_of-ext _ (λ h. names_package_cap h.supplements c) (last_of db x)
                (λ h. contains-package_caps h.supplements c)
            ∙ hc)
          (contains-index db c p ∙ hp);
}

module _ (db : List Header) (tracked : Tracked) (o : Options) (names : List Text) where
  IsEraseOrphan-IsErasable :
      (actions : List PackageAction) (x : Text)
      → ArePlain db
      → IsEraseOrphan db tracked o names actions x
      → IsErasable db tracked o names actions x
  IsEraseOrphan-IsErasable actions x plain e =
      let tracked' =
        contains-select (λ n. not (contains (keys tracked.builddeps) n)) tracked.unrequested
          (lower x) in
      record {
        installed = sym (keys-index db x) ∙ e.installed;
        as_dependency = ground (arith, e.tracked_only);
        not_for_builds = ground (arith, e.tracked_only);
        unnamed = e.unnamed;
        reached =
            IsPulled-IsReached db (originals (index db) [] names) (is_named db names)
              (λ y. contains-originals db names y plain) x e.pulled;
        no_use =
            IsUseless-HasNoUse db o (originals (index db) [] names ++ action_names actions) _ x
              (λ y.
                contains-append (originals (index db) [] names) (action_names actions) y
                ∙ ap (λ b. b || contains (action_names actions) y)
                    (contains-originals db names y plain))
              e.useless;
      }

  -- Where no installed package has an empty name and no two have names that differ in case only,
  -- the search raises nothing, and every package that it lists is installed, was tracked as a
  -- dependency and not for a build, is not among the named ones, is pulled along by them (as in
  -- `dep_tree`), and has no use once they and the listed packages are gone: what needs a
  -- capability that it provides goes too or finds another provider that stays, and no provider of
  -- a capability that it supplements stays. Capabilities are taken without versions, those on
  -- rpmlib and on files do not count as needed or supplemented, a recommendation counts as a need
  -- unless `erase_recommends` is set, a suggestion only if `keep_suggests` is, and of several
  -- packages of one name the last one counts.
  pub find_erase_orphans_correct :
      ArePlain db
      → (actions : List PackageAction) × (find_erase_orphans db tracked o names ≡ some actions)
        × ((x : Text)
            → contains (action_names actions) x ≡ true
            → IsErasable db tracked o names actions x)
  find_erase_orphans_correct plain =
      let r = find_erase_orphans_lem db tracked o names (ArePlain-HasPlainNames db plain) in
      (r.0, r.1, λ x h. IsEraseOrphan-IsErasable r.0 x plain (r.2 x h))
