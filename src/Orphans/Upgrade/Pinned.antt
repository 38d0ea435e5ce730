-- ===== src/Orphans/Upgrade/Pinned.antt =====
-- `pre_state` and `post_state` of `find_upgrade_orphans` (urpm/core/resolution/orphans.py) in terms
-- of the headers and the actions.
use urpm_ng.Base.{
  any, Bool, Bool-cases, Dict, List, Option, Option-cases, none, some, Text, ap, codes, contains,
  contains-add, contains-update, get, get-put, if◌then◌else◌, inl, inr, keys, not, put, unique, [],
  ◌∷◌, ◌==◌, ◌≡◌, ◌||◌, contains-select, lower, map, ==_refl, ◌&&◌, ◌∙◌, ◌⊎◌, arith, ==_iff, refl,
  true, false, sym,
}
use urpm_ng.Orphans.Rpmdb.{PackageAction, TransactionType}
use urpm_ng.Orphans.Headers.{get-absent, unique-keys-put}
use urpm_ng.Orphans.All.{Tracked}
use urpm_ng.Orphans.Upgrade.Plan.{effective_unrequested}
use urpm_ng.Orphans.Upgrade.States.{
  Entry, PackageTable, States, Transaction, VersionedHeader, add_installs, header_entry, new_entry,
  no_states, no_transaction, note_action, note_actions, read_header, read_headers, states_of,
  transaction_of,
}

abbrev pub or_old {ℓ} : {A : Type ℓ} → Option A → Option A → Option A
or_old (some a) old = some a
or_old none old = old

-- the last package of a name before the transaction; public keys are no packages
abbrev pub last_header : List VersionedHeader → Text → Option VersionedHeader
last_header [] n = none
last_header (v ∷ vs) n =
    or_old (last_header vs n)
      (if not (v.header.name == codes "gpg-pubkey") && v.header.name == n then some v else none)

-- the last action of a kind on a name
abbrev pub last_action : (TransactionType → Bool) → List PackageAction → Text → Option PackageAction
last_action kind [] n = none
last_action kind (a ∷ actions) n =
    or_old (last_action kind actions n) (if kind a.action && a.name == n then some a else none)

abbrev pub is_upgrading : TransactionType → Bool
is_upgrading TransactionType.upgrade = true
is_upgrading _ = false

abbrev pub is_installing : TransactionType → Bool
is_installing TransactionType.install = true
is_installing _ = false

abbrev pub is_removing : TransactionType → Bool
is_removing TransactionType.remove = true
is_removing _ = false

-- the name is removed or replaced
abbrev pub leaves : List PackageAction → List Text → Text → Bool
leaves actions obsoleted_names n =
    any (λ (a : PackageAction). is_removing a.action && a.name == n) actions
    || contains obsoleted_names n

TransactionType-cases :
    (k : TransactionType)
    → (k ≡ TransactionType.install)
      ⊎ (k ≡ TransactionType.remove)
      ⊎ (k ≡ TransactionType.upgrade)
      ⊎ (k ≡ TransactionType.downgrade)
      ⊎ (k ≡ TransactionType.reinstall)
TransactionType-cases TransactionType.install = inl refl
TransactionType-cases TransactionType.remove = inr (inl refl)
TransactionType-cases TransactionType.upgrade = inr (inr (inl refl))
TransactionType-cases TransactionType.downgrade = inr (inr (inr (inl refl)))
TransactionType-cases TransactionType.reinstall = inr (inr (inr (inr refl)))

-- what a transaction says of a name
record Says (t : Transaction) (n : Text) (up inst : Option PackageAction) (gone : Bool)
    : Type 0 where
  upgraded : get t.upgraded_names n ≡ up
  installed : get t.installed_names n ≡ inst
  removed : contains t.removed_names n ≡ gone
  once : unique (keys t.installed_names) ≡ true

abbrev here : (TransactionType → Bool) → PackageAction → Text → Option PackageAction
here kind a n = if kind a.action && a.name == n then some a else none

note_action-Says :
    (t : Transaction) (a : PackageAction) (n : Text)
    → unique (keys t.installed_names) ≡ true
    → Says
        (note_action t a)
        n
        (or_old (here is_upgrading a n) (get t.upgraded_names n))
        (or_old (here is_installing a n) (get t.installed_names n))
        (contains t.removed_names n || (is_removing a.action && a.name == n))
unfolding note_action
note_action-Says t a n u =
    let up = get-put t.upgraded_names a.name n a in
    let inst = get-put t.installed_names a.name n a in
    let gone = contains-add t.removed_names a.name n in
    let name = ==_iff a.name n in
    let once = unique-keys-put t.installed_names a.name a u in
    elim (TransactionType-cases a.action) [
      | inl e ↦ record {
        upgraded = ground arith;
        installed = ground arith;
        removed = ground arith;
        once = ground arith;
      }
      | inr (inl e) ↦ record {
        upgraded = ground arith;
        installed = ground arith;
        removed = ground arith;
        once = ground arith;
      }
      | inr (inr (inl e)) ↦ record {
        upgraded = ground arith;
        installed = ground arith;
        removed = ground arith;
        once = ground arith;
      }
      | inr (inr (inr (inl e))) ↦ record {
        upgraded = ground arith;
        installed = ground arith;
        removed = ground arith;
        once = ground arith;
      }
      | inr (inr (inr (inr e))) ↦ record {
        upgraded = ground arith;
        installed = ground arith;
        removed = ground arith;
        once = ground arith;
      }
    ]

or_old_assoc {ℓ} : {A : Type ℓ} (a b c : Option A) → or_old a (or_old b c) ≡ or_old (or_old a b) c
or_old_assoc none b c = refl
or_old_assoc (some a) b c = refl

note_actions-Says :
    (actions : List PackageAction) (t : Transaction) (n : Text)
    → unique (keys t.installed_names) ≡ true
    → Says
        (note_actions t actions)
        n
        (or_old (last_action is_upgrading actions n) (get t.upgraded_names n))
        (or_old (last_action is_installing actions n) (get t.installed_names n))
        (contains t.removed_names n
          || any (λ (a : PackageAction). is_removing a.action && a.name == n) actions)
unfolding note_actions
note_actions-Says [] t n u = record {
  upgraded = refl;
  installed = refl;
  removed = ground arith;
  once = u;
}
note_actions-Says (a ∷ actions) t n u =
    let first = note_action-Says t a n u in
    let rest = note_actions-Says actions (note_action t a) n first.once in
    record {
      upgraded =
          rest.upgraded
          ∙ ap (or_old (last_action is_upgrading actions n)) first.upgraded
          ∙ or_old_assoc (last_action is_upgrading actions n) (here is_upgrading a n)
              (get t.upgraded_names n);
      installed =
          rest.installed
          ∙ ap (or_old (last_action is_installing actions n)) first.installed
          ∙ or_old_assoc (last_action is_installing actions n) (here is_installing a n)
              (get t.installed_names n);
      removed = rest.removed ∙ (let gone = first.removed in ground arith);
      once = rest.once;
    }

or_old-none {ℓ} : {A : Type ℓ} (a : Option A) → or_old a none ≡ a
or_old-none none = refl
or_old-none (some a) = refl

transaction_of-Says :
    (actions : List PackageAction) (obsoleted_names : List Text) (n : Text)
    → Says
        (transaction_of actions obsoleted_names)
        n
        (last_action is_upgrading actions n)
        (last_action is_installing actions n)
        (leaves actions obsoleted_names n)
unfolding transaction_of get contains
transaction_of-Says actions obsoleted_names n =
    let noted = note_actions-Says actions no_transaction n refl in
    let all =
      contains-update (note_actions no_transaction actions).removed_names obsoleted_names n in
    record {
      upgraded = noted.upgraded ∙ or_old-none (last_action is_upgrading actions n);
      installed = noted.installed ∙ or_old-none (last_action is_installing actions n);
      removed = all ∙ (let gone = noted.removed in ground arith);
      once = noted.once;
    }

has_key {ℓ} :
    {V : Type ℓ} (d : Dict V) (k : Text)
    → contains (keys d) k ≡ elim (get d k) as (λ _. Bool) [ none ↦ false | some v ↦ true ]
unfolding get contains
has_key [] k = refl
has_key ((j, w) ∷ d) k = elim (Bool-cases (j == k)) [
  | inl e ↦ rw e refl
  | inr e ↦ rw e (has_key d k)
]

abbrev pub before_as : Option VersionedHeader → Option Entry
before_as none = none
before_as (some v) = some (header_entry v)

module _ (table : PackageTable) where
  abbrev pub installs_as : Text → Option PackageAction → Option Entry
  installs_as n none = none
  installs_as n (some a) = some (new_entry table n a)

  -- an installed package that does not leave stays, in its new version where it is upgraded
  abbrev pub stays_as : Bool → Option PackageAction → Text → Option VersionedHeader → Option Entry
  stays_as gone up n none = none
  stays_as true up n (some v) = none
  stays_as false none n (some v) = some (header_entry v)
  stays_as false (some a) n (some v) = some (new_entry table n a)

  kept_other :
      (post : Dict Entry) (m : Text) (a : PackageAction) (n : Text)
      → (m == n) ≡ false
      → get (if contains (keys post) m then post else put post m (new_entry table m a)) n
        ≡ get post n
  kept_other post m a n other = elim (Bool-cases (contains (keys post) m)) [
    | inl e ↦ rw e refl
    | inr e ↦ rw (e, get-put post m n (new_entry table m a), other) refl
  ]

  kept_same :
      (post : Dict Entry) (m : Text) (a : PackageAction)
      → get (if contains (keys post) m then post else put post m (new_entry table m a)) m
        ≡ or_old (get post m) (some (new_entry table m a))
  kept_same post m a =
      let key = has_key post m in
      elim (Option-cases (get post m)) [
        | inl e ↦
            let absent : contains (keys post) m ≡ false = rw e at key in
            rw (absent, get-put post m m (new_entry table m a), ==_refl m, e) refl
        | inr (v, e) ↦ let there : contains (keys post) m ≡ true = rw e at key in rw (there, e) refl
      ]

  get-add_installs :
      (installs : Dict PackageAction) (post : Dict Entry) (n : Text)
      → unique (keys installs) ≡ true
      → get (add_installs table installs post) n
        ≡ or_old (get post n) (installs_as n (get installs n))
  unfolding add_installs get
  get-add_installs [] post n u = sym (or_old-none (get post n))
  get-add_installs ((m, a) ∷ installs) post n u =
      let kept : Dict Entry =
        if contains (keys post) m then post else put post m (new_entry table m a) in
      let rest = get-add_installs installs kept n (ground arith) in
      let gone : get installs m ≡ none = get-absent installs m (ground arith) in
      rest ∙ elim (Bool-cases (m == n)) [
        | inr other ↦ rw (other, kept_other post m a n other) refl
        | inl same ↦
            let e : m ≡ n = (==_iff m n).0 same in
            rw (same, sym e, gone, kept_same post m a) (or_old-none _)
      ]

  abbrev named : VersionedHeader → Text → Option VersionedHeader
  named v n =
      if not (v.header.name == codes "gpg-pubkey") && v.header.name == n then some v else none

  get-read_header_own :
      (t : Transaction) (v : VersionedHeader) (s : States)
      → (v.header.name == codes "gpg-pubkey") ≡ false
      → let n = v.header.name in
        (get (read_header table t s v).pre n ≡ or_old (before_as (named v n)) (get s.pre n))
        × (get (read_header table t s v).post n
            ≡ or_old
                (stays_as (contains t.removed_names n) (get t.upgraded_names n) n (named v n))
                (get s.post n))
  unfolding read_header
  get-read_header_own t v s pkg =
      let n = v.header.name in
      let pre = get-put s.pre n n (header_entry v) in
      let own = ==_refl n in
      elim (Bool-cases (contains t.removed_names n)) [
        | inl gone ↦ rw (pkg, gone, own) (pre ∙ rw own refl, refl)
        | inr left ↦ elim (Option-cases (get t.upgraded_names n)) [
          | inl e ↦
              rw (pkg, left, own, e)
                (pre ∙ rw own refl, get-put s.post n n (header_entry v) ∙ rw own refl)
          | inr (a, e) ↦
              rw (pkg, left, own, e)
                (pre ∙ rw own refl, get-put s.post n n (new_entry table n a) ∙ rw own refl)
        ]
      ]

  get-read_header :
      (t : Transaction) (v : VersionedHeader) (s : States) (n : Text)
      → (get (read_header table t s v).pre n ≡ or_old (before_as (named v n)) (get s.pre n))
        × (get (read_header table t s v).post n
            ≡ or_old
                (stays_as (contains t.removed_names n) (get t.upgraded_names n) n (named v n))
                (get s.post n))
  unfolding read_header
  get-read_header t v s n =
      let pre = get-put s.pre v.header.name n (header_entry v) in
      elim (Bool-cases (v.header.name == codes "gpg-pubkey")) [
        | inl key ↦ rw key (refl, refl)
        | inr pkg ↦ elim (Bool-cases (v.header.name == n)) [
          | inr other ↦ elim (Bool-cases (contains t.removed_names v.header.name)) [
            | inl gone ↦ rw (pkg, gone) (pre ∙ rw other refl, rw other refl)
            | inr left ↦
                rw (pkg, left)
                  (pre ∙ rw other refl, get-put s.post v.header.name n _ ∙ rw other refl)
          ]
          | inl same ↦ rw (sym ((==_iff v.header.name n).0 same)) (get-read_header_own t v s pkg)
        ]
      ]

  get-read_headers :
      (t : Transaction) (vs : List VersionedHeader) (s : States) (n : Text)
      → (get (read_headers table t s vs).pre n
          ≡ or_old (before_as (last_header vs n)) (get s.pre n))
        × (get (read_headers table t s vs).post n
            ≡ or_old
                (stays_as
                  (contains t.removed_names n)
                  (get t.upgraded_names n)
                  n
                  (last_header vs n))
                (get s.post n))
  unfolding read_headers
  get-read_headers t [] s n = (refl, refl)
  get-read_headers t (v ∷ vs) s n =
      let rest = get-read_headers t vs (read_header table t s v) n in
      let one = get-read_header t v s n in
      (
        rest.0 ∙ rw one.0 (before (last_header vs n) (named v n) (get s.pre n)),
        rest.1
            ∙ rw one.1 (
                stays (contains t.removed_names n) (get t.upgraded_names n) n (last_header vs n)
                  (named v n) (get s.post n)),
      )
    where
      before :
          (later now : Option VersionedHeader) (old : Option Entry)
          → or_old (before_as later) (or_old (before_as now) old)
            ≡ or_old (before_as (or_old later now)) old
      before none now old = refl
      before (some w) now old = refl

      stays :
          (gone : Bool) (up : Option PackageAction) (m : Text) (later now : Option VersionedHeader)
          (old : Option Entry)
          → or_old (stays_as gone up m later) (or_old (stays_as gone up m now) old)
            ≡ or_old (stays_as gone up m (or_old later now)) old
      stays gone up m none now old = refl
      stays true up m (some w) none old = refl
      stays true up m (some w) (some v') old = refl
      stays false none m (some w) now old = refl
      stays false (some a) m (some w) now old = refl

  -- the entry of a name before and after
  pub get-states_of :
      (db : List VersionedHeader) (actions : List PackageAction) (obsoleted_names : List Text)
      (n : Text)
      → let s = states_of table (transaction_of actions obsoleted_names) db in
        (get s.pre n ≡ before_as (last_header db n))
        × (get s.post n
            ≡ or_old
                (stays_as
                  (leaves actions obsoleted_names n)
                  (last_action is_upgrading actions n)
                  n
                  (last_header db n))
                (installs_as n (last_action is_installing actions n)))
  unfolding states_of get
  get-states_of db actions obsoleted_names n =
      let t = transaction_of actions obsoleted_names in
      let says = transaction_of-Says actions obsoleted_names n in
      let read = get-read_headers t db no_states n in
      (
        read.0 ∙ or_old-none (before_as (last_header db n)),
        get-add_installs t.installed_names (read_headers table t no_states db).post n says.once
            ∙ rw (read.1, says.upgraded, says.installed, says.removed)
                (ap (λ o. or_old o (installs_as n (last_action is_installing actions n)))
                  (or_old-none _)),
      )

-- a name in lower case that counts as unrequested: tracked as a dependency and not for a build, or
-- newly installed
abbrev pub counts_unrequested : Tracked → List PackageAction → Text → Bool
counts_unrequested tracked actions l =
    (contains tracked.unrequested l && not (contains (keys tracked.builddeps) l))
    || any (λ (a : PackageAction). is_installing a.action && lower a.name == l) actions

lower-keys-put :
    (d : Dict PackageAction) (k l : Text) (a : PackageAction)
    → contains (map lower (keys (put d k a))) l ≡ (contains (map lower (keys d)) l || lower k == l)
unfolding put contains
lower-keys-put [] k l a = ground arith
lower-keys-put ((j, b) ∷ d) k l a =
    let rest = lower-keys-put d k l a in
    elim (Bool-cases (j == k)) [
      | inl e ↦ rw (e, (==_iff j k).0 e) (ground arith)
      | inr e ↦ rw e (ground arith)
    ]

lower-note_action :
    (t : Transaction) (a : PackageAction) (l : Text)
    → contains (map lower (keys (note_action t a).installed_names)) l ≡ (
        contains (map lower (keys t.installed_names)) l
        || (is_installing a.action && lower a.name == l))
unfolding note_action
lower-note_action t a l =
    let put' = lower-keys-put t.installed_names a.name l a in
    elim (TransactionType-cases a.action) [
      | inl e ↦ ground arith
      | inr (inl e) ↦ ground arith
      | inr (inr (inl e)) ↦ ground arith
      | inr (inr (inr (inl e))) ↦ ground arith
      | inr (inr (inr (inr e))) ↦ ground arith
    ]

lower-note_actions :
    (actions : List PackageAction) (t : Transaction) (l : Text)
    → contains (map lower (keys (note_actions t actions).installed_names)) l ≡ (
        contains (map lower (keys t.installed_names)) l
        || any (λ (a : PackageAction). is_installing a.action && lower a.name == l) actions)
unfolding note_actions
lower-note_actions [] t l = ground arith
lower-note_actions (a ∷ actions) t l =
    let rest = lower-note_actions actions (note_action t a) l in
    let first = lower-note_action t a l in ground arith

pub contains-effective_unrequested :
    (tracked : Tracked) (actions : List PackageAction) (obsoleted_names : List Text) (l : Text)
    → contains (effective_unrequested tracked (transaction_of actions obsoleted_names)) l
      ≡ counts_unrequested tracked actions l
unfolding transaction_of contains
contains-effective_unrequested tracked actions obsoleted_names l =
    let installs = lower-note_actions actions no_transaction l in
    let own =
      contains-select (λ x. not (contains (keys tracked.builddeps) x)) tracked.unrequested l in
    contains-update _ (map lower (keys (note_actions no_transaction actions).installed_names)) l
    ∙ rw (own, installs) refl
