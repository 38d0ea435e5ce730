-- ===== src/Orphans/Erase/Offers.antt =====
-- What the headers of the rpm database say to `find_erase_orphans`
-- (urpm/core/resolution/orphans.py), read without the tables that it builds.
use urpm_ng.Base.{
  Bool, Bool-cases, Dict, List, Option, Option-cases, none, some, Text, add, any, append_at, ap,
  contains, contains-update, get, get_list, if◌then◌else◌, inl, inr, codes, keys, map, select,
  unique, update, [], ◌∷◌, ◌++◌, ◌==◌, ◌≡◌, ◌||◌, ◌&&◌, ◌∙◌, arith, ==_iff, refl, true, false,
}
use urpm_ng.Orphans.Rpmdb.{Header, add_provides, is_package_cap}
use urpm_ng.Orphans.Headers.{
  any-package_caps, contains-add_provides, get-absent, get-installed_after, has_package,
  installed_after, is_installed, is_on_package, keys-installed_after, last_of,
  unique-installed_after,
}
use urpm_ng.Orphans.Erase.{
  Index, cap_set, extract_cap_name, index, index_header, index_headers, no_index, package_caps,
  resolve_cap_to_pkg,
}
use urpm_ng.Orphans.Erase.Tables.{has_tag}

-- `c` is the name of one of the capabilities
abbrev pub names_cap : List Text → Text → Bool
names_cap caps c = any (λ r. extract_cap_name r == c) caps

-- `c` is the name of one of the capabilities that are neither on rpmlib nor on a file
abbrev pub names_package_cap : List Text → Text → Bool
names_package_cap caps c = any (λ r. is_on_package r && extract_cap_name r == c) caps

-- a package named `p` provides `c`
abbrev pub offers : List Header → Text → Text → Bool
offers db c p = any (λ (h : Header). is_installed h && (h.name == p && names_cap h.provides c)) db

-- the first package that provides `c`
abbrev pub first_offer : List Header → Text → Option Text
first_offer [] c = none
first_offer (h ∷ hs) c =
    if is_installed h && names_cap h.provides c then some h.name else first_offer hs c

-- a test of the last package of a name
abbrev pub holds_of : Option Header → (Header → Bool) → Bool
holds_of none p = false
holds_of (some h) p = p h

any-contains :
    (p : Text → Bool) (s : List Text) (x : Text) → contains s x ≡ true → p x ≡ true → any p s ≡ true
unfolding contains
any-contains p [] x h e = absurd (ground arith)
any-contains p (y ∷ s) x h e = elim (Bool-cases (y == x)) [
  | inl same ↦ rw (ap p ((==_iff y x).0 same) ∙ e) refl
  | inr ne ↦ let rest = any-contains p s x (ground arith) e in ground arith
]

any-snoc : (p : Text → Bool) (s : List Text) (x : Text) → any p (s ++ x ∷ []) ≡ (any p s || p x)
any-snoc p [] x = ground arith
any-snoc p (y ∷ s) x = let rest = any-snoc p s x in ground arith

any-add : (p : Text → Bool) (s : List Text) (x : Text) → any p (add s x) ≡ (any p s || p x)
unfolding add
any-add p s x = elim (Bool-cases (contains s x)) [
  | inr new ↦ rw new (any-snoc p s x)
  | inl old ↦ rw old (elim (Bool-cases (p x)) [
    | inl e ↦ let there = any-contains p s x old e in ground arith
    | inr e ↦ ground arith
  ])
]

pub any-update : (p : Text → Bool) (s xs : List Text) → any p (update s xs) ≡ (any p s || any p xs)
unfolding update
any-update p s [] = ground arith
any-update p s (x ∷ xs) = let here = any-add p s x in any-update p (add s x) xs ∙ ground arith

pub contains-cap_set : (caps : List Text) (c : Text) → contains (cap_set caps) c ≡ names_cap caps c
unfolding contains
contains-cap_set caps c = contains-update [] (map extract_cap_name caps) c ∙ mapped caps
  where
    mapped : (rs : List Text) → contains (map extract_cap_name rs) c ≡ names_cap rs c
    mapped [] = refl
    mapped (r ∷ rs) = let rest = mapped rs in ground arith

pub contains-package_caps :
    (caps : List Text) (c : Text) → contains (package_caps caps) c ≡ names_package_cap caps c
contains-package_caps caps c =
    contains-cap_set (select is_package_cap caps) c
    ∙ any-package_caps (λ r. extract_cap_name r == c) caps

-- the tables of the index
headers-index_headers :
    (db : List Header) (idx : Index)
    → (index_headers idx db).headers ≡ installed_after idx.headers db
unfolding index_headers index_header installed_after
headers-index_headers [] idx = refl
headers-index_headers (h ∷ hs) idx =
    headers-index_headers hs (index_header idx h)
    ∙ ap (λ (d : Dict Header). installed_after d hs) (unfold index_header in ground arith)

pub headers-index : (db : List Header) → (index db).headers ≡ installed_after [] db
unfolding index
headers-index db = headers-index_headers db no_index

pub get-index : (db : List Header) (n : Text) → get (index db).headers n ≡ last_of db n
get-index db n =
    ap (λ (d : Dict Header). get d n) (headers-index db)
    ∙ get-installed_after db [] n
    ∙ (unfold get in
        elim (Option-cases (last_of db n)) [ inl e ↦ ground arith | inr (h, e) ↦ ground arith ])

pub keys-index :
    (db : List Header) (n : Text) → contains (keys (index db).headers) n ≡ has_package db n
keys-index db n =
    ap (λ (d : Dict Header). contains (keys d) n) (headers-index db)
    ∙ keys-installed_after db [] n
    ∙ unfold contains in refl

-- an entry of a table of unique names is what the name gets
any-get :
    (f : Header → Bool) (d : Dict Header) (x : Text)
    → unique (keys d) ≡ true
    → any (λ (e : Text × Header). f e.1 && e.0 == x) d ≡ holds_of (get d x) f
unfolding get
any-get f [] x u = refl
any-get f ((n, h) ∷ d) x u =
    let rest = any-get f d x (ground arith) in
    let gone : get d n ≡ none = get-absent d n (ground arith) in
    let name = ==_iff n x in
    elim (Bool-cases (n == x)) [
      | inl e ↦ let none_left : get d x ≡ none = rw ((==_iff n x).0 e) at gone in ground arith
      | inr ne ↦ ground arith
    ]

pub has_tag-index :
    (tag : Header → List Text) (db : List Header) (c x : Text)
    → has_tag tag (index db).headers c x ≡ holds_of (last_of db x) (λ h. contains (tag h) c)
has_tag-index tag db c x =
    any-get (λ h. contains (tag h) c) (index db).headers x
      (ap (λ (d : Dict Header). unique (keys d)) (headers-index db)
        ∙ unique-installed_after db [] refl)
    ∙ ap (λ o. holds_of o (λ h. contains (tag h) c)) (get-index db x)

contains-index_headers :
    (db : List Header) (idx : Index) (c p : Text)
    → contains (get_list (index_headers idx db).cap_to_pkg c) p
      ≡ (contains (get_list idx.cap_to_pkg c) p || offers db c p)
unfolding index_headers index_header
contains-index_headers [] idx c p = ground arith
contains-index_headers (h ∷ hs) idx c p =
    let rest = contains-index_headers hs (index_header idx h) c p in
    let here = contains-add_provides h.name (cap_set h.provides) idx.cap_to_pkg c p in
    let caps = contains-cap_set h.provides c in rest ∙ ground arith

pub contains-index :
    (db : List Header) (c p : Text) → contains (get_list (index db).cap_to_pkg c) p ≡ offers db c p
unfolding index get_list get contains
contains-index db c p = contains-index_headers db no_index c p

-- the first of a list
abbrev pub head : List Text → Option Text
head [] = none
head (p ∷ ps) = some p

abbrev or_later : Option Text → Option Text → Option Text
or_later none o = o
or_later (some p) o = some p

head-add : (s : List Text) (x : Text) → head (add s x) ≡ or_later (head s) (some x)
unfolding add
head-add [] x = ground arith
head-add (y ∷ s) x = ground arith

head-append_at :
    (d : Dict (List Text)) (k j x : Text)
    → head (get_list (append_at d k x) j)
      ≡ or_later (head (get_list d j)) (if k == j then some x else none)
unfolding get_list append_at get
head-append_at [] k j x = ground arith
head-append_at ((i, s) ∷ d) k j x =
    let rest = head-append_at d k j x in
    let first = head-add s x in
    let e1 = ==_iff i k in
    let e2 = ==_iff i j in
    let e3 = ==_iff k j in
    elim (Bool-cases (i == k)) [
      | inl same ↦ rw same (elim (Bool-cases (i == j)) [
        | inl mine ↦ rw mine (rw first (ground arith))
        | inr other ↦ rw other (ground arith)
      ])
      | inr apart ↦ rw apart (elim (Bool-cases (i == j)) [
        | inl mine ↦ rw mine (ground arith)
        | inr other ↦ rw other rest
      ])
    ]

head-add_provides :
    (name : Text) (caps : List Text) (m : Dict (List Text)) (c : Text)
    → head (get_list (add_provides name caps m) c)
      ≡ or_later (head (get_list m c)) (if contains caps c then some name else none)
unfolding add_provides contains
head-add_provides name [] m c = elim (Option-cases (head (get_list m c))) [
  | inl e ↦ rw e refl
  | inr (p, e) ↦ rw e refl
]
head-add_provides name (cap ∷ caps) m c =
    let here = head-append_at m cap c name in
    head-add_provides name caps (append_at m cap name) c
    ∙ rw here (chain (head (get_list m c)) (cap == c) (contains caps c))
  where
    chain :
        (o : Option Text) (a b : Bool)
        → or_later (or_later o (if a then some name else none)) (if b then some name else none)
          ≡ or_later o (if a || b then some name else none)
    chain (some p) a b = refl
    chain none true b = refl
    chain none false b = refl

head-index_headers :
    (db : List Header) (idx : Index) (c : Text)
    → head (get_list (index_headers idx db).cap_to_pkg c)
      ≡ or_later (head (get_list idx.cap_to_pkg c)) (first_offer db c)
unfolding index_headers index_header
head-index_headers [] idx c = elim (Option-cases (head (get_list idx.cap_to_pkg c))) [
  | inl e ↦ rw e refl
  | inr (p, e) ↦ rw e refl
]
head-index_headers (h ∷ hs) idx c =
    let here = head-add_provides h.name (cap_set h.provides) idx.cap_to_pkg c in
    let caps = contains-cap_set h.provides c in
    head-index_headers hs (index_header idx h) c
    ∙ elim (Bool-cases (h.name == codes "gpg-pubkey")) [
      | inl key ↦ rw key refl
      | inr pkg ↦
          rw pkg
            (rw here (rw caps (chain (head (get_list idx.cap_to_pkg c)) (names_cap h.provides c))))
    ]
  where
    chain :
        (o : Option Text) (b : Bool)
        → or_later (or_later o (if b then some h.name else none)) (first_offer hs c)
          ≡ or_later o (if b then some h.name else first_offer hs c)
    chain (some p) b = refl
    chain none true = refl
    chain none false = refl

pub resolve-index :
    (db : List Header) (c : Text) → resolve_cap_to_pkg (index db) c ≡ first_offer db c
unfolding resolve_cap_to_pkg
resolve-index db c =
    same (get_list (index db).cap_to_pkg c)
    ∙ unfold index in unfold get_list in unfold get in head-index_headers db no_index c
  where
    same : (ps : List Text) → elim ps as (λ _. Option Text) [ [] ↦ none | q ∷ _ ↦ some q ] ≡ head ps
    same [] = refl
    same (q ∷ qs) = refl
