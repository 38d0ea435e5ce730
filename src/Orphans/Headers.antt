-- ===== src/Orphans/Headers.antt =====
-- What the headers of the rpm database say, read without the tables that
-- urpm/core/resolution/orphans.py builds from them.
use urpm_ng.Base.{
  get-put, get, Bool, Dict, List, Option, none, some, Text, append_at, codes, contains, get_list,
  if◌then◌else◌, keys, put, Bool-cases, Option-cases, inl, inr, select, [], ◌∷◌, ◌==◌, any, ◌&&◌,
  ◌||◌, not, ◌≡◌, arith, contains-append_at, ==_iff, refl, true, false, starts_with, unique,
}
use urpm_ng.Orphans.Rpmdb.{Header, add_provides, is_package_cap}

-- public keys are in the database too
abbrev pub is_installed : Header → Bool
is_installed h = not (h.name == codes "gpg-pubkey")

-- a package of that name is installed
abbrev pub has_package : List Header → Text → Bool
has_package db n = any (λ (h : Header). is_installed h && h.name == n) db

-- a package named `x` provides `c`
abbrev pub has_provider : List Header → Text → Text → Bool
has_provider db c x =
    any (λ (h : Header). is_installed h && (h.name == x && contains h.provides c)) db

-- a package of the name, or else what there was
abbrev pub last_or : Header → Text → Option Header → Option Header
last_or h n (some later) = some later
last_or h n none = if is_installed h && h.name == n then some h else none

-- the last package of a name
abbrev pub last_of : List Header → Text → Option Header
last_of [] n = none
last_of (h ∷ hs) n = last_or h n (last_of hs n)

-- a requirement on a package: neither on rpmlib nor on a file
abbrev pub is_on_package : Text → Bool
is_on_package r = not (starts_with r (codes "rpmlib(") || starts_with r (codes "/"))

-- `x` provides one of the capabilities
abbrev pub gives_any : List Header → List Text → Text → Bool
gives_any db caps x = any (λ c. has_provider db c x) caps

-- the requirements on packages among some capabilities are given by `x`
abbrev pub gives_package : List Header → List Text → Text → Bool
gives_package db caps x = any (λ c. is_on_package c && has_provider db c x) caps

pub contains-add_provides :
    (name : Text) (caps : List Text) (m : Dict (List Text)) (c x : Text)
    → contains (get_list (add_provides name caps m) c) x
      ≡ (contains (get_list m c) x || (contains caps c && name == x))
unfolding add_provides contains
contains-add_provides name [] m c x = ground arith
contains-add_provides name (cap ∷ caps) m c x =
    rw (contains-add_provides name caps (append_at m cap name) c x)
      (ground (arith, contains-append_at m cap c name x))

pub any-ext {ℓ} :
    {A : Type ℓ} (p q : A → Bool) (xs : List A) → ((x : A) → p x ≡ q x) → any p xs ≡ any q xs
any-ext p q [] h = refl
any-ext p q (x ∷ xs) h = ground (arith, h x, any-ext p q xs h)

-- the selected requirements are those on packages
pub any-package_caps :
    (p : Text → Bool) (caps : List Text)
    → any p (select is_package_cap caps) ≡ any (λ c. is_on_package c && p c) caps
unfolding is_package_cap
any-package_caps p [] = refl
any-package_caps p (c ∷ caps) = let rest = any-package_caps p caps in ground arith

module _ {ℓ} {V : Type ℓ} where
  pub contains-keys-put :
      (d : Dict V) (k x : Text) (v : V)
      → contains (keys (put d k v)) x ≡ (contains (keys d) x || k == x)
  unfolding put contains
  contains-keys-put [] k x v = ground arith
  contains-keys-put ((j, w) ∷ d) k x v = ground (arith, contains-keys-put d k x v, ==_iff j k)

  pub unique-keys-put :
      (d : Dict V) (k : Text) (v : V) → unique (keys d) ≡ true → unique (keys (put d k v)) ≡ true
  unfolding put contains
  unique-keys-put [] k v u = refl
  unique-keys-put ((j, w) ∷ d) k v u = elim (Bool-cases (j == k)) [
    | inl same ↦ rw same u
    | inr other ↦
        rw other
          (ground (arith, contains-keys-put d k j v, ==_iff k j, ==_iff j k, unique-keys-put d k v))
  ]

  pub get-absent : (d : Dict V) (k : Text) → contains (keys d) k ≡ false → get d k ≡ none
  unfolding get contains
  get-absent [] k h = refl
  get-absent ((j, w) ∷ d) k h = ground (arith, get-absent d k)

-- the table of installed packages after some headers
unfoldable pub installed_after : Dict Header → List Header → Dict Header
installed_after d [] = d
installed_after d (h ∷ hs) = installed_after (if is_installed h then put d h.name h else d) hs

abbrev pub or_before : Option Header → Option Header → Option Header
or_before none old = old
or_before (some h) old = some h

pub get-installed_after :
    (hs : List Header) (d : Dict Header) (n : Text)
    → get (installed_after d hs) n ≡ or_before (last_of hs n) (get d n)
unfolding installed_after
get-installed_after [] d n = refl
get-installed_after (h ∷ hs) d n =
    let rest = get-installed_after hs (if is_installed h then put d h.name h else d) n in
    let here = get-put d h.name n h in
    rw rest (elim (Option-cases (last_of hs n)) [
      | inl none' ↦ ground arith
      | inr (later, e) ↦ ground arith
    ])

pub keys-installed_after :
    (hs : List Header) (d : Dict Header) (n : Text)
    → contains (keys (installed_after d hs)) n ≡ (contains (keys d) n || has_package hs n)
unfolding installed_after
keys-installed_after [] d n = ground arith
keys-installed_after (h ∷ hs) d n =
    let rest = keys-installed_after hs (if is_installed h then put d h.name h else d) n in
    let here = contains-keys-put d h.name n h in rw rest (ground arith)

pub unique-installed_after :
    (hs : List Header) (d : Dict Header)
    → unique (keys d) ≡ true
    → unique (keys (installed_after d hs)) ≡ true
unfolding installed_after
unique-installed_after [] d u = u
unique-installed_after (h ∷ hs) d u =
    let here = unique-keys-put d h.name h u in
    unique-installed_after hs (if is_installed h then put d h.name h else d) (ground arith)
