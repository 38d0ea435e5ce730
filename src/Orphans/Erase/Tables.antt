-- ===== src/Orphans/Erase/Tables.antt =====
-- The tables that `find_erase_orphans` builds from the headers (urpm/core/resolution/orphans.py).
use urpm_ng.Base.{
  get-put, Bool, Dict, List, none, some, Text, append_at, codes, contains, contains-append_at, get,
  get_list, keys, lower, put, [], ◌∷◌, ◌==◌, ◌≡◌, ◌||◌, ◌&&◌, arith, ==_iff, true, false, any, refl,
  Bool-cases, inl, inr, ==_refl, lower_apart,
}
use urpm_ng.Orphans.Rpmdb.{Header, add_provides}
use urpm_ng.Orphans.Erase.{Index, index, index_header, index_headers, mentions, no_index, cap_set}

pub contains-add_provides :
    (name : Text) (caps : List Text) (m : Dict (List Text)) (c x : Text)
    → contains (get_list (add_provides name caps m) c) x
      ≡ (contains (get_list m c) x || (contains caps c && name == x))
unfolding add_provides contains
contains-add_provides name [] m c x = ground arith
contains-add_provides name (cap ∷ caps) m c x =
    rw (contains-add_provides name caps (append_at m cap name) c x)
      (ground (arith, contains-append_at m cap c name x))

-- `x` is an entry of the headers whose tag has `c`
abbrev pub has_tag : (Header → List Text) → Dict Header → Text → Text → Bool
has_tag tag headers c x = any (λ (e : Text × Header). contains (tag e.1) c && e.0 == x) headers

contains-mentions_from :
    (tag : Header → List Text) (headers : Dict Header) (m : Dict (List Text)) (c x : Text)
    → contains (get_list (mentions tag headers m) c) x
      ≡ (contains (get_list m c) x || has_tag tag headers c x)
unfolding mentions
contains-mentions_from tag [] m c x = ground arith
contains-mentions_from tag ((name, h) ∷ headers) m c x =
    rw (contains-mentions_from tag headers (add_provides name (tag h) m) c x)
      (ground (arith, contains-add_provides name (tag h) m c x))

pub contains-mentions :
    (tag : Header → List Text) (headers : Dict Header) (c x : Text)
    → contains (get_list (mentions tag headers []) c) x ≡ has_tag tag headers c x
contains-mentions tag headers c x =
    rw (contains-mentions_from tag headers [] c x) (unfold get_list get contains in refl)

pub has_tag-keys :
    (tag : Header → List Text) (headers : Dict Header) (c x : Text)
    → has_tag tag headers c x ≡ true
    → contains (keys headers) x ≡ true
unfolding contains
has_tag-keys tag [] c x h = cc
has_tag-keys tag ((name, e) ∷ headers) c x h = ground (arith, has_tag-keys tag headers c x)

pub contains-keys-put :
    (d : Dict Header) (k x : Text) (v : Header)
    → contains (keys (put d k v)) x ≡ (contains (keys d) x || k == x)
unfolding put contains
contains-keys-put [] k x v = ground arith
contains-keys-put ((j, w) ∷ d) k x v = ground (arith, contains-keys-put d k x v, ==_iff j k)

pub get-keys :
    (d : Dict Header) (k : Text) → contains (keys d) k ≡ true → (h : Header) × (get d k ≡ some h)
unfolding get contains
get-keys [] k h = cc
get-keys ((j, w) ∷ d) k h = elim (Bool-cases (j == k)) [
  | inl e ↦ (w, rw e refl)
  | inr ne ↦
      let r : (h : Header) × (get d k ≡ some h) = get-keys d k (ground arith) in (r.0, rw ne r.1)
]

pub get-some-keys :
    (d : Dict Header) (k : Text) (h : Header) → get d k ≡ some h → contains (keys d) k ≡ true
unfolding get contains
get-some-keys [] k h e = cc
get-some-keys ((j, w) ∷ d) k h e = ground (arith, get-some-keys d k h)

pub get-none-keys : (d : Dict Header) (k : Text) → get d k ≡ none → contains (keys d) k ≡ false
unfolding get contains
get-none-keys [] k e = refl
get-none-keys ((j, w) ∷ d) k e = ground (arith, get-none-keys d k)

-- what the index of a database satisfies
pub record IsIndex (idx : Index) : Type 0 where
  pub provider_known :
      (c p : Text)
      → contains (get_list idx.cap_to_pkg c) p ≡ true
      → contains (keys idx.headers) p ≡ true
  pub original_known :
      (l name : Text)
      → get idx.name_to_original l ≡ some name
      → (contains (keys idx.headers) name ≡ true) × (lower name ≡ l)
  pub key_named : (name : Text) (h : Header) → get idx.headers name ≡ some h → h.name ≡ name
  pub name_known :
      (name : Text)
      → contains (keys idx.headers) name ≡ true
      → (orig : Text) × (get idx.name_to_original (lower name) ≡ some orig)

no_index-IsIndex : IsIndex no_index
unfolding get get_list contains
no_index-IsIndex = record {
  provider_known = λ c p h. cc;
  original_known = λ l n h. cc;
  key_named = λ n h e. cc;
  name_known = λ n h. cc;
}

index_header-IsIndex : (idx : Index) (hdr : Header) → IsIndex idx → IsIndex (index_header idx hdr)
unfolding index_header
index_header-IsIndex idx hdr ok = elim (Bool-cases (hdr.name == codes "gpg-pubkey")) [
  | inl e ↦ rw e ok
  | inr ne ↦ rw ne (record {
    provider_known = λ c p h. ground (
      arith,
      contains-add_provides hdr.name (cap_set hdr.provides) idx.cap_to_pkg c p,
      contains-keys-put idx.headers hdr.name p hdr,
      ok.provider_known c p,
      ==_iff hdr.name p,
    );
    original_known = λ l n h. ground (
      arith,
      get-put idx.name_to_original (lower hdr.name) l hdr.name,
      contains-keys-put idx.headers hdr.name n hdr,
      ok.original_known l n,
      ==_iff (lower hdr.name) l,
      ==_refl hdr.name,
    );
    key_named = λ n h e.
        ground (arith, get-put idx.headers hdr.name n hdr, ok.key_named n h, ==_iff hdr.name n);
    name_known = λ n h. elim (Bool-cases (lower hdr.name == lower n)) [
      | inl e ↦
          (hdr.name, rw (get-put idx.name_to_original (lower hdr.name) (lower n) hdr.name, e) refl)
      | inr d ↦
          let r : (orig : Text) × (get idx.name_to_original (lower n) ≡ some orig) =
            ok.name_known n (
              ground
                (arith, contains-keys-put idx.headers hdr.name n hdr, lower_apart hdr.name n d)) in
          (r.0, rw (get-put idx.name_to_original (lower hdr.name) (lower n) hdr.name, d) r.1)
    ];
  })
]

index_headers-IsIndex :
    (db : List Header) (idx : Index) → IsIndex idx → IsIndex (index_headers idx db)
unfolding index_headers
index_headers-IsIndex [] idx ok = ok
index_headers-IsIndex (hdr ∷ hdrs) idx ok =
    index_headers-IsIndex hdrs (index_header idx hdr) (index_header-IsIndex idx hdr ok)

pub index-IsIndex : (db : List Header) → IsIndex (index db)
unfolding index
index-IsIndex db = index_headers-IsIndex db no_index no_index-IsIndex
