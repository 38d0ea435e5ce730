-- ===== src/Mirrors/Entries.antt =====
-- The lines of the mirror list, urpm/core/mirrorlist.py. The word characters of the pattern are
-- the ASCII ones.
use urpm_ng.Base.{
  Bool, Dict, List, Option, Text, codes, eqb, get, if◌then◌else◌, is_empty, leb, none, or_else, put,
  some, split_on, starts_with, strip, true, ℕ, [], ◌∷◌, ◌++◌, ◌||◌, ◌&&◌, not, is_digit, All, ◌≡◌,
  ◌⊎◌, refl, arith, Bool-cases, inl, inr, ap, ◌∙◌,
}
use urpm_ng.Mirrors.Urls.{urlparse, hostname, scheme-http, scheme-https}

pub record MirrorInfo : Type 0 where
  pub url : Text
  pub scheme : Text
  pub host : Text
  pub base_path : Text
  pub continent : Text
  pub country : Text
  pub city : Text

unfoldable pub is_word : ℕ → Bool
is_word c = (leb b'a' c && leb c b'z') || (leb b'A' c && leb c b'Z') || is_digit c || eqb c b'_'

-- the matches of `(\w+)=([^,]*)`: the word read last, or the key of a match and the value so far
unfoldable pub find_pairs : Text → Text → Option Text → Dict Text → Dict Text
unfolding is_word
find_pairs [] key none fields = fields
find_pairs [] key (some value) fields = put fields key value
find_pairs (c ∷ s) key none fields =
    let go = find_pairs s in
    if is_word c
    then go (key ++ c ∷ []) none fields
    else if eqb c b'=' && not (is_empty key)
    then go key (some []) fields
    else go [] none fields
find_pairs (c ∷ s) key (some value) fields =
    let go = find_pairs s in
    if eqb c b',' then go [] none (put fields key value) else go key (some (value ++ c ∷ [])) fields

-- `dict(_KV_PATTERN.findall(line))`: of a repeated key the last value counts
unfoldable pub fields_of : Text → Dict Text
unfolding find_pairs
fields_of line = find_pairs line [] none []

unfoldable pub mirror_of : Dict Text → Option MirrorInfo
mirror_of fields =
    let url = or_else (get fields (codes "url")) [] in
    let parsed = urlparse url in
    if is_empty url || not (starts_with url (codes "http://") || starts_with url (codes "https://"))
    then none
    else some (record {
      url = url;
      scheme = parsed.scheme;
      host = or_else (hostname parsed) [];
      base_path = parsed.path;
      continent = or_else (get fields (codes "continent")) [];
      country = or_else (get fields (codes "country")) (or_else (get fields (codes "zone")) []);
      city = or_else (get fields (codes "city")) [];
    })

unfoldable pub parse_mirror_line : Text → Option MirrorInfo
unfolding mirror_of
parse_mirror_line line = mirror_of (fields_of line)

unfoldable pub keep_some : Option MirrorInfo → List MirrorInfo → List MirrorInfo
keep_some none mirrors = mirrors
keep_some (some info) mirrors = info ∷ mirrors

unfoldable pub parse_mirror_lines : List Text → List MirrorInfo
unfolding keep_some
parse_mirror_lines [] = []
parse_mirror_lines (l ∷ ls) =
    let rest = parse_mirror_lines ls in
    let line = strip l in if is_empty line then rest else keep_some (parse_mirror_line line) rest

unfoldable pub parse_mirrorlist_content : Text → List MirrorInfo
unfolding parse_mirror_lines
parse_mirrorlist_content content = parse_mirror_lines (split_on b'\n' content)

-- An entry is reached over HTTP or HTTPS.
unfoldable pub IsWeb : MirrorInfo → Type 0
IsWeb m = (m.scheme ≡ codes "http") ⊎ (m.scheme ≡ codes "https")

starts_with_split : (s p : Text) → starts_with s p ≡ true → (r : Text) × (s ≡ p ++ r)
unfolding starts_with
starts_with_split s [] h = (s, refl)
starts_with_split [] (c ∷ p) h = cc
starts_with_split (d ∷ s) (c ∷ p) h =
    let tail = starts_with_split s p (ground (arith, h)) in (tail.0, ground (arith, h, tail.1))

scheme-web :
    (url : Text)
    → (starts_with url (codes "http://") || starts_with url (codes "https://")) ≡ true
    → ((urlparse url).scheme ≡ codes "http") ⊎ ((urlparse url).scheme ≡ codes "https")
scheme-web url h = elim (Bool-cases (starts_with url (codes "http://"))) [
  | inl plain ↦
      let r = starts_with_split url (codes "http://") plain in
      inl (ap (λ u. (urlparse u).scheme) r.1 ∙ scheme-http r.0)
  | inr other ↦
      let r = starts_with_split url (codes "https://") (ground (arith, h, other)) in
      inr (ap (λ u. (urlparse u).scheme) r.1 ∙ scheme-https r.0)
]

IsWeb-mirror_of : (fields : Dict Text) (m : MirrorInfo) → mirror_of fields ≡ some m → IsWeb m
unfolding mirror_of IsWeb
IsWeb-mirror_of fields m h =
    let url = or_else (get fields (codes "url")) [] in
    elim (Bool-cases (
      is_empty url
      || not (starts_with url (codes "http://") || starts_with url (codes "https://")))) [
        | inl bad ↦ ground (arith, h, bad)
        | inr good ↦ ground (arith, h, good, scheme-web url)
      ]

IsWeb-parse_mirror_line : (line : Text) (m : MirrorInfo) → parse_mirror_line line ≡ some m → IsWeb m
unfolding parse_mirror_line
IsWeb-parse_mirror_line line m h = IsWeb-mirror_of (fields_of line) m h

All-keep_some :
    (o : Option MirrorInfo) (ms : List MirrorInfo)
    → ((m : MirrorInfo) → o ≡ some m → IsWeb m)
    → All IsWeb ms
    → All IsWeb (keep_some o ms)
unfolding keep_some
All-keep_some none ms h w = w
All-keep_some (some m) ms h w = (h m refl, w)

All-parse_mirror_lines : (ls : List Text) → All IsWeb (parse_mirror_lines ls)
unfolding parse_mirror_lines
All-parse_mirror_lines [] = tt
All-parse_mirror_lines (l ∷ ls) = elim (Bool-cases (is_empty (strip l))) [
  | inl blank ↦ rw blank (All-parse_mirror_lines ls)
  | inr full ↦ rw full (
      All-keep_some (parse_mirror_line (strip l)) (parse_mirror_lines ls)
        (IsWeb-parse_mirror_line (strip l)) (All-parse_mirror_lines ls))
]

-- Every mirror that is read from a list is reached over HTTP or HTTPS.
pub All-parse_mirrorlist_content : (content : Text) → All IsWeb (parse_mirrorlist_content content)
unfolding parse_mirrorlist_content
All-parse_mirrorlist_content content = All-parse_mirror_lines (split_on b'\n' content)
