-- ===== src/Mirrors/Pool/Candidates.antt =====
-- `_fetch_and_filter` and `dedup_mirror_urls` of urpm/core/server_pool.py. The pattern that a
-- caller of `dedup_mirror_urls` strips from a path is an argument, as it is there.
use urpm_ng.Base.{
  Bool-cases, List, Option, Text, add, arith, codes, contains, contains-add, false, if◌then◌else◌,
  inl, inr, is_empty, none, some, [], ◌∷◌, ◌++◌, ◌≡◌, ◌||◌, map,
}
use urpm_ng.Mirrors.Entries.{MirrorInfo}
use urpm_ng.Mirrors.Dedup.{Key, dedup_mirrors, strip_suffix, rstrip_slash}

pub record Candidate : Type 0 where
  pub scheme : Text
  pub host : Text
  pub base_path : Text
  pub full_url : Text
  pub country : Option Text

-- `m.country or None`
unfoldable pub known_country : Text → Option Text
known_country c = if is_empty c then none else some c

unfoldable pub candidate_of : Text → MirrorInfo → Candidate
unfolding known_country
candidate_of suffix m = record {
  scheme = m.scheme;
  host = m.host;
  base_path = strip_suffix suffix m.base_path;
  full_url = rstrip_slash m.url ++ codes "/media/core/release/";
  country = known_country m.country;
}

-- the loop over the mirrors; `hosts` are the known ones and `seen` those taken in this loop
unfoldable pub take_candidates : Text → List Text → List Text → List MirrorInfo → List Candidate
unfolding candidate_of
take_candidates suffix hosts seen [] = []
take_candidates suffix hosts seen (m ∷ ms) =
    let rest = λ (taken : List Text). take_candidates suffix hosts taken ms in
    if contains hosts m.host || contains seen m.host
    then rest seen
    else candidate_of suffix m ∷ rest (add seen m.host)

unfoldable pub suffix_of : Text → Text → Text
suffix_of version arch = b'/' ∷ (version ++ b'/' ∷ arch)

-- `none` is a failure to fetch the mirrors; an empty list has no candidates either
unfoldable pub fetch_and_filter : Text → Text → List Key → Option (List MirrorInfo) → List Candidate
unfolding take_candidates suffix_of
fetch_and_filter version arch existing none = []
fetch_and_filter version arch existing (some mirrors) =
    let suffix = suffix_of version arch in
    take_candidates suffix (map (λ k. k.0) existing) [] (dedup_mirrors suffix mirrors)

-- the hosts of the candidates are distinct, and none of them is in the list
unfoldable pub AreFresh : List Text → List Candidate → Type 0
AreFresh hosts [] = Unit
AreFresh hosts (c ∷ cs) = (contains hosts c.host ≡ false) × AreFresh (c.host ∷ hosts) cs

AreFresh-cons :
    (known : List Text) (c : Candidate) (cs : List Candidate)
    → contains known c.host ≡ false
    → AreFresh (c.host ∷ known) cs
    → AreFresh known (c ∷ cs)
unfolding AreFresh
AreFresh-cons known c cs new rest = (new, rest)

take_candidates-fresh :
    (suffix : Text) (hosts seen known : List Text) (ms : List MirrorInfo)
    → ((h : Text) → contains known h ≡ (contains hosts h || contains seen h))
    → AreFresh known (take_candidates suffix hosts seen ms)
unfolding take_candidates candidate_of
take_candidates-fresh suffix hosts seen known [] same = unfold AreFresh in tt
take_candidates-fresh suffix hosts seen known (m ∷ ms) same =
    elim (Bool-cases (contains hosts m.host || contains seen m.host)) [
      | inl old ↦ rw old (take_candidates-fresh suffix hosts seen known ms same)
      | inr new ↦ rw new (
          AreFresh-cons known (candidate_of suffix m)
            (take_candidates suffix hosts (add seen m.host) ms) (ground (arith, same m.host, new))
            (take_candidates-fresh suffix hosts (add seen m.host) (m.host ∷ known) ms
              (λ h. unfold contains in ground (arith, same h, contains-add seen m.host h))))
    ]

-- The candidates stand on distinct hosts, and on none that has a server already.
pub fetch_and_filter_lem :
    (version arch : Text) (existing : List Key) (fetched : Option (List MirrorInfo))
    → AreFresh (map (λ k. k.0) existing) (fetch_and_filter version arch existing fetched)
unfolding fetch_and_filter
fetch_and_filter_lem version arch existing none = unfold AreFresh in tt
fetch_and_filter_lem version arch existing (some mirrors) =
    take_candidates-fresh (suffix_of version arch) (map (λ k. k.0) existing) []
      (map (λ k. k.0) existing) (dedup_mirrors (suffix_of version arch) mirrors)
      (λ h. unfold contains in ground arith)
