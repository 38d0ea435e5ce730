-- ===== src/Mirrors/Pool/Locations.antt =====
-- `dedup_mirror_urls` of urpm/core/server_pool.py. The pattern that a caller strips from each path
-- is an argument, as it is there.
use urpm_ng.Base.{
  Bool, List, Option, Text, any, arith, codes, eqb, false, if◌then◌else◌, is_empty, none, not, refl,
  some, strip, true, suc, ℕ, [], ◌∷◌, ◌&&◌, ◌||◌, ◌≡◌, ◌↔◌, ◌==◌, ==_iff, ◌∙◌,
}
use urpm_ng.Mirrors.Urls.{urlparse, hostname}
use urpm_ng.Mirrors.Dedup.{Key, rstrip_slash}

pub record Location : Type 0 where
  pub scheme : Text
  pub host : Option Text
  pub base_path : Text
  pub full_url : Text

-- `key`; a URL may have no host
abbrev pub Place : Type 0
Place = Option Text × Text

abbrev pub place_of : Location → Place
place_of l = (l.host, l.base_path)

same_host : Option Text → Option Text → Bool
same_host none none = true
same_host (some a) (some b) = a == b
same_host _ _ = false

pub same_place : Place → Place → Bool
unfolding same_host
same_place a b = same_host a.0 b.0 && a.1 == b.1

-- `key in existing_host_paths`
is_known : List Key → Place → Bool
unfolding same_place
is_known existing p = any (λ k. same_place (some k.0, k.1) p) existing

-- `by_host_path[key]` is set where it is new, or where the URL is an HTTPS one
pub put_location : List Location → Location → List Location
unfolding same_place
put_location [] l = l ∷ []
put_location (r ∷ rs) l =
    if same_place (place_of r) (place_of l)
    then (if l.scheme == codes "https" then l else r) ∷ rs
    else r ∷ put_location rs l

module _ (strip_pattern : Text → Text) (existing : List Key) where
  -- a URL that is not passed over
  pub location_of : Text → Option Location
  unfolding is_known
  location_of mirror_url =
      let url = strip mirror_url in
      let parsed = urlparse url in
      let place : Place = (hostname parsed, rstrip_slash (strip_pattern parsed.path)) in
      if is_empty url
      then none
      else if not (parsed.scheme == codes "http" || parsed.scheme == codes "https")
      then none
      else if is_known existing place
      then none
      else some
          (record { scheme = parsed.scheme; host = place.0; base_path = place.1; full_url = url })

  pub note_location : List Location → Option Location → List Location
  unfolding put_location
  note_location ls none = ls
  note_location ls (some l) = put_location ls l

  pub note_urls : List Location → List Text → List Location
  unfolding note_location location_of
  note_urls ls [] = ls
  note_urls ls (u ∷ us) = note_urls (note_location ls (location_of u)) us

  pub dedup_mirror_urls : List Text → List Location
  unfolding note_urls
  dedup_mirror_urls urls = note_urls [] urls

same_host_iff : (a b : Option Text) → (same_host a b ≡ true) ↔ (a ≡ b)
unfolding same_host
same_host_iff none none = ground arith
same_host_iff (some a) (some b) = ground (arith, ==_iff a b)
same_host_iff none (some b) = ground arith
same_host_iff (some a) none = ground arith

same_place_iff : (a b : Place) → (same_place a b ≡ true) ↔ (a ≡ b)
unfolding same_place
same_place_iff (a, b) (c, d) = ground (arith, same_host_iff a c, ==_iff b d)

-- how many locations are at the place
pub count_at : List Location → Place → ℕ
count_at [] p = 0
count_at (l ∷ ls) p = let n = count_at ls p in if same_place (place_of l) p then suc n else n

-- whether one that is at the place satisfies the test
is_match : (Text → Bool) → Place → Option Location → Bool
is_match ok p none = false
is_match ok p (some l) = same_place (place_of l) p && ok l.scheme

pub any_at : (Text → Bool) → List Location → Place → Bool
unfolding is_match
any_at ok [] p = false
any_at ok (l ∷ ls) p = is_match ok p (some l) || any_at ok ls p

abbrev pub any_scheme : Text → Bool
any_scheme s = true

abbrev pub https_only : Text → Bool
https_only s = s == codes "https"

count_at-put_location :
    (rs : List Location) (l : Location) (p : Place)
    → count_at (put_location rs l) p
      ≡ (if same_place (place_of l) p && eqb (count_at rs p) 0 then 1 else count_at rs p)
unfolding put_location count_at
count_at-put_location [] l p = ground arith
count_at-put_location (r ∷ rs) l p = ground (
  arith,
  count_at-put_location rs l p,
  same_place_iff (place_of r) (place_of l),
  same_place_iff (place_of r) p,
  same_place_iff (place_of l) p,
)

any_at-put_location :
    (rs : List Location) (l : Location) (p : Place)
    → any_at https_only (put_location rs l) p
      ≡ (any_at https_only rs p || is_match https_only p (some l))
unfolding put_location any_at is_match
any_at-put_location [] l p = ground arith
any_at-put_location (r ∷ rs) l p = ground (
  arith,
  any_at-put_location rs l p,
  same_place_iff (place_of r) (place_of l),
  same_place_iff (place_of r) p,
  same_place_iff (place_of l) p,
)

module _ (strip_pattern : Text → Text) (existing : List Key) where
  -- whether a URL that is not passed over is at the place and satisfies the test
  pub any_url : (Text → Bool) → List Text → Place → Bool
  any_url ok [] p = false
  any_url ok (u ∷ us) p = is_match ok p (location_of strip_pattern existing u) || any_url ok us p

  count_at-note_location :
      (ls : List Location) (o : Option Location) (p : Place)
      → count_at (note_location strip_pattern existing ls o) p
        ≡ (if is_match any_scheme p o && eqb (count_at ls p) 0 then 1 else count_at ls p)
  unfolding note_location is_match
  count_at-note_location ls none p = ground arith
  count_at-note_location ls (some l) p = ground (arith, count_at-put_location ls l p)

  any_at-note_location :
      (ls : List Location) (o : Option Location) (p : Place)
      → any_at https_only (note_location strip_pattern existing ls o) p
        ≡ (any_at https_only ls p || is_match https_only p o)
  unfolding note_location
  any_at-note_location ls none p = unfold is_match in ground arith
  any_at-note_location ls (some l) p = any_at-put_location ls l p

  count_at-note_urls :
      (ls : List Location) (us : List Text) (p : Place)
      → count_at (note_urls strip_pattern existing ls us) p
        ≡ (if any_url any_scheme us p && eqb (count_at ls p) 0 then 1 else count_at ls p)
  unfolding note_urls any_url
  count_at-note_urls ls [] p = ground arith
  count_at-note_urls ls (u ∷ us) p =
      let o = location_of strip_pattern existing u in
      ground (
        arith,
        count_at-note_urls (note_location strip_pattern existing ls o) us p,
        count_at-note_location ls o p,
      )

  any_at-note_urls :
      (ls : List Location) (us : List Text) (p : Place)
      → any_at https_only (note_urls strip_pattern existing ls us) p
        ≡ (any_at https_only ls p || any_url https_only us p)
  unfolding note_urls any_url
  any_at-note_urls ls [] p = ground arith
  any_at-note_urls ls (u ∷ us) p =
      let o = location_of strip_pattern existing u in
      ground (
        arith,
        any_at-note_urls (note_location strip_pattern existing ls o) us p,
        any_at-note_location ls o p,
      )

  -- A place has exactly one candidate if a URL that is not passed over leads there, and none
  -- otherwise; the candidate is an HTTPS one exactly if one of those URLs is.
  pub dedup_mirror_urls_lem :
      (us : List Text) (p : Place)
      → (count_at (dedup_mirror_urls strip_pattern existing us) p
          ≡ (if any_url any_scheme us p then 1 else 0))
        × (any_at https_only (dedup_mirror_urls strip_pattern existing us) p
            ≡ any_url https_only us p)
  unfolding dedup_mirror_urls
  dedup_mirror_urls_lem us p = (
    count_at-note_urls [] us p ∙ unfold count_at in ground arith,
    any_at-note_urls [] us p ∙ unfold any_at in refl,
  )
