-- ===== src/Mirrors/Dedup.antt =====
-- `dedup_mirrors` of urpm/core/mirrorlist.py: one entry for each host and path, HTTPS preferred.
-- `seen` maps a key to the position of its entry in `result`.
pub mod Correct
use urpm_ng.Base.{
  Bool, Bool-cases, List, Option, Text, arith, codes, false, if◌then◌else◌, inl, inr, is_empty,
  length, none, not, refl, some, true, zero, suc, ℕ, [], ◌∷◌, ◌++◌, ◌&&◌, ◌||◌, ◌≡◌, any, ◌==◌,
  ==_iff, ==_refl, ends_with, eqb, ◌-◌, All, ap, ◌∙◌, ◌+◌, length-append, ◌⊎◌, Option-cases,
}
use urpm_ng.Mirrors.Entries.{MirrorInfo}

-- `path.rstrip("/")`
unfoldable pub rstrip_slash : Text → Text
rstrip_slash [] = []
rstrip_slash (c ∷ s) =
    let rest = rstrip_slash s in if is_empty rest && eqb c b'/' then [] else c ∷ rest

unfoldable pub keep_first : ℕ → Text → Text
keep_first zero s = []
keep_first (suc n) [] = []
keep_first (suc n) (c ∷ s) = c ∷ keep_first n s

-- `path` without the suffix, and without slashes at its end
unfoldable pub strip_suffix : Text → Text → Text
strip_suffix suffix path = rstrip_slash (
    if not (is_empty suffix) && ends_with path suffix
    then keep_first (length path - length suffix) path
    else path)

abbrev pub Key : Type 0
Key = Text × Text

unfoldable pub same_key : Key → Key → Bool
same_key a b = a.0 == b.0 && a.1 == b.1

unfoldable pub key_of : Text → MirrorInfo → Key
key_of suffix m = (m.host, strip_suffix suffix m.base_path)

unfoldable pub position : List (Key × ℕ) → Key → Option ℕ
position [] k = none
position ((j, i) ∷ seen) k = if same_key j k then some i else position seen k

unfoldable pub is_upgrade : MirrorInfo → MirrorInfo → Bool
is_upgrade old new = old.scheme == codes "http" && new.scheme == codes "https"

-- `if result[idx].scheme == "http" and m.scheme == "https": result[idx] = m`
unfoldable pub upgrade : List MirrorInfo → ℕ → MirrorInfo → List MirrorInfo
upgrade [] i m = []
upgrade (r ∷ rs) zero m = if is_upgrade r m then m ∷ rs else r ∷ rs
upgrade (r ∷ rs) (suc i) m = r ∷ upgrade rs i m

pub record Seen : Type 0 where
  pub seen : List (Key × ℕ)
  pub result : List MirrorInfo

unfoldable pub enter : Text → Seen → MirrorInfo → Option ℕ → Seen
unfolding upgrade key_of
enter suffix s m (some i) = record s { result = upgrade s.result i m }
enter suffix s m none = record {
  seen = (key_of suffix m, length s.result) ∷ s.seen;
  result = s.result ++ m ∷ [];
}

unfoldable pub enter_all : Text → Seen → List MirrorInfo → Seen
unfolding enter position
enter_all suffix s [] = s
enter_all suffix s (m ∷ ms) =
    enter_all suffix (enter suffix s m (position s.seen (key_of suffix m))) ms

unfoldable pub dedup_mirrors : Text → List MirrorInfo → List MirrorInfo
unfolding enter_all
dedup_mirrors suffix mirrors = (enter_all suffix (record { seen = []; result = [] }) mirrors).result
