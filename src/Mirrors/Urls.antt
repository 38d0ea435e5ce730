-- ===== src/Mirrors/Urls.antt =====
-- What urpm/core/mirrorlist.py and urpm/core/server_pool.py use of `urllib.parse.urlparse`, on
-- texts without control characters.
use urpm_ng.Base.{
  Bool, Option, Text, break_at, codes, eqb, false, if◌then◌else◌, is_empty, leb, lower, none,
  rbreak_at, some, starts_with, true, ℕ, [], ◌∷◌, ◌++◌, ◌||◌, ◌≡◌, arith, ◌&&◌, is_digit,
}

pub record Url : Type 0 where
  pub scheme : Text
  pub netloc : Text
  pub path : Text

is_letter : ℕ → Bool
is_letter c = (leb b'a' c && leb c b'z') || (leb b'A' c && leb c b'Z')

-- letters, digits, `+`, `-` and `.`
scheme_chars : Text → Bool
unfolding is_letter
scheme_chars [] = true
scheme_chars (c ∷ s) =
    (is_letter c || is_digit c || eqb c b'+' || eqb c b'-' || eqb c b'.') && scheme_chars s

is_scheme : Text → Bool
unfolding is_letter scheme_chars
is_scheme [] = false
is_scheme (c ∷ s) = is_letter c && scheme_chars (c ∷ s)

-- the text before the first `c`, the whole text where it has none
unfoldable pub before : ℕ → Text → Text
before c [] = []
before c (x ∷ s) = if eqb x c then [] else x ∷ before c s

-- the network location ends at the first `/`, `?` or `#`
split_netloc : Text → Text × Text
split_netloc [] = ([], [])
split_netloc (c ∷ s) =
    if eqb c b'/' || eqb c b'?' || eqb c b'#'
    then ([], c ∷ s)
    else (c ∷ (split_netloc s).0, (split_netloc s).1)

-- parameters are cut from the last segment of a path
cut_params : Text → Text
cut_params path = elim (rbreak_at b'/' path) [
  | none ↦ before b';' path
  | some (dirs, last) ↦ dirs ++ b'/' ∷ before b';' last
]

cut_path : Text → Text
unfolding cut_params
cut_path rest = cut_params (before b'?' (before b'#' rest))

rest_url : Text → Text → Url
unfolding split_netloc cut_path
rest_url scheme rest =
    let parts = split_netloc (drop_slashes rest) in
    if starts_with rest (codes "//")
    then record { scheme = scheme; netloc = parts.0; path = cut_path parts.1 }
    else record { scheme = scheme; netloc = []; path = cut_path rest }
  where
    drop_slashes : Text → Text
    drop_slashes (_ ∷ _ ∷ s) = s
    drop_slashes _ = []

scheme_url : Text → Option (Text × Text) → Url
unfolding is_scheme rest_url
scheme_url url none = rest_url [] url
scheme_url url (some (scheme, rest)) =
    if is_scheme scheme then rest_url (lower scheme) rest else rest_url [] url

-- `urlparse(url)`
unfoldable pub urlparse : Text → Url
unfolding scheme_url
urlparse url = scheme_url url (break_at b':' url)

after_last : ℕ → Text → Text
after_last c s = elim (rbreak_at c s) [ none ↦ s | some (_, b) ↦ b ]

-- the host of a network location without user: in brackets, or up to the port
host_of : Text → Option (Text × Text) → Text
unfolding before
host_of info none = before b':' info
host_of info (some (_, bracketed)) = before b']' bracketed

-- `parsed.hostname`: without user, brackets and port, in lower case; None where it is empty
unfoldable pub hostname : Url → Option Text
unfolding after_last host_of
hostname url =
    let info = after_last b'@' url.netloc in
    let host = host_of info (break_at b'[' info) in
    if is_empty host then none else some (lower host)

scheme-rest_url : (scheme rest : Text) → (rest_url scheme rest).scheme ≡ scheme
unfolding rest_url
scheme-rest_url scheme rest = ground arith

-- The scheme of what `http://` and `https://` start.
pub scheme-http : (s : Text) → (urlparse (codes "http://" ++ s)).scheme ≡ codes "http"
unfolding urlparse scheme_url break_at is_scheme is_letter scheme_chars lower
scheme-http s = scheme-rest_url (codes "http") (codes "//" ++ s)

pub scheme-https : (s : Text) → (urlparse (codes "https://" ++ s)).scheme ≡ codes "https"
unfolding urlparse scheme_url break_at is_scheme is_letter scheme_chars lower
scheme-https s = scheme-rest_url (codes "https") (codes "//" ++ s)
