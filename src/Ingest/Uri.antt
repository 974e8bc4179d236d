-- ===== src/Ingest/Uri.antt =====
-- `buildURI` of subscription/subscription.go: `url.URL{Scheme: "at", Host: repo, Path: path}.String()`
-- with the percent encoding of Go's package `net/url`.
use baldsky.Common.{
  Text, [], ◌∷◌, ◌++◌, Bool, false, not, ◌||◌, ◌&&◌, is_empty, if◌then◌else◌, codes, ℕ, leb, ◌==◌,
  any,
}
use baldsky.Common.Utf8.{to_bytes, escape}

abbrev pub is_alphanumeric : ℕ → Bool
is_alphanumeric c =
    (leb b'a' c && leb c b'z') || (leb b'A' c && leb c b'Z') || (leb b'0' c && leb c b'9')

abbrev pub one_of : Text → ℕ → Bool
one_of chars c = any (λ d. c == d) chars

-- The characters that stand for themselves in a host and in a path.
plain_in_host : ℕ → Bool
plain_in_host c =
    is_alphanumeric c || one_of (codes "!$&'()*+,;=:[]<>\"") c || one_of (codes "-_.~") c

plain_in_path : ℕ → Bool
plain_in_path c = is_alphanumeric c || one_of (codes "-_.~") c || one_of (codes "$&+,/:;=@") c

abbrev starts_with_slash : Text → Bool
starts_with_slash [] = false
starts_with_slash (c ∷ s) = c == b'/'

unfoldable pub build_uri : Text → Text → Text
unfolding plain_in_host plain_in_path
build_uri repo path =
    let escaped = escape plain_in_path (to_bytes path) in
    let slash =
      if (not (is_empty escaped) && not (starts_with_slash escaped)) && not (is_empty repo)
      then codes "/"
      else [] in
    let authority = if not (is_empty repo) || not (is_empty path) then codes "//" else [] in
    codes "at:" ++ (authority ++ (escape plain_in_host (to_bytes repo) ++ (slash ++ escaped)))
