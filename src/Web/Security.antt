-- ===== src/Web/Security.antt =====
-- backend/app/web/security.py: which URLs and addresses may be fetched. The parser of URLs, `ipaddress`,
-- `quote` and the codec of IDNA are parameters; of an error its code is kept.
pub mod Laws
mod Tests
use etoeragcb.Base.{
  ℕ, Bool, true, false, not, ◌&&◌, ◌||◌, Option, none, some, List, [], ◌∷◌, ◌++◌, reverse, length,
  ltb, leb, nat_eq, if◌then◌else◌,
}
use etoeragcb.Base.Text.{Text, codes, decimal, text_eq, starts_with}
use etoeragcb.Base.Result.{Result, ok, raise, ◌>>=◌, ◌>>◌, raise_if}

pub data WebFetchError : Type 0 where
  invalid_url invalid_scheme credentials_forbidden port_forbidden dns_failure forbidden_address :
      WebFetchError

pub record ValidatedUrl : Type 0 where
  pub canonical_url : Text
  pub scheme : Text
  pub host : Text
  pub port : ℕ
  pub request_target : Text
  pub host_header : Text

-- What `urlsplit` gives, and the port that it reads.
pub record SplitUrl : Type 0 where
  pub scheme : Text
  pub username : Option Text
  pub password : Option Text
  pub hostname : Option Text
  pub port : Option ℕ
  pub path : Text
  pub query : Text

-- `urlsplit` and `.port`, which may raise a `ValueError`; `str.lower`; `quote` of a text and the safe
-- characters; `urlunsplit` without a fragment; `ip_address(s).compressed`; and the codec of IDNA.
pub record UrlCalls : Type 0 where
  pub urlsplit : Text → Option SplitUrl
  pub lower : Text → Text
  pub quote : Text → Text → Text
  pub urlunsplit : Text → Text → Text → Text → Text
  pub ip_address : Text → Option Text
  pub idna : Text → Option Text

unfoldable pub is_forbidden : ℕ → Bool
is_forbidden c = nat_eq c 92 || (ltb c 33 || nat_eq c 127)

-- `_has_forbidden_url_character`.
unfoldable pub has_forbidden_url_character : Text → Bool
unfolding is_forbidden
has_forbidden_url_character [] = false
has_forbidden_url_character (c ∷ url) = is_forbidden c || has_forbidden_url_character url

-- `_HOST_LABEL`: the class `[a-z0-9]`, what follows the first character, and the whole.
unfoldable pub is_alnum : ℕ → Bool
is_alnum c = (leb 97 c && leb c 122) || (leb 48 c && leb c 57)

unfoldable pub ends_label : Text → Bool
unfolding is_alnum
ends_label [] = true
ends_label (c ∷ []) = is_alnum c
ends_label (c ∷ d ∷ s) = (is_alnum c || nat_eq c 45) && ends_label (d ∷ s)

unfoldable pub is_label : Text → Bool
unfolding ends_label is_alnum
is_label [] = false
is_label (c ∷ s) = is_alnum c && (leb (length s) 62 && ends_label s)

unfoldable pub all_labels : List Text → Bool
unfolding is_label
all_labels [] = true
all_labels (label ∷ labels) = is_label label && all_labels labels

unfoldable pub put_front : ℕ → List Text → List Text
put_front c [] = (c ∷ []) ∷ []
put_front c (word ∷ words) = (c ∷ word) ∷ words

-- `candidate.split(".")`.
unfoldable pub split_dots : Text → List Text
unfolding put_front
split_dots [] = [] ∷ []
split_dots (c ∷ s) = let rest = split_dots s in if nat_eq c 46 then [] ∷ rest else put_front c rest

lstrip_dots : Text → Text
lstrip_dots [] = []
lstrip_dots (c ∷ s) = let rest = lstrip_dots s in if nat_eq c 46 then rest else c ∷ s

-- `host.rstrip(".")`.
unfoldable pub rstrip_dots : Text → Text
unfolding lstrip_dots
rstrip_dots s = reverse (lstrip_dots (reverse s))

-- `x is not None`.
unfoldable pub is_given : {A : Type 0} → Option A → Bool
is_given none = false
is_given (some a) = true

-- A value that is there, or the error.
unfoldable pub some_or_raise : {A : Type 0} → WebFetchError → Option A → Result WebFetchError A
some_or_raise e none = raise e
some_or_raise e (some a) = ok a

-- The host that is not an address.
unfoldable pub validate_name : Text → Result WebFetchError Text
unfolding all_labels split_dots
validate_name name =
    raise_if (ltb 253 (length name) || not (all_labels (split_dots name))) invalid_url >> ok name

unfoldable pub is_port : ℕ → List ℕ → Bool
is_port port [] = false
is_port port (p ∷ ports) = nat_eq port p || is_port port ports

-- `443 if scheme == "https" else 80`.
unfoldable pub default_port : Text → ℕ
unfolding text_eq
default_port scheme = if text_eq scheme (codes "https") then 443 else 80

unfoldable pub resolved_port : Option ℕ → Text → ℕ
unfolding default_port
resolved_port none scheme = default_port scheme
resolved_port (some port) scheme = port

unfoldable pub or_slash : Text → Text
or_slash [] = codes "/"
or_slash (c ∷ path) = c ∷ path

unfoldable pub has_colon : Text → Bool
has_colon [] = false
has_colon (c ∷ s) = nat_eq c 58 || has_colon s

unfoldable pub authority_of : Text → ℕ → Text → Text
unfolding default_port has_colon
authority_of host port scheme =
    let bracketed = if has_colon host then codes "[" ++ (host ++ codes "]") else host in
    if nat_eq port (default_port scheme)
    then bracketed
    else bracketed ++ (codes ":" ++ decimal port)

unfoldable pub target_of : Text → Text → Text
target_of path [] = path
target_of path (c ∷ query) = path ++ (codes "?" ++ c ∷ query)

module _ (calls : UrlCalls) where
  -- `_normalize_host`.
  unfoldable pub normalize_host : Text → Result WebFetchError Text
  unfolding validate_name some_or_raise rstrip_dots
  normalize_host host =
      let candidate = calls.lower (rstrip_dots host) in
      elim (calls.ip_address candidate) [
        | some address ↦ ok address
        | none ↦ some_or_raise invalid_url (calls.idna candidate) >>= λ name. validate_name name
      ]

  -- What is returned once host and port are settled.
  unfoldable pub assemble : SplitUrl → Text → Text → Result WebFetchError ValidatedUrl
  unfolding resolved_port or_slash authority_of target_of starts_with
  assemble parsed scheme host =
      let port = resolved_port parsed.port scheme in
      let path = calls.quote (or_slash parsed.path) (codes "/:@!$&'()*+,;=-._~%") in
      let query = calls.quote parsed.query (codes "/?:@!$&'()*+,;=-._~%") in
      raise_if (not (starts_with path (codes "/"))) invalid_url
      >> ok record {
        canonical_url = calls.urlunsplit scheme (authority_of host port scheme) path query;
        scheme = scheme;
        host = host;
        port = port;
        request_target = target_of path query;
        host_header = authority_of host port scheme;
      }

  unfoldable pub validate_split : List ℕ → SplitUrl → Result WebFetchError ValidatedUrl
  unfolding normalize_host assemble text_eq is_port resolved_port some_or_raise is_given
  validate_split allowed_ports parsed =
      let scheme = calls.lower parsed.scheme in
      raise_if (not (text_eq scheme (codes "http") || text_eq scheme (codes "https")))
        invalid_scheme
      >> (raise_if (is_given parsed.username || is_given parsed.password) credentials_forbidden
          >> (some_or_raise invalid_url parsed.hostname >>= λ hostname.
              normalize_host hostname >>= λ host.
              raise_if (not (is_port (resolved_port parsed.port scheme) allowed_ports))
                port_forbidden
              >> assemble parsed scheme host))

  unfoldable pub validate_url : Text → List ℕ → Result WebFetchError ValidatedUrl
  unfolding has_forbidden_url_character validate_split some_or_raise
  validate_url url allowed_ports =
      raise_if (nat_eq (length url) 0 || (ltb 4096 (length url) || has_forbidden_url_character url))
        invalid_url
      >> (some_or_raise invalid_url (calls.urlsplit url) >>= λ parsed.
          validate_split allowed_ports parsed)
