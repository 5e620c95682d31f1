-- ===== src/Web/Security/Laws.antt =====
-- What holds of each URL that is let through.
use etoeragcb.Base.{
  ℕ, ◌≤◌, ◌<◌, ◌≡◌, ◌⊎◌, inl, inr, refl, ap, sym, ◌∙◌, Bool, true, false, not, ◌&&◌, ◌||◌, Option,
  none, some, List, [], ◌∷◌, length, ltb, leb, nat_eq, if◌then◌else◌, arith, All, Bool-cases,
  and_iff, subst,
}
use etoeragcb.Base.Text.{Text, codes, starts_with, text_eq, text_eq_iff}
use etoeragcb.Base.Result.{Result, ok, ◌>>=◌, bind-eq-ok, ok_injective, raise_if-ok}
use etoeragcb.Web.Security.{
  WebFetchError, invalid_url, invalid_scheme, ValidatedUrl, SplitUrl, UrlCalls, is_forbidden,
  has_forbidden_url_character, is_alnum, ends_label, is_label, all_labels, put_front, split_dots,
  is_given, some_or_raise, validate_name, is_port, resolved_port, or_slash, target_of, rstrip_dots,
  normalize_host, assemble, validate_split, validate_url, credentials_forbidden, port_forbidden,
}

-- Letters, digits, the hyphen and the dot.
unfoldable pub IsHostChar : ℕ → Type 0
IsHostChar c = ((97 ≤ c) × (c ≤ 122)) ⊎ (((48 ≤ c) × (c ≤ 57)) ⊎ ((c ≡ 45) ⊎ (c ≡ 46)))

-- No blank, no control character and no backslash.
unfoldable pub IsUrlChar : ℕ → Type 0
IsUrlChar c = (32 < c) × (¬ (c ≡ 127)) × (¬ (c ≡ 92))

some_or_raise-ok :
    {S T : Type 0} (e : WebFetchError) (o : Option S) (rest : S → Result WebFetchError T) {t : T}
    → (some_or_raise e o >>= rest) ≡ ok t
    → (s : S) × (o ≡ some s) × (rest s ≡ ok t)
unfolding some_or_raise
some_or_raise-ok e none rest returned = cc
some_or_raise-ok e (some s) rest returned = (s, refl, returned)

url_chars : (url : Text) → has_forbidden_url_character url ≡ false → All IsUrlChar url
unfolding has_forbidden_url_character is_forbidden IsUrlChar
url_chars [] h = tt
url_chars (c ∷ url) h =
    ((ground arith, (λ e. ground arith), λ e. ground arith), url_chars url (ground arith))

alnum_char : (c : ℕ) → is_alnum c ≡ true → IsHostChar c
unfolding is_alnum IsHostChar
alnum_char c h = ground arith

ends_chars : (s : Text) → ends_label s ≡ true → All IsHostChar s
unfolding ends_label
ends_chars [] h = tt
ends_chars (c ∷ []) h = (alnum_char c h, tt)
ends_chars (c ∷ d ∷ s) h =
    let (front, back) = (and_iff (is_alnum c || nat_eq c 45) (ends_label (d ∷ s))).0 h in
    (
      elim (Bool-cases (is_alnum c)) [
        | inl is ↦ alnum_char c is
        | inr other ↦ (unfold IsHostChar in ground arith)
      ],
      ends_chars (d ∷ s) back,
    )

labels_chars : (labels : List Text) → all_labels labels ≡ true → All (All IsHostChar) labels
unfolding all_labels is_label
labels_chars [] h = tt
labels_chars ([] ∷ labels) h = cc
labels_chars ((c ∷ s) ∷ labels) h =
    let (label, more) = (and_iff (is_label (c ∷ s)) (all_labels labels)).0 h in
    let (first, rest) = (and_iff (is_alnum c) (leb (length s) 62 && ends_label s)).0 label in
    let (short, ends) = (and_iff (leb (length s) 62) (ends_label s)).0 rest in
    ((alnum_char c first, ends_chars s ends), labels_chars labels more)

put_front-All :
    (c : ℕ) (words : List Text)
    → All (All IsHostChar) (put_front c words)
    → IsHostChar c × All (All IsHostChar) words
unfolding put_front
put_front-All c [] h = (h.0.0, tt)
put_front-All c (word ∷ words) h = (h.0.0, (h.0.1, h.1))

split_chars : (s : Text) → All (All IsHostChar) (split_dots s) → All IsHostChar s
unfolding split_dots
split_chars [] h = tt
split_chars (c ∷ s) h = go (nat_eq c 46) refl (split_chars s) h
  where
    go :
        (b : Bool)
        → nat_eq c 46 ≡ b
        → (All (All IsHostChar) (split_dots s) → All IsHostChar s)
        → All (All IsHostChar) (if b then [] ∷ split_dots s else put_front c (split_dots s))
        → All IsHostChar (c ∷ s)
    go true dot ih h = ((unfold IsHostChar in ground arith), ih h.1)
    go false other ih h = let (first, more) = put_front-All c (split_dots s) h in (first, ih more)

-- A name that is let through is short and of letters, digits, hyphens and dots.
validate_name_lem :
    (name host : Text) → validate_name name ≡ ok host → (length host ≤ 253) × All IsHostChar host
unfolding validate_name
validate_name_lem name host returned =
    let (fits, same) =
      raise_if-ok (ltb 253 (length name) || not (all_labels (split_dots name))) invalid_url
        (ok name) returned in
    let short : length name ≤ 253 = ground arith in
    let labels : all_labels (split_dots name) ≡ true = ground arith in
    subst (λ h. (length h ≤ 253) × All IsHostChar h) (ok_injective name host same)
      (short, split_chars name (labels_chars (split_dots name) labels))

target_absolute :
    (path query : Text)
    → starts_with path (codes "/") ≡ true
    → starts_with (target_of path query) (codes "/") ≡ true
unfolding starts_with target_of
target_absolute [] query h = cc
target_absolute (c ∷ path) [] h = h
target_absolute (c ∷ path) (d ∷ query) h = ground (arith, h)

module _ (calls : UrlCalls) where
  -- An address, or a short name of letters, digits, hyphens and dots.
  unfoldable pub IsHost : Text → Type 0
  IsHost host =
      ((s : Text) × (calls.ip_address s ≡ some host)) ⊎ ((length host ≤ 253) × All IsHostChar host)

  pub record IsSafe (url : Text) (allowed_ports : List ℕ) (v : ValidatedUrl) : Type 0 where
    pub parsed : SplitUrl
    pub is_parsed : calls.urlsplit url ≡ some parsed
    pub length_within : (0 < length url) × (length url ≤ 4096)
    pub url_characters : All IsUrlChar url
    pub web_scheme : (v.scheme ≡ codes "http") ⊎ (v.scheme ≡ codes "https")
    pub no_credentials : (parsed.username ≡ none) × (parsed.password ≡ none)
    pub safe_host : IsHost v.host
    pub same_port : v.port ≡ resolved_port parsed.port v.scheme
    pub allowed_port : is_port v.port allowed_ports ≡ true
    pub absolute_target : starts_with v.request_target (codes "/") ≡ true

  normalize_host-IsHost :
      (hostname host : Text) → normalize_host calls hostname ≡ ok host → IsHost host
  unfolding normalize_host IsHost
  normalize_host-IsHost hostname host = go (calls.ip_address candidate) refl
    where
      candidate : Text
      candidate = calls.lower (rstrip_dots hostname)

      go :
          (o : Option Text)
          → calls.ip_address candidate ≡ o
          → (elim o [
            | some address ↦ ok address
            | none ↦ some_or_raise invalid_url (calls.idna candidate) >>= λ name. validate_name name
          ])
            ≡ ok host
          → ((s : Text) × (calls.ip_address s ≡ some host))
            ⊎ ((length host ≤ 253) × All IsHostChar host)
      go (some address) found returned =
          inl (candidate, found ∙ ap some (ok_injective address host returned))
      go none found returned =
          let (name, encoded, valid) =
            some_or_raise-ok invalid_url (calls.idna candidate) validate_name returned in
          inr (validate_name_lem name host valid)

  assemble_lem :
      (parsed : SplitUrl) (scheme host : Text) {v : ValidatedUrl}
      → assemble calls parsed scheme host ≡ ok v
      → (v.scheme ≡ scheme)
        × (v.host ≡ host)
        × (v.port ≡ resolved_port parsed.port scheme)
        × (starts_with v.request_target (codes "/") ≡ true)
  unfolding assemble
  assemble_lem parsed scheme host {v = v} returned =
      let path = calls.quote (or_slash parsed.path) (codes "/:@!$&'()*+,;=-._~%") in
      let query = calls.quote parsed.query (codes "/?:@!$&'()*+,;=-._~%") in
      let (absolute, same) =
        raise_if-ok (not (starts_with path (codes "/"))) invalid_url _ returned in
      let e = ok_injective _ v same in
      (
        sym (ap (λ w. w.scheme) e),
        sym (ap (λ w. w.host) e),
        sym (ap (λ w. w.port) e),
        ap (λ w. starts_with w.request_target (codes "/")) (sym e)
            ∙ target_absolute path query (ground (arith, absolute)),
      )

  given_none : {A : Type 0} (o : Option A) → is_given o ≡ false → o ≡ none
  unfolding is_given
  given_none none h = refl
  given_none (some a) h = cc

  web_scheme_lem :
      (scheme : Text)
      → not (text_eq scheme (codes "http") || text_eq scheme (codes "https")) ≡ false
      → (scheme ≡ codes "http") ⊎ (scheme ≡ codes "https")
  web_scheme_lem scheme h = elim (Bool-cases (text_eq scheme (codes "http"))) [
    | inl plain ↦ inl ((text_eq_iff scheme (codes "http")).0 plain)
    | inr other ↦ inr ((text_eq_iff scheme (codes "https")).0 (ground arith))
  ]

  -- A URL that is let through has 1 to 4096 characters, none of them a blank, a control character or a
  -- backslash; its scheme is http or https, it has no credentials, its host is an address or a short name
  -- of letters, digits, hyphens and dots, its port is the one that it names or else that of its scheme and
  -- is allowed, and the target of the request starts with a slash.
  pub validate_url-IsSafe :
      (url : Text) (allowed_ports : List ℕ) (v : ValidatedUrl)
      → validate_url calls url allowed_ports ≡ ok v
      → IsSafe url allowed_ports v
  unfolding validate_url validate_split
  validate_url-IsSafe url allowed_ports v returned =
      let (fits, split) =
        raise_if-ok
          (nat_eq (length url) 0 || (ltb 4096 (length url) || has_forbidden_url_character url))
          invalid_url _ returned in
      let (parsed, is_parsed, checked) =
        some_or_raise-ok invalid_url (calls.urlsplit url) (validate_split calls allowed_ports)
          split in
      let scheme = calls.lower parsed.scheme in
      let (web, after) =
        raise_if-ok (not (text_eq scheme (codes "http") || text_eq scheme (codes "https")))
          invalid_scheme _ checked in
      let (bare, named) =
        raise_if-ok (is_given parsed.username || is_given parsed.password) credentials_forbidden _
          after in
      let (hostname, there, hosted) = some_or_raise-ok invalid_url parsed.hostname _ named in
      let (host, normal, last) = bind-eq-ok (normalize_host calls hostname) _ hosted in
      let (port, built) =
        raise_if-ok (not (is_port (resolved_port parsed.port scheme) allowed_ports)) port_forbidden
          _ last in
      let (same_scheme, same_host, same, absolute) = assemble_lem parsed scheme host built in
      record {
        parsed = parsed;
        is_parsed = is_parsed;
        length_within = (ground arith, ground arith);
        url_characters = url_chars url (ground arith);
        web_scheme = rw same_scheme (web_scheme_lem scheme web);
        no_credentials =
            (given_none parsed.username (ground arith), given_none parsed.password (ground arith));
        safe_host = rw same_host (normalize_host-IsHost hostname host normal);
        same_port = same ∙ ap (resolved_port parsed.port) (sym same_scheme);
        allowed_port = rw same (ground arith);
        absolute_target = absolute;
      }
