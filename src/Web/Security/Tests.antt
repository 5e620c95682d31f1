-- ===== src/Web/Security/Tests.antt =====
-- URLs at concrete inputs.
use etoeragcb.Base.{◌≡◌, refl, none, some, [], ◌∷◌, ◌++◌, if◌then◌else◌}
use etoeragcb.Base.Text.{Text, codes, text_eq, starts_with}
use etoeragcb.Base.Result.{ok, raise}
use etoeragcb.Web.Security.{
  ValidatedUrl, SplitUrl, UrlCalls, port_forbidden, invalid_url, validate_url,
}
use etoeragcb.Web.Security.Laws.{IsSafe, validate_url-IsSafe}

abbrev address : Text
address = codes "http://a-1.org./b?c"

abbrev parts : SplitUrl
parts = record {
  scheme = codes "http";
  username = none;
  password = none;
  hostname = some (codes "a-1.org.");
  port = none;
  path = codes "/b";
  query = codes "c";
}

-- A parser that knows this address; its texts are in lower case and need no quoting.
abbrev calls : UrlCalls
calls = record {
  urlsplit = λ url. if text_eq url address then some parts else none;
  lower = λ s. s;
  quote = λ s safe. s;
  urlunsplit = λ scheme authority path query.
      scheme ++ (codes "://" ++ (authority ++ (path ++ (codes "?" ++ query))));
  ip_address = λ s. none;
  idna = λ s. some s;
}

abbrev validated : ValidatedUrl
validated = record {
  canonical_url = codes "http://a-1.org/b?c";
  scheme = codes "http";
  host = codes "a-1.org";
  port = 80;
  request_target = codes "/b?c";
  host_header = codes "a-1.org";
}

let_through : validate_url calls address (80 ∷ 443 ∷ []) ≡ ok validated
unfolding validate_url text_eq starts_with
let_through = refl

port_refused : validate_url calls address (443 ∷ []) ≡ raise port_forbidden
unfolding validate_url text_eq starts_with
port_refused = refl

blank_refused : validate_url calls (codes "http://a b") (80 ∷ []) ≡ raise invalid_url
unfolding validate_url
blank_refused = refl

validate_url-IsSafe_example : IsSafe calls address (80 ∷ 443 ∷ []) validated
validate_url-IsSafe_example =
    validate_url-IsSafe calls address (80 ∷ 443 ∷ []) validated let_through
