-- ===== src/Auth/Login/Tests.antt =====
-- Logins at concrete inputs.
use etoeragcb.Base.{ℕ, true, false, ◌≡◌, refl, none, some, [], ◌∷◌, text_keys}
use etoeragcb.Base.Text.{codes, text_eq}
use etoeragcb.Base.Sort.{sort_by}
use etoeragcb.Base.Table.{select_where, get_row}
use etoeragcb.Base.Result.{ok, raise}
use etoeragcb.Auth.Tokens.{
  User, UserTenant, Database, Security, Draws, authentication_denied, bundle_of, is_set,
}
use etoeragcb.Auth.Login.{Passwords, login}
use etoeragcb.Auth.Login.Laws.{IsOutcome, login-IsOutcome}

abbrev plain : Security
plain = record {
  hash_refresh_token = λ t. t;
  issue_access_token = λ user tenant role version now jti. codes "jwt";
  access_ttl = 900;
  refresh_ttl = 3600;
}

abbrev passwords : Passwords
passwords = record {
  normalize_email = λ t. t;
  verify_password = λ o p. elim o [ none ↦ false | some h ↦ text_eq h p ];
  password_needs_rehash = λ h. false;
  hash_password = λ salt p. p;
}

abbrev ann : User
ann = record {
  id = 1;
  email = codes "ann";
  password_hash = codes "secret";
  is_active = true;
  auth_version = 1;
  failed_login_count = 2;
  last_failed_login_at = none;
  disabled_at = none;
}

abbrev of_tenant : ℕ → UserTenant
of_tenant tenant_id = record { user_id = 1; tenant_id = tenant_id; role = codes "member" }

abbrev db : Database
db = record {
  tenants = record { id = 6; created_at = 4 } ∷ record { id = 5; created_at = 0 } ∷ [];
  users = ann ∷ [];
  user_tenants = of_tenant 6 ∷ of_tenant 5 ∷ [];
  tokens = [];
}

abbrev draws : Draws
draws = record { raw_token = codes "r1"; token_id = 101; new_family = 9; jti = 1 }

-- Without a tenant asked for, the oldest one is chosen.
oldest_tenant :
    (login passwords plain db (codes "ann") (codes "secret") none 10 0 draws).1
    ≡ ok (bundle_of plain ann (of_tenant 5) 10 draws)
unfolding login text_eq is_set select_where get_row sort_by
oldest_tenant = refl

not_a_member :
    (login passwords plain db (codes "ann") (codes "secret") (some 7) 10 0 draws).1
    ≡ raise authentication_denied
unfolding login text_eq is_set select_where get_row sort_by
not_a_member = refl

login-IsOutcome_example :
    IsOutcome passwords plain db
      (codes "ann")
      (codes "secret")
      none
      10
      draws
      (login passwords plain db (codes "ann") (codes "secret") none 10 0 draws)
login-IsOutcome_example =
    login-IsOutcome passwords plain db (codes "ann") (codes "secret") none 10 0 draws
