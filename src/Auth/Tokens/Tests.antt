-- ===== src/Auth/Tokens/Tests.antt =====
-- Tests of the rotation of refresh tokens, and its theorems at a concrete input.
use etoeragcb.Base.{ℕ, ◌≡◌, refl, true, none, some, [], ◌∷◌, arith, Any}
use etoeragcb.Base.Text.{Text, codes, text_eq}
use etoeragcb.Base.Result.{ok, raise}
use etoeragcb.Auth.Tokens.{
  User, UserTenant, find_user, find_user_tenant, RefreshToken, Database, TokenBundle,
  authentication_denied, refresh_reuse_detected, Security, Draws, is_set, find_token, update_token,
  revoke_family, owner_of, may_refresh, token_of, bundle_of, rotate, refresh_owned, refresh_known,
  refresh_found, refresh,
}
use etoeragcb.Auth.Tokens.Rotation.{IsDead, IsRevokedIn, reuse_revokes_family}
use etoeragcb.Auth.Tokens.Families.{done, more, refreshing, family_stays_revoked}
use etoeragcb.Auth.Tokens.Chain.{next_token_works}

program : Unit {0}
unfolding text_eq is_set find_token update_token revoke_family find_user find_user_tenant owner_of
    may_refresh rotate refresh_owned refresh_known refresh_found refresh
program = tt

abbrev plain : Security
plain = record {
  hash_refresh_token = λ t. t;
  issue_access_token = λ user tenant role version now jti. codes "jwt";
  access_ttl = 900;
  refresh_ttl = 3600;
}

abbrev ann : User
ann = record {
  id = 1;
  email = codes "ann";
  password_hash = codes "secret";
  is_active = true;
  auth_version = 1;
  failed_login_count = 2;
  last_failed_login_at = none;
  disabled_at = none;
}

abbrev member : UserTenant
member = record { user_id = 1; tenant_id = 5; role = codes "member" }

abbrev draw_one : Draws
draw_one = record { raw_token = codes "r1"; token_id = 101; new_family = 9; jti = 1 }

abbrev draw_two : Draws
draw_two = record { raw_token = codes "r2"; token_id = 102; new_family = 9; jti = 2 }

abbrev opened : Database
opened = record {
  tenants = record { id = 5; created_at = 0 } ∷ [];
  users = ann ∷ [];
  user_tenants = member ∷ [];
  tokens = token_of plain ann member 7 0 draw_one ∷ [];
}

-- After the first token was exchanged at second 10, and used again at second 20.
abbrev exchanged : Database
exchanged = (refresh plain opened (codes "r1") 10 draw_two).0

abbrev revoked : Database
revoked = (refresh plain exchanged (codes "r1") 20 draw_one).0

expired : (refresh plain opened (codes "r1") 3600 draw_two).1 ≡ raise authentication_denied
unfolding program
expired = refl

reuse_revokes_family_example :
    ((refresh plain exchanged (codes "r1") 20 draw_one).1 ≡ raise refresh_reuse_detected)
    × (old : RefreshToken) × (find_token (codes "r1") opened.tokens ≡ some old)
    × IsDead old.family_id revoked.tokens
    × Any (IsRevokedIn old.family_id (codes "r2")) revoked.tokens
unfolding program
reuse_revokes_family_example =
    reuse_revokes_family plain opened exchanged (codes "r1") 10 draw_two
      (bundle_of plain ann member 10 draw_two) refl 20 draw_one

family_stays_revoked_example :
    IsDead 7 (refresh plain revoked (codes "r2") 30 draw_one).0.tokens
    × ((raw_token : Text) (r : RefreshToken)
        → find_token raw_token (refresh plain revoked (codes "r2") 30 draw_one).0.tokens ≡ some r
        → r.family_id ≡ 7
        → (now : ℕ) (draws : Draws)
        → (refresh plain (refresh plain revoked (codes "r2") 30 draw_one).0 raw_token now draws).1
          ≡ raise refresh_reuse_detected)
unfolding program
family_stays_revoked_example =
    family_stays_revoked plain 7 revoked (refresh plain revoked (codes "r2") 30 draw_one).0
      (more _ _ _ (refreshing revoked _ (codes "r2") 30 draw_one refl) (done _))
      ((λ e. refl), ((λ e. refl), tt))

next_token_works_example :
    (next : TokenBundle) × ((refresh plain exchanged (codes "r2") 500 draw_one).1 ≡ ok next)
    × (next.tenant_id ≡ 5)
    × (next.refresh_token ≡ codes "r1")
unfolding program
next_token_works_example =
    next_token_works plain opened exchanged (codes "r1") 10 draw_two
      (bundle_of plain ann member 10 draw_two) refl refl 500 draw_one (omega arith)
