-- ===== src/Auth/Tokens.antt =====
-- backend/app/auth/service.py: refresh tokens are rotated, and the reuse of one that was rotated
-- revokes its family. Cryptography is a parameter, `Security`; what the process draws at random is an
-- argument, `Draws`; a time is a number of seconds.
pub mod Rotation
pub mod Families
pub mod Chain
mod Tests
use etoeragcb.Base.{
  ℕ, ◌+◌, Bool, true, false, not, ◌&&◌, ◌||◌, Option, none, some, List, [], ◌∷◌, ◌++◌, map, leb,
  nat_eq, if◌then◌else◌, ◌==◌, text_keys,
}
use etoeragcb.Base.Text.{Text}
use etoeragcb.Base.Result.{Result, ok, raise}

-- The columns of the table of tokens that are read.
pub record RefreshToken : Type 0 where
  pub id : ℕ
  pub user_id : ℕ
  pub tenant_id : ℕ
  pub token_hash : Text
  pub family_id : ℕ
  pub expires_at : ℕ
  pub revoked_at : Option ℕ
  pub replaced_by : Option ℕ

pub record User : Type 0 where
  pub id : ℕ
  pub email : Text
  pub password_hash : Text
  pub is_active : Bool
  pub auth_version : ℕ
  pub failed_login_count : ℕ
  pub last_failed_login_at : Option ℕ
  pub disabled_at : Option ℕ

pub record UserTenant : Type 0 where
  pub user_id : ℕ
  pub tenant_id : ℕ
  pub role : Text

-- The columns of `Tenant` that memberships are put in order by.
pub record TenantRow : Type 0 where
  pub id : ℕ
  pub created_at : ℕ

pub record Database : Type 0 where
  pub tenants : List TenantRow
  pub users : List User
  pub user_tenants : List UserTenant
  pub tokens : List RefreshToken

pub record TokenBundle : Type 0 where
  pub access_token : Text
  pub access_expires_in : ℕ
  pub refresh_token : Text
  pub refresh_expires_in : ℕ
  pub tenant_id : ℕ

pub data AuthError : Type 0 where
  authentication_denied refresh_reuse_detected : AuthError

-- `SecurityService`, as far as it is called: the access token is signed over the user, the tenant,
-- the role, the version, the time and a random identifier.
pub record Security : Type 0 where
  pub hash_refresh_token : Text → Text
  pub issue_access_token : ℕ → ℕ → Text → ℕ → ℕ → ℕ → Text
  pub access_ttl : ℕ
  pub refresh_ttl : ℕ

-- What one call draws at random.
pub record Draws : Type 0 where
  pub raw_token : Text
  pub token_id : ℕ
  pub new_family : ℕ
  pub jti : ℕ

unfoldable pub is_set : Option ℕ → Bool
is_set none = false
is_set (some n) = true

unfoldable pub find_token : Text → List RefreshToken → Option RefreshToken
find_token hash [] = none
find_token hash (t ∷ ts) = if t.token_hash == hash then some t else find_token hash ts

-- The assignments to the row with a primary key.
unfoldable pub update_token : ℕ → Option ℕ → Option ℕ → List RefreshToken → List RefreshToken
update_token id revoked_at replaced_by [] = []
update_token id revoked_at replaced_by (t ∷ ts) =
    (if nat_eq t.id id then record t { revoked_at = revoked_at; replaced_by = replaced_by } else t)
    ∷ update_token id revoked_at replaced_by ts

-- `_revoke_family`.
unfoldable pub revoke_family : ℕ → ℕ → List RefreshToken → List RefreshToken
unfolding is_set
revoke_family family_id now [] = []
revoke_family family_id now (t ∷ ts) =
    (if nat_eq t.family_id family_id && not (is_set t.revoked_at)
      then record t { revoked_at = some now }
      else t)
    ∷ revoke_family family_id now ts

abbrev pub with_tokens : Database → List RefreshToken → Database
with_tokens db tokens = record db { tokens = tokens }

unfoldable pub find_user : ℕ → List User → Option User
find_user id [] = none
find_user id (u ∷ us) = if nat_eq u.id id then some u else find_user id us

unfoldable pub find_user_tenant : ℕ → ℕ → List UserTenant → Option UserTenant
find_user_tenant user_id tenant_id [] = none
find_user_tenant user_id tenant_id (m ∷ ms) =
    if nat_eq m.user_id user_id && nat_eq m.tenant_id tenant_id
    then some m
    else find_user_tenant user_id tenant_id ms

-- The join of `User` and `UserTenant` on a token.
unfoldable pub owner_of : Database → RefreshToken → Option (User × UserTenant)
unfolding find_user find_user_tenant
owner_of db r = elim (find_user r.user_id db.users) [
  | none ↦ none
  | some user ↦ elim (find_user_tenant user.id r.tenant_id db.user_tenants) [
    | none ↦ none
    | some membership ↦ some (user, membership)
  ]
]

unfoldable pub may_refresh : User → Bool
unfolding is_set
may_refresh user = user.is_active && not (is_set user.disabled_at)

module _ (security : Security) where
  abbrev pub bundle_of : User → UserTenant → ℕ → Draws → TokenBundle
  bundle_of user membership now draws = record {
    access_token =
        security.issue_access_token user.id membership.tenant_id membership.role user.auth_version
          now draws.jti;
    access_expires_in = security.access_ttl;
    refresh_token = draws.raw_token;
    refresh_expires_in = security.refresh_ttl;
    tenant_id = membership.tenant_id;
  }

  abbrev pub token_of : User → UserTenant → ℕ → ℕ → Draws → RefreshToken
  token_of user membership family_id now draws = record {
    id = draws.token_id;
    user_id = user.id;
    tenant_id = membership.tenant_id;
    token_hash = security.hash_refresh_token draws.raw_token;
    family_id = family_id;
    expires_at = now + security.refresh_ttl;
    revoked_at = none;
    replaced_by = none;
  }

  -- The end of `refresh`: the next token of the family replaces this one.
  unfoldable pub rotate :
      Database
      → RefreshToken
      → User
      → UserTenant
      → ℕ
      → Draws
      → Database × Result AuthError TokenBundle
  rotate db r user membership now draws = (
    with_tokens db (
        update_token r.id (some now) (some draws.token_id) db.tokens
        ++ token_of user membership r.family_id now draws ∷ []),
    ok (bundle_of user membership now draws),
  )

  -- The tests on the owner of a token that can still be used.
  unfoldable pub refresh_owned :
      Database
      → RefreshToken
      → ℕ
      → Draws
      → Option (User × UserTenant)
      → Database × Result AuthError TokenBundle
  unfolding rotate may_refresh
  refresh_owned db r now draws none =
      (with_tokens db (revoke_family r.family_id now db.tokens), raise authentication_denied)
  refresh_owned db r now draws (some (user, membership)) =
      if not (may_refresh user)
      then (with_tokens db (revoke_family r.family_id now db.tokens), raise authentication_denied)
      else rotate db r user membership now draws

  -- The tests on a token that is stored.
  unfoldable pub refresh_known :
      Database → ℕ → Draws → RefreshToken → Database × Result AuthError TokenBundle
  unfolding is_set refresh_owned owner_of
  refresh_known db now draws r =
      if is_set r.revoked_at || is_set r.replaced_by
      then (with_tokens db (revoke_family r.family_id now db.tokens), raise refresh_reuse_detected)
      else if leb r.expires_at now
      then (
        with_tokens db (update_token r.id (some now) r.replaced_by db.tokens),
        raise authentication_denied,
      )
      else refresh_owned db r now draws (owner_of db r)

  unfoldable pub refresh_found :
      Database → ℕ → Draws → Option RefreshToken → Database × Result AuthError TokenBundle
  unfolding refresh_known
  refresh_found db now draws none = (db, raise authentication_denied)
  refresh_found db now draws (some r) = refresh_known db now draws r

  unfoldable pub refresh : Database → Text → ℕ → Draws → Database × Result AuthError TokenBundle
  unfolding refresh_found
  refresh db raw_token now draws =
      refresh_found db now draws (find_token (security.hash_refresh_token raw_token) db.tokens)

  unfoldable pub logout_found : Database → ℕ → Option RefreshToken → Database
  logout_found db now none = db
  logout_found db now (some r) =
      if is_set r.revoked_at
      then db
      else with_tokens db (update_token r.id (some now) r.replaced_by db.tokens)

  unfoldable pub logout : Database → Text → ℕ → Database
  unfolding is_set logout_found
  logout db raw_token now =
      logout_found db now (find_token (security.hash_refresh_token raw_token) db.tokens)

  -- `_new_token_bundle`, and the insert that `login` makes of its token.
  unfoldable pub open_family : Database → User → UserTenant → ℕ → Draws → Database × TokenBundle
  open_family db user membership now draws = (
    with_tokens db (db.tokens ++ token_of user membership draws.new_family now draws ∷ []),
    bundle_of user membership now draws,
  )
