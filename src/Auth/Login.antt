-- ===== src/Auth/Login.antt =====
-- backend/app/auth/service.py: `login` on the tables of the tokens. The password hash and the
-- normalization of an email, which call libraries, are parameters; `hash_password` is given the salt.
pub mod Outcomes
pub mod Laws
mod Tests
use etoeragcb.Base.{
  ℕ, suc, Bool, true, false, not, ◌&&◌, ◌||◌, Option, none, some, List, [], ◌∷◌, map, ltb, leb,
  nat_eq, if◌then◌else◌, ◌==◌, text_keys,
}
use etoeragcb.Base.Text.{Text}
use etoeragcb.Base.Sort.{sort_by, by_key}
use etoeragcb.Base.Table.{select_where, get_row, set_row}
use etoeragcb.Base.Result.{Result, ok, raise}
use etoeragcb.Auth.Tokens.{
  User, UserTenant, TenantRow, Database, TokenBundle, AuthError, authentication_denied, Security,
  Draws, is_set, may_refresh, open_family,
}

-- The part of `SecurityService` that a login calls.
pub record Passwords : Type 0 where
  pub normalize_email : Text → Text
  pub verify_password : Option Text → Text → Bool
  pub password_needs_rehash : Text → Bool
  pub hash_password : ℕ → Text → Text

unfoldable pub find_email : Text → List User → Option User
find_email email [] = none
find_email email (u ∷ us) = if u.email == email then some u else find_email email us

-- A membership and its tenant.
pub record Membership : Type 0 where
  pub member : UserTenant
  pub tenant : TenantRow

unfoldable pub with_tenant : UserTenant → Option TenantRow → List Membership → List Membership
with_tenant m none rest = rest
with_tenant m (some t) rest = record { member = m; tenant = t } ∷ rest

unfoldable pub joined_memberships : List TenantRow → List UserTenant → List Membership
unfolding with_tenant
joined_memberships tenants [] = []
joined_memberships tenants (m ∷ ms) =
    with_tenant m (get_row (λ t. t.id) m.tenant_id tenants) (joined_memberships tenants ms)

-- `order_by(Tenant.created_at, Tenant.id)`.
unfoldable pub created_before : Membership → Membership → Bool
created_before a b =
    ltb a.tenant.created_at b.tenant.created_at
    || (nat_eq a.tenant.created_at b.tenant.created_at && leb a.tenant.id b.tenant.id)

-- `_memberships`.
unfoldable pub memberships : Database → ℕ → List UserTenant
unfolding joined_memberships created_before
memberships db user_id =
    map (λ m. m.member)
      (sort_by created_before (
        joined_memberships db.tenants
          (select_where (λ m. nat_eq m.user_id user_id) db.user_tenants)))

unfoldable pub first_of_tenant : ℕ → List UserTenant → Option UserTenant
first_of_tenant tenant_id [] = none
first_of_tenant tenant_id (m ∷ ms) =
    let rest = first_of_tenant tenant_id ms in if nat_eq m.tenant_id tenant_id then some m else rest

-- `_select_membership`.
unfoldable pub select_membership : List UserTenant → Option ℕ → Option UserTenant
unfolding first_of_tenant
select_membership [] none = none
select_membership (m ∷ ms) none = some m
select_membership ms (some tenant_id) = first_of_tenant tenant_id ms

-- The count of a login that failed.
unfoldable pub note_failure : User → ℕ → Database → Database
note_failure user now db = record db {
  users =
      set_row (λ u. u.id) user.id
        (λ u. record u {
          failed_login_count = suc u.failed_login_count;
          last_failed_login_at = some now;
        })
        db.users;
}

module _ (passwords : Passwords) (security : Security) where
  -- The password hashed again where it is due, and the counters reset.
  unfoldable pub settle_user : User → Text → ℕ → Database → Database
  settle_user user password salt db = record db {
    users =
        set_row (λ u. u.id) user.id
          (λ u. record u {
            password_hash =
                if passwords.password_needs_rehash user.password_hash
                then passwords.hash_password salt password
                else u.password_hash;
            failed_login_count = 0;
            last_failed_login_at = none;
          })
          db.users;
  }

  unfoldable pub login_member :
      Database
      → User
      → Text
      → ℕ
      → ℕ
      → Draws
      → Option UserTenant
      → Database × Result AuthError TokenBundle
  unfolding settle_user open_family note_failure
  login_member db user password now salt draws none =
      (note_failure user now db, raise authentication_denied)
  login_member db user password now salt draws (some membership) =
      let opened =
        open_family security (settle_user user password salt db) user membership now draws in
      (opened.0, ok opened.1)

  unfoldable pub login_user :
      Database
      → Text
      → Option ℕ
      → ℕ
      → ℕ
      → Draws
      → Option User
      → Database × Result AuthError TokenBundle
  unfolding login_member memberships select_membership may_refresh note_failure
  login_user db password requested now salt draws none = (db, raise authentication_denied)
  login_user db password requested now salt draws (some user) =
      if not (passwords.verify_password (some user.password_hash) password)
        || not (may_refresh user)
      then (note_failure user now db, raise authentication_denied)
      else login_member db user password now salt draws
          (select_membership (memberships db user.id) requested)

  -- `login`.
  unfoldable pub login :
      Database → Text → Text → Option ℕ → ℕ → ℕ → Draws → Database × Result AuthError TokenBundle
  unfolding login_user find_email
  login db email password requested now salt draws =
      login_user db password requested now salt draws
        (find_email (passwords.normalize_email email) db.users)
