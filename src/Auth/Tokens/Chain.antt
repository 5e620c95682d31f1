-- ===== src/Auth/Tokens/Chain.antt =====
-- The token that a refresh hands out can be refreshed in its turn.
use etoeragcb.Base.{
  ℕ, ◌+◌, ◌<◌, false, ◌≡◌, refl, ap, sym, ◌∙◌, Option, none, some, List, [], ◌∷◌, ◌++◌, arith,
  Option-cases, inl, inr, text_keys, leb, same_self,
}
use etoeragcb.Base.Text.{Text}
use etoeragcb.Base.Result.{ok, ok_injective}
use etoeragcb.Auth.Tokens.{
  User, UserTenant, find_user, find_user_tenant, RefreshToken, Database, TokenBundle, Security,
  Draws, is_set, find_token, update_token, owner_of, token_of, bundle_of, rotate, refresh,
}
use etoeragcb.Auth.Tokens.Rotation.{refresh_returned, refresh_succeeds}

find_token-missing :
    (hash : Text) (ts : List RefreshToken) (id : ℕ) (revoked replaced : Option ℕ) (t : RefreshToken)
    → find_token hash ts ≡ none
    → t.token_hash ≡ hash
    → find_token hash (update_token id revoked replaced ts ++ t ∷ []) ≡ some t
unfolding find_token update_token
find_token-missing hash [] id revoked replaced t h e = rw (e, same_self hash) refl
find_token-missing hash (x ∷ ts) id revoked replaced t h e =
    ground (arith, find_token-missing hash ts id revoked replaced t)

find_user-id : (id : ℕ) (us : List User) (u : User) → find_user id us ≡ some u → u.id ≡ id
unfolding find_user
find_user-id id [] u h = cc
find_user-id id (x ∷ us) u h = ground (arith, find_user-id id us u)

find_user_tenant-id :
    (user_id tenant_id : ℕ) (ms : List UserTenant) (m : UserTenant)
    → find_user_tenant user_id tenant_id ms ≡ some m
    → m.tenant_id ≡ tenant_id
unfolding find_user_tenant
find_user_tenant-id user_id tenant_id [] m h = cc
find_user_tenant-id user_id tenant_id (x ∷ ms) m h =
    ground (arith, find_user_tenant-id user_id tenant_id ms m)

owner_of-ids :
    (db : Database) (r : RefreshToken) (u : User) (m : UserTenant)
    → owner_of db r ≡ some (u, m)
    → (u.id ≡ r.user_id) × (m.tenant_id ≡ r.tenant_id)
unfolding owner_of
owner_of-ids db r u m h = elim (Option-cases (find_user r.user_id db.users)) [
  | inl nobody ↦ absurd (ground arith)
  | inr (v, found) ↦ elim (Option-cases (find_user_tenant v.id r.tenant_id db.user_tenants)) [
    | inl missing ↦ absurd (ground arith)
    | inr (n, member) ↦
        let e : ◌≡◌ {A = Option (User × UserTenant)} (some (v, n)) (some (u, m)) =
          rw (found, member, owner_of) at h in
        let v_is : v ≡ u = cc in
        let n_is : n ≡ m = cc in
        (
          sym (ap (λ x. x.id) v_is) ∙ find_user-id r.user_id db.users v found,
          sym (ap (λ x. x.tenant_id) n_is)
              ∙ find_user_tenant-id v.id r.tenant_id db.user_tenants n member,
        )
  ]
]

owner_of-same :
    (db db' : Database) (r s : RefreshToken)
    → db'.users ≡ db.users
    → db'.user_tenants ≡ db.user_tenants
    → s.user_id ≡ r.user_id
    → s.tenant_id ≡ r.tenant_id
    → owner_of db' s ≡ owner_of db r
unfolding owner_of
owner_of-same db db' r s users tenants user tenant = rw (users, tenants, user, tenant) refl

module _ (security : Security) where
  -- Where a refresh returns new tokens, and no stored token has the digest of the one it drew, the
  -- new refresh token can be refreshed in its turn until its time is over: this returns tokens for
  -- the same tenant.
  pub next_token_works :
      (db db' : Database) (raw_token : Text) (now : ℕ) (draws : Draws) (bundle : TokenBundle)
      → refresh security db raw_token now draws ≡ (db', ok bundle)
      → find_token (security.hash_refresh_token draws.raw_token) db.tokens ≡ none
      → (later : ℕ) (draws' : Draws) → later < now + security.refresh_ttl
      → (next : TokenBundle) × ((refresh security db' bundle.refresh_token later draws').1
          ≡ ok next)
        × (next.tenant_id ≡ bundle.tenant_id)
        × (next.refresh_token ≡ draws'.raw_token)
  unfolding is_set rotate
  next_token_works db db' raw_token now draws bundle h unseen later draws' early =
      let w = refresh_returned security db db' raw_token now draws bundle h in
      let new = token_of security w.user w.membership w.old.family_id now draws in
      let ids = owner_of-ids db w.old w.user w.membership w.owned in
      let drawn : bundle ≡ bundle_of security w.user w.membership now draws = ok_injective _ _ (
        sym (ap (λ p. p.1) h)
        ∙ refresh_succeeds security db raw_token now draws w.old w.user w.membership w.found
            w.usable w.in_time w.owned w.allowed) in
      let found : find_token (security.hash_refresh_token draws.raw_token) db'.tokens ≡ some new =
        ap (λ d. find_token (security.hash_refresh_token draws.raw_token) d.tokens) w.rotated
        ∙ find_token-missing (security.hash_refresh_token draws.raw_token) db.tokens w.old.id
            (some now) (some draws.token_id) new unseen refl in
      let in_time : leb (now + security.refresh_ttl) later ≡ false = ground arith in
      let owned : owner_of db' new ≡ some (w.user, w.membership) =
        owner_of-same db db' w.old new (ap (λ d. d.users) w.rotated)
          (ap (λ d. d.user_tenants) w.rotated) ids.0 ids.1
        ∙ w.owned in
      (
        bundle_of security w.user w.membership later draws',
        ap (λ b. (refresh security db' b.refresh_token later draws').1) drawn
            ∙ refresh_succeeds security db' draws.raw_token later draws' new w.user w.membership
                found refl in_time owned w.allowed,
        sym (ap (λ b. b.tenant_id) drawn),
        refl,
      )
