-- ===== src/Auth/Login/Outcomes.antt =====
-- The two outcomes of a login: whom it lets in, and what a refusal tells and changes.
use mathlib.Core.Option.{some-injective}
use etoeragcb.Base.{
  nat_eq_iff, ℕ, Bool, ◌≡◌, refl, ap, sym, ◌∙◌, Option, none, some, List, [], ◌∷◌, map, nat_eq,
  arith, Bool-cases, Option-cases, inl, inr, All, Any, text_keys, All-map, subst,
}
use etoeragcb.Base.Text.{Text}
use etoeragcb.Base.Sort.{All-sort_by}
use etoeragcb.Base.Table.{select_where, get_row, set_row}
use etoeragcb.Auth.Tokens.{User, UserTenant, TenantRow, Database}
use etoeragcb.Auth.Login.{
  Membership, with_tenant, joined_memberships, created_before, memberships, first_of_tenant,
  select_membership, note_failure,
}

-- What a user signs in with and may do.
pub record Credentials : Type 0 where
  pub id : ℕ
  pub email : Text
  pub password_hash : Text
  pub is_active : Bool
  pub auth_version : ℕ
  pub disabled_at : Option ℕ

abbrev pub credentials_of : User → Credentials
credentials_of u = record {
  id = u.id;
  email = u.email;
  password_hash = u.password_hash;
  is_active = u.is_active;
  auth_version = u.auth_version;
  disabled_at = u.disabled_at;
}

-- A database with other counters of failed logins.
pub record IsRecounted (db db' : Database) : Type 0 where
  pub tenants : db'.tenants ≡ db.tenants
  pub user_tenants : db'.user_tenants ≡ db.user_tenants
  pub tokens : db'.tokens ≡ db.tokens
  pub users : map credentials_of db'.users ≡ map credentials_of db.users

credentials-set_row :
    (id : ℕ) (f : User → User) (us : List User)
    → ((u : User) → credentials_of (f u) ≡ credentials_of u)
    → map credentials_of (set_row (λ u. u.id) id f us) ≡ map credentials_of us
unfolding set_row
credentials-set_row id f [] h = refl
credentials-set_row id f (u ∷ us) h = elim (Bool-cases (nat_eq u.id id)) [
  | inl e ↦ rw (e, h u) (ap (λ z. credentials_of u ∷ z) (credentials-set_row id f us h))
  | inr e ↦ rw e (ap (λ z. credentials_of u ∷ z) (credentials-set_row id f us h))
]

pub note_failure-IsRecounted :
    (user : User) (now : ℕ) (db : Database) → IsRecounted db (note_failure user now db)
unfolding note_failure
note_failure-IsRecounted user now db = record {
  tenants = refl;
  user_tenants = refl;
  tokens = refl;
  users = credentials-set_row user.id _ db.users (λ u. refl);
}

-- A membership of a user that the database holds.
abbrev pub IsMember : Database → ℕ → UserTenant → Type 0
IsMember db user_id m = Any (λ x. (x ≡ m) × (x.user_id ≡ user_id)) db.user_tenants

All-joined_memberships :
    (P : UserTenant → Type 0) (tenants : List TenantRow) (ms : List UserTenant)
    → All P ms
    → All (λ m. P m.member) (joined_memberships tenants ms)
unfolding joined_memberships with_tenant
All-joined_memberships P tenants [] h = tt
All-joined_memberships P tenants (m ∷ ms) (first, more) =
    let rest = All-joined_memberships P tenants ms more in
    elim (Option-cases (get_row (λ t. t.id) m.tenant_id tenants)) [
      | inl e ↦ rw e rest
      | inr (t, e) ↦ rw e (first, rest)
    ]

own_memberships :
    (user_id : ℕ) (ms : List UserTenant)
    → All
        (λ m. Any (λ x. (x ≡ m) × (x.user_id ≡ user_id)) ms)
        (select_where (λ m. nat_eq m.user_id user_id) ms)
unfolding select_where
own_memberships user_id [] = tt
own_memberships user_id (m ∷ ms) =
    let rest =
      All-map (λ x h. inr h) (select_where (λ r. nat_eq r.user_id user_id) ms)
        (own_memberships user_id ms) in
    elim (Bool-cases (nat_eq m.user_id user_id)) [
      | inl e ↦ rw e (inl (refl, (nat_eq_iff m.user_id user_id).0 e), rest)
      | inr e ↦ rw e rest
    ]

All-members :
    (P : UserTenant → Type 0) (ms : List Membership)
    → All (λ m. P m.member) ms
    → All P (map (λ m. m.member) ms)
All-members P [] h = tt
All-members P (m ∷ ms) (first, more) = (first, All-members P ms more)

pub memberships-IsMember :
    (db : Database) (user_id : ℕ) → All (IsMember db user_id) (memberships db user_id)
unfolding memberships
memberships-IsMember db user_id = All-members (IsMember db user_id) _ (
    All-sort_by created_before (λ m. IsMember db user_id m.member) _
      (All-joined_memberships (IsMember db user_id) db.tenants _
        (own_memberships user_id db.user_tenants)))

-- The membership that was asked for, where one was.
abbrev pub IsRequested : Option ℕ → UserTenant → Type 0
IsRequested none m = Unit
IsRequested (some tenant_id) m = m.tenant_id ≡ tenant_id

first_of_tenant-found :
    (P : UserTenant → Type 0) (tenant_id : ℕ) (ms : List UserTenant) (m : UserTenant)
    → All P ms
    → first_of_tenant tenant_id ms ≡ some m
    → P m × (m.tenant_id ≡ tenant_id)
unfolding first_of_tenant
first_of_tenant-found P tenant_id [] m h e = cc
first_of_tenant-found P tenant_id (x ∷ ms) m (first, more) e =
    elim (Bool-cases (nat_eq x.tenant_id tenant_id)) [
      | inl here ↦
          let same : x ≡ m = some-injective x m (rw here at e) in
          (subst P same first, ap (λ z. z.tenant_id) (sym same) ∙ ground arith)
      | inr there ↦ first_of_tenant-found P tenant_id ms m more (rw there at e)
    ]

pub select_membership-found :
    (P : UserTenant → Type 0) (ms : List UserTenant) (requested : Option ℕ) (m : UserTenant)
    → All P ms
    → select_membership ms requested ≡ some m
    → P m × IsRequested requested m
unfolding select_membership
select_membership-found P [] none m h e = cc
select_membership-found P (x ∷ ms) none m (first, more) e =
    (subst P (some-injective x m e) first, tt)
select_membership-found P [] (some tenant_id) m h e = first_of_tenant-found P tenant_id [] m h e
select_membership-found P (x ∷ ms) (some tenant_id) m h e =
    first_of_tenant-found P tenant_id (x ∷ ms) m h e
