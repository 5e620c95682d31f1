-- ===== src/Auth/Login/Laws.antt =====
-- Whom a login lets in, and what a refusal tells and changes.
use etoeragcb.Base.{ℕ, true, ◌≡◌, refl, Option, none, some, [], ◌∷◌, ◌++◌, Bool-cases, inl, inr}
use etoeragcb.Base.Text.{Text}
use etoeragcb.Base.Result.{Result, ok, raise}
use etoeragcb.Auth.Tokens.{
  User, UserTenant, Database, TokenBundle, AuthError, authentication_denied, Security, Draws,
  may_refresh, open_family, token_of, bundle_of,
}
use etoeragcb.Auth.Login.{
  Passwords, find_email, memberships, select_membership, settle_user, login_member, login_user,
  login,
}
use etoeragcb.Auth.Login.Outcomes.{
  IsRecounted, note_failure-IsRecounted, IsMember, IsRequested, memberships-IsMember,
  select_membership-found,
}

module _ (passwords : Passwords) (security : Security) where
  -- A login that lets a user in, and what it stores and hands out.
  pub record IsGranted (db : Database) (email password : Text) (requested : Option ℕ) (now : ℕ)
      (draws : Draws) (db' : Database) (bundle : TokenBundle) : Type 0 where
    pub user : User
    pub membership : UserTenant
    pub known : find_email (passwords.normalize_email email) db.users ≡ some user
    pub verified : passwords.verify_password (some user.password_hash) password ≡ true
    pub allowed : may_refresh user ≡ true
    pub member : IsMember db user.id membership
    pub asked : IsRequested requested membership
    pub tokens :
        db'.tokens ≡ db.tokens ++ token_of security user membership draws.new_family now draws ∷ []
    pub handed : bundle ≡ bundle_of security user membership now draws

  -- A refusal is always the same error, and a login that returns is granted.
  abbrev pub IsOutcome :
      Database
      → Text
      → Text
      → Option ℕ
      → ℕ
      → Draws
      → Database × Result AuthError TokenBundle
      → Type 0
  IsOutcome db email password requested now draws (db', raise e) =
      (e ≡ authentication_denied) × IsRecounted db db'
  IsOutcome db email password requested now draws (db', ok bundle) =
      IsGranted db email password requested now draws db' bundle

  IsRecounted-refl : (db : Database) → IsRecounted db db
  IsRecounted-refl db = record { tenants = refl; user_tenants = refl; tokens = refl; users = refl }

  login_member-IsOutcome :
      (db : Database) (email password : Text) (requested : Option ℕ) (now salt : ℕ) (draws : Draws)
      (user : User) (o : Option UserTenant)
      → find_email (passwords.normalize_email email) db.users ≡ some user
      → passwords.verify_password (some user.password_hash) password ≡ true
      → may_refresh user ≡ true
      → select_membership (memberships db user.id) requested ≡ o
      → IsOutcome db email password requested now draws
          (login_member passwords security db user password now salt draws o)
  unfolding login_member open_family settle_user
  login_member-IsOutcome db email password requested now salt draws user none known verified allowed
        e =
      (refl, note_failure-IsRecounted user now db)
  login_member-IsOutcome db email password requested now salt draws user (some m) known verified
        allowed e =
      let (member, asked) =
        select_membership-found (IsMember db user.id) (memberships db user.id) requested m
          (memberships-IsMember db user.id) e in
      record {
        user = user;
        membership = m;
        known = known;
        verified = verified;
        allowed = allowed;
        member = member;
        asked = asked;
        tokens = refl;
        handed = refl;
      }

  login_user-IsOutcome :
      (db : Database) (email password : Text) (requested : Option ℕ) (now salt : ℕ) (draws : Draws)
      (o : Option User)
      → find_email (passwords.normalize_email email) db.users ≡ o
      → IsOutcome db email password requested now draws
          (login_user passwords security db password requested now salt draws o)
  unfolding login_user
  login_user-IsOutcome db email password requested now salt draws none known =
      (refl, IsRecounted-refl db)
  login_user-IsOutcome db email password requested now salt draws (some user) known =
      elim (Bool-cases (passwords.verify_password (some user.password_hash) password)) [
        | inr wrong ↦ rw wrong (refl, note_failure-IsRecounted user now db)
        | inl right ↦ rw right (elim (Bool-cases (may_refresh user)) [
          | inr closed ↦ rw closed (refl, note_failure-IsRecounted user now db)
          | inl allowed ↦ rw allowed (
              login_member-IsOutcome db email password requested now salt draws user _ known right
                allowed refl)
        ])
      ]

  -- A login either raises that it is denied, the same for an unknown email, a wrong password, a closed
  -- account and a missing membership, and changes nothing but counters of failed logins; or the email is
  -- one of a user who is active and not disabled, the password is theirs, they have the membership, which
  -- is of the tenant asked for, if any, and one token of a new family for it is stored and handed out.
  pub login-IsOutcome :
      (db : Database) (email password : Text) (requested : Option ℕ) (now salt : ℕ) (draws : Draws)
      → IsOutcome db email password requested now draws
          (login passwords security db email password requested now salt draws)
  unfolding login
  login-IsOutcome db email password requested now salt draws =
      login_user-IsOutcome db email password requested now salt draws
        (find_email (passwords.normalize_email email) db.users) refl
