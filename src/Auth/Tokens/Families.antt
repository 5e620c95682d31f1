-- ===== src/Auth/Tokens/Families.antt =====
-- A family of tokens that was revoked stays revoked.
use etoeragcb.Base.{
  ℕ, true, not, ◌&&◌, ◌||◌, ◌≡◌, refl, ap, sym, subst, ◌∙◌, Option, none, some, List, [], ◌∷◌,
  All-append, arith, nat_eq, Bool-cases, inl, inr, text_keys, ◌==◌, leb,
}
use etoeragcb.Base.Text.{Text}
use etoeragcb.Base.Result.{raise}
use etoeragcb.Auth.Tokens.{
  User, UserTenant, RefreshToken, Database, refresh_reuse_detected, Security, Draws, is_set,
  find_token, update_token, revoke_family, owner_of, may_refresh, rotate, refresh_owned,
  refresh_known, refresh_found, refresh, logout_found, logout, open_family,
}
use etoeragcb.Auth.Tokens.Rotation.{IsDead, refresh_used}

IsDead-update :
    (f id now : ℕ) (replaced : Option ℕ) (ts : List RefreshToken)
    → IsDead f ts
    → IsDead f (update_token id (some now) replaced ts)
unfolding update_token is_set
IsDead-update f id now replaced [] h = tt
IsDead-update f id now replaced (t ∷ ts) (this, rest) = (
  elim (Bool-cases (nat_eq t.id id)) [ inl e ↦ rw e (λ q. refl) | inr e ↦ rw e this ],
  IsDead-update f id now replaced ts rest,
)

IsDead-revoke_family :
    (f g now : ℕ) (ts : List RefreshToken) → IsDead f ts → IsDead f (revoke_family g now ts)
unfolding revoke_family is_set
IsDead-revoke_family f g now [] h = tt
IsDead-revoke_family f g now (t ∷ ts) (this, rest) = (
  elim (Bool-cases (nat_eq t.family_id g && not (is_set t.revoked_at))) [
    | inl e ↦ rw e (λ q. refl)
    | inr e ↦ rw e this
  ],
  IsDead-revoke_family f g now ts rest,
)

IsDead-find_token :
    (f : ℕ) (hash : Text) (ts : List RefreshToken) (r : RefreshToken)
    → IsDead f ts
    → find_token hash ts ≡ some r
    → r.family_id ≡ f
    → is_set r.revoked_at ≡ true
unfolding find_token
IsDead-find_token f hash [] r h found e = cc
IsDead-find_token f hash (t ∷ ts) r (this, rest) found e =
    elim (Bool-cases (t.token_hash == hash)) [
      | inl same ↦
          let t_is : r ≡ t = cc in
          subst (λ x. is_set x.revoked_at ≡ true) (sym t_is)
            (this (sym (ap (λ x. x.family_id) t_is) ∙ e))
      | inr other ↦ IsDead-find_token f hash ts r rest (rw other at found) e
    ]

module _ (security : Security) (f : ℕ) where
  IsDead-refresh_owned :
      (db : Database) (r : RefreshToken) (now : ℕ) (draws : Draws) (o : Option (User × UserTenant))
      → IsDead f db.tokens
      → ¬ (r.family_id ≡ f)
      → IsDead f (refresh_owned security db r now draws o).0.tokens
  unfolding refresh_owned rotate
  IsDead-refresh_owned db r now draws none h other =
      IsDead-revoke_family f r.family_id now db.tokens h
  IsDead-refresh_owned db r now draws (some (user, membership)) h other =
      elim (Bool-cases (may_refresh user)) [
        | inl allowed ↦ rw allowed (
            All-append _ _ _ (IsDead-update f r.id now (some draws.token_id) db.tokens h)
              (λ e. absurd (other e), tt))
        | inr refused ↦ rw refused (IsDead-revoke_family f r.family_id now db.tokens h)
      ]

  IsDead-refresh_found :
      (db : Database) (hash : Text) (now : ℕ) (draws : Draws) (o : Option RefreshToken)
      → IsDead f db.tokens
      → find_token hash db.tokens ≡ o
      → IsDead f (refresh_found security db now draws o).0.tokens
  unfolding refresh_found refresh_known
  IsDead-refresh_found db hash now draws none h found = h
  IsDead-refresh_found db hash now draws (some r) h found =
      elim (Bool-cases (is_set r.revoked_at || is_set r.replaced_by)) [
        | inl used ↦ rw used (IsDead-revoke_family f r.family_id now db.tokens h)
        | inr usable ↦ elim (Bool-cases (leb r.expires_at now)) [
          | inl late ↦ rw (usable, late) (IsDead-update f r.id now r.replaced_by db.tokens h)
          | inr in_time ↦
              rw (usable, in_time)
                (IsDead-refresh_owned db r now draws (owner_of db r) h
                  (λ e. ground (arith, IsDead-find_token f hash db.tokens r h found e)))
        ]
      ]

  -- One call. A call that opens a family draws another identifier for it.
  pub data Step : Database → Database → Type 0 where
    refreshing :
        (db db' : Database) (raw_token : Text) (now : ℕ) (draws : Draws)
        → (refresh security db raw_token now draws).0 ≡ db'
        → Step db db'
    leaving :
        (db db' : Database) (raw_token : Text) (now : ℕ)
        → logout security db raw_token now ≡ db'
        → Step db db'
    opening :
        (db db' : Database) (user : User) (membership : UserTenant) (now : ℕ) (draws : Draws)
        → ¬ (draws.new_family ≡ f)
        → (open_family security db user membership now draws).0 ≡ db'
        → Step db db'

  -- Any number of calls.
  pub data Steps : Database → Database → Type 0 where
    done : (db : Database) → Steps db db
    more : (db db' db'' : Database) → Step db db' → Steps db' db'' → Steps db db''

  IsDead-logout_found :
      (db : Database) (now : ℕ) (o : Option RefreshToken)
      → IsDead f db.tokens
      → IsDead f (logout_found security db now o).tokens
  unfolding logout_found
  IsDead-logout_found db now none h = h
  IsDead-logout_found db now (some r) h = elim (Bool-cases (is_set r.revoked_at)) [
    | inl over ↦ rw over h
    | inr live ↦ rw live (IsDead-update f r.id now r.replaced_by db.tokens h)
  ]

  IsDead-Step : (db db' : Database) → Step db db' → IsDead f db.tokens → IsDead f db'.tokens
  unfolding refresh logout open_family
  IsDead-Step db db' (refreshing _ _ raw_token now draws e) h =
      subst (λ d. IsDead f d.tokens) e
        (IsDead-refresh_found db (security.hash_refresh_token raw_token) now draws _ h refl)
  IsDead-Step db db' (leaving _ _ raw_token now e) h =
      subst (λ d. IsDead f d.tokens) e (IsDead-logout_found db now _ h)
  IsDead-Step db db' (opening _ _ user membership now draws other e) h =
      subst (λ d. IsDead f d.tokens) e (All-append _ _ _ h (λ q. absurd (other q), tt))

  IsDead-Steps : (db db' : Database) → Steps db db' → IsDead f db.tokens → IsDead f db'.tokens
  IsDead-Steps db db' (done _) h = h
  IsDead-Steps db db' (more _ middle _ step steps) h =
      IsDead-Steps middle db' steps (IsDead-Step db middle step h)

  -- Once every token of a family is revoked, this holds after any sequence of refreshes, logouts and
  -- logins that draw other families; a token of the family is refused whenever it is used, as a
  -- reuse.
  pub family_stays_revoked :
      (db db' : Database)
      → Steps db db'
      → IsDead f db.tokens
      → IsDead f db'.tokens
        × ((raw_token : Text) (r : RefreshToken)
            → find_token (security.hash_refresh_token raw_token) db'.tokens ≡ some r
            → r.family_id ≡ f
            → (now : ℕ) (draws : Draws)
            → (refresh security db' raw_token now draws).1 ≡ raise refresh_reuse_detected)
  family_stays_revoked db db' steps h =
      let dead = IsDead-Steps db db' steps h in
      (
        dead,
        λ raw_token r found e now draws.
            let revoked =
              IsDead-find_token f (security.hash_refresh_token raw_token) db'.tokens r dead found
                e in
            ap (λ p. p.1) (refresh_used security db' raw_token now draws r found (ground arith)),
      )
