-- ===== src/Auth/Tokens/Rotation.antt =====
-- A refresh token works once: what a second use of it does.
use etoeragcb.Base.{
  ℕ, true, ◌≡◌, refl, sym, Option, some, List, [], ◌∷◌, ◌++◌, All, arith, Bool-cases, inl, inr,
  text_keys, ◌==◌, same_self, nat_keys, subst, ◌||◌, false, leb, Option-cases, ap, ◌∙◌, Any,
  Any-append_right,
}
use etoeragcb.Base.Text.{Text}
use etoeragcb.Auth.Tokens.{
  RefreshToken, Database, Security, Draws, is_set, find_token, update_token, revoke_family, User,
  refresh, UserTenant, refresh_found, refresh_known, refresh_owned, TokenBundle, owner_of, ok,
  may_refresh, rotate, with_tokens, raise, refresh_reuse_detected, bundle_of,
}
use etoeragcb.Base.Result.{ok_injective}

-- Every token of the family is revoked.
abbrev pub IsDead : ℕ → List RefreshToken → Type 0
IsDead family_id = All (λ t. t.family_id ≡ family_id → is_set t.revoked_at ≡ true)

pub revoke_family-IsDead :
    (family_id now : ℕ) (ts : List RefreshToken) → IsDead family_id (revoke_family family_id now ts)
unfolding revoke_family is_set
revoke_family-IsDead family_id now [] = tt
revoke_family-IsDead family_id now (t ∷ ts) =
    (λ e. ground arith, revoke_family-IsDead family_id now ts)

-- A token with this digest is in the family and revoked.
abbrev pub IsRevokedIn : ℕ → Text → RefreshToken → Type 0
IsRevokedIn family_id hash t =
    (t.token_hash ≡ hash) × (t.family_id ≡ family_id) × (is_set t.revoked_at ≡ true)

revoke_family-IsRevokedIn :
    (family_id now : ℕ) (hash : Text) (ts : List RefreshToken)
    → Any (λ t. (t.token_hash ≡ hash) × (t.family_id ≡ family_id)) ts
    → Any (IsRevokedIn family_id hash) (revoke_family family_id now ts)
unfolding revoke_family is_set
revoke_family-IsRevokedIn family_id now hash [] h = elim h [ ]
revoke_family-IsRevokedIn family_id now hash (t ∷ ts) (inl (same, own)) =
    inl (ground arith, ground arith, ground arith)
revoke_family-IsRevokedIn family_id now hash (t ∷ ts) (inr h) =
    inr (revoke_family-IsRevokedIn family_id now hash ts h)

find_token-append :
    (hash : Text) (ts us : List RefreshToken) (r : RefreshToken)
    → find_token hash ts ≡ some r
    → find_token hash (ts ++ us) ≡ some r
unfolding find_token
find_token-append hash [] us r h = cc
find_token-append hash (t ∷ ts) us r h = ground (arith, find_token-append hash ts us r)

find_token-update :
    (hash : Text) (ts : List RefreshToken) (r : RefreshToken) (revoked replaced : Option ℕ)
    → find_token hash ts ≡ some r
    → find_token hash (update_token r.id revoked replaced ts)
      ≡ some (record r { revoked_at = revoked; replaced_by = replaced })
unfolding find_token update_token
find_token-update hash [] r revoked replaced h = cc
find_token-update hash (t ∷ ts) r revoked replaced h = elim (Bool-cases (t.token_hash == hash)) [
  | inl e ↦
      let same : r ≡ t = cc in
      subst
        (λ x.
          find_token hash (update_token x.id revoked replaced (t ∷ ts))
          ≡ some (record x { revoked_at = revoked; replaced_by = replaced }))
        (sym same) (rw (same_self t.id, e) refl)
  | inr e ↦ ground (arith, find_token-update hash ts r revoked replaced)
]

rotated-found :
    (security : Security) (db : Database) (hash : Text) (r : RefreshToken) (now : ℕ) (draws : Draws)
    (next : List RefreshToken)
    → find_token hash db.tokens ≡ some r
    → find_token hash (update_token r.id (some now) (some draws.token_id) db.tokens ++ next)
      ≡ some (record r { revoked_at = some now; replaced_by = some draws.token_id })
rotated-found security db hash r now draws next found =
    find_token-append hash _ next _
      (find_token-update hash db.tokens r (some now) (some draws.token_id) found)

module _ (security : Security) where
  -- What holds where a refresh returns tokens.
  pub record IsRotation (db : Database) (raw_token : Text) (now : ℕ) (draws : Draws)
      (db' : Database) : Type 0 where
    pub old : RefreshToken
    pub user : User
    pub membership : UserTenant
    pub found : find_token (security.hash_refresh_token raw_token) db.tokens ≡ some old
    pub usable : (is_set old.revoked_at || is_set old.replaced_by) ≡ false
    pub in_time : leb old.expires_at now ≡ false
    pub owned : owner_of db old ≡ some (user, membership)
    pub allowed : may_refresh user ≡ true
    pub rotated : db' ≡ (rotate security db old user membership now draws).0

  pub refresh_returned :
      (db db' : Database) (raw_token : Text) (now : ℕ) (draws : Draws) (bundle : TokenBundle)
      → refresh security db raw_token now draws ≡ (db', ok bundle)
      → IsRotation db raw_token now draws db'
  unfolding refresh refresh_found refresh_known refresh_owned
  refresh_returned db db' raw_token now draws bundle h =
      elim (Option-cases (find_token (security.hash_refresh_token raw_token) db.tokens)) [
        | inl missing ↦ absurd (ground arith)
        | inr (r, found) ↦ elim (Bool-cases (is_set r.revoked_at || is_set r.replaced_by)) [
          | inl used ↦ absurd (ground arith)
          | inr usable ↦ elim (Bool-cases (leb r.expires_at now)) [
            | inl late ↦ absurd (ground arith)
            | inr in_time ↦ elim (Option-cases (owner_of db r)) [
              | inl nobody ↦ absurd (ground arith)
              | inr ((user, membership), owned) ↦ elim (Bool-cases (may_refresh user)) [
                | inr refused ↦ absurd (ground arith)
                | inl allowed ↦ record {
                  old = r;
                  user = user;
                  membership = membership;
                  found = found;
                  usable = usable;
                  in_time = in_time;
                  owned = owned;
                  allowed = allowed;
                  rotated = sym (ap (λ p. p.0) (rw (found, usable, in_time, owned, allowed) at h));
                }
              ]
            ]
          ]
        ]
      ]

  pub refresh_succeeds :
      (db : Database) (raw_token : Text) (now : ℕ) (draws : Draws) (r : RefreshToken) (user : User)
      (membership : UserTenant)
      → find_token (security.hash_refresh_token raw_token) db.tokens ≡ some r
      → (is_set r.revoked_at || is_set r.replaced_by) ≡ false
      → leb r.expires_at now ≡ false
      → owner_of db r ≡ some (user, membership)
      → may_refresh user ≡ true
      → (refresh security db raw_token now draws).1
        ≡ ok (bundle_of security user membership now draws)
  unfolding refresh refresh_found refresh_known refresh_owned rotate
  refresh_succeeds db raw_token now draws r user membership found usable in_time owned allowed =
      rw (found, usable, in_time, owned, allowed) refl

  -- A token that was used or revoked.
  pub refresh_used :
      (db : Database) (raw_token : Text) (now : ℕ) (draws : Draws) (r : RefreshToken)
      → find_token (security.hash_refresh_token raw_token) db.tokens ≡ some r
      → (is_set r.revoked_at || is_set r.replaced_by) ≡ true
      → refresh security db raw_token now draws
        ≡ (with_tokens db (revoke_family r.family_id now db.tokens), raise refresh_reuse_detected)
  unfolding refresh refresh_found refresh_known
  refresh_used db raw_token now draws r found used = rw (found, used) refl

  -- The token that a rotation stores.
  new_token-found :
      (db db' : Database) (raw_token : Text) (now : ℕ) (draws : Draws) (bundle : TokenBundle)
      → refresh security db raw_token now draws ≡ (db', ok bundle)
      → (w : IsRotation db raw_token now draws db')
      → Any
          (λ t.
            (t.token_hash ≡ security.hash_refresh_token bundle.refresh_token)
            × (t.family_id ≡ w.old.family_id))
          db'.tokens
  unfolding rotate
  new_token-found db db' raw_token now draws bundle h w =
      let drawn : bundle ≡ bundle_of security w.user w.membership now draws = ok_injective _ _ (
        sym (ap (λ p. p.1) h)
        ∙ refresh_succeeds db raw_token now draws w.old w.user w.membership w.found w.usable
            w.in_time w.owned w.allowed) in
      let P : Text → RefreshToken → Type 0 = λ raw t.
        (t.token_hash ≡ security.hash_refresh_token raw) × (t.family_id ≡ w.old.family_id) in
      subst (λ b. Any (P b.refresh_token) db'.tokens) (sym drawn)
        (subst (λ d. Any (P draws.raw_token) d.tokens) (sym w.rotated)
          (Any-append_right (P draws.raw_token)
            (update_token w.old.id (some now) (some draws.token_id) db.tokens) _
            (inl (refl, refl))))

  -- A refresh token that was exchanged for new tokens is refused whenever it is used again, as a
  -- reuse, and this revokes every token of its family. The refresh token that it was exchanged for is
  -- one of the family, and is stored revoked.
  pub reuse_revokes_family :
      (db db' : Database) (raw_token : Text) (now : ℕ) (draws : Draws) (bundle : TokenBundle)
      → refresh security db raw_token now draws ≡ (db', ok bundle)
      → (later : ℕ) (draws' : Draws)
      → let again = refresh security db' raw_token later draws' in
        (again.1 ≡ raise refresh_reuse_detected)
        × (old : RefreshToken) × (find_token (security.hash_refresh_token raw_token) db.tokens
            ≡ some old)
        × IsDead old.family_id again.0.tokens
        × Any
            (IsRevokedIn old.family_id (security.hash_refresh_token bundle.refresh_token))
            again.0.tokens
  unfolding is_set rotate
  reuse_revokes_family db db' raw_token now draws bundle h later draws' =
      let w = refresh_returned db db' raw_token now draws bundle h in
      let family = w.old.family_id in
      let hash = security.hash_refresh_token raw_token in
      let new_hash = security.hash_refresh_token bundle.refresh_token in
      let old' = record w.old { revoked_at = some now; replaced_by = some draws.token_id } in
      let found' : find_token hash db'.tokens ≡ some old' =
        ap (λ d. find_token hash d.tokens) w.rotated
        ∙ rotated-found security db _ w.old now draws _ w.found in
      let again = refresh_used db' raw_token later draws' old' found' refl in
      (
        ap (λ p. p.1) again,
        w.old,
        w.found,
        subst (λ p. IsDead family p.0.tokens) (sym again)
            (revoke_family-IsDead family later db'.tokens),
        subst (λ p. Any (IsRevokedIn family new_hash) p.0.tokens) (sym again)
            (revoke_family-IsRevokedIn family later new_hash db'.tokens
              (new_token-found db db' raw_token now draws bundle h w)),
      )
