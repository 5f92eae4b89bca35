-- ===== src/Token/Revocation.antt =====
-- Revocation: `revokeAllUserTokens`, `logoutUser` and `logoutAllDevices`.
use coldfi.Prelude.{
  ℕ, ◌==◌, ◌≡◌, refl, ap, ◌∙◌, Bool, true, false, not, ◌&&◌, some, List, [], ◌∷◌, select, length,
  arith, Bool-cases, inl, inr,
}
use coldfi.Database.{ok}
use coldfi.Token.State.{RefreshToken, logout_all, World, is_live}
use coldfi.Token.Service.{
  Config, revoke_where, is_of, revoke_user, revoke_all_user_tokens, logout_user, logout_all_devices,
}

-- how many live tokens pass a test
abbrev pub live : (RefreshToken → Bool) → List RefreshToken → ℕ
live p ts = length (select (λ t. p t && is_live t) ts)

-- The update revokes what it selects, and no more.
pub revoke_where-live :
    (now : ℕ) (p : RefreshToken → Bool) (ts : List RefreshToken)
    → ((t : RefreshToken) → p (record t { revoked_at = some now }) ≡ p t)
    → live p (revoke_where now p ts) ≡ 0
revoke_where-live now p [] same = refl
revoke_where-live now p (t ∷ ts) same =
    let ih = revoke_where-live now p ts same in
    let s = same t in
    elim (Bool-cases (p t)) [
      | inr no_p ↦ rw (no_p, no_p) ih
      | inl has_p ↦ elim (Bool-cases (is_live t)) [
        | inr dead ↦ rw (has_p, dead, has_p, dead) ih
        | inl lives ↦ rw (has_p, lives, s ∙ has_p) ih
      ]
    ]

-- A test that leaves all the live tokens alone keeps them.
revoke_where-other :
    (now : ℕ) (p q : RefreshToken → Bool) (ts : List RefreshToken)
    → ((t : RefreshToken) → q (record t { revoked_at = some now }) ≡ q t)
    → ((t : RefreshToken) → q t ≡ true → p t ≡ false)
    → select q (revoke_where now p ts) ≡ select q ts
revoke_where-other now p q [] same apart = refl
revoke_where-other now p q (t ∷ ts) same apart =
    let ih = revoke_where-other now p q ts same apart in
    let s = same t in
    let a = apart t in
    elim (Bool-cases (q t)) [
      | inl has_q ↦ rw (a has_q, has_q) (ap (λ us. t ∷ us) ih)
      | inr no_q ↦ elim (Bool-cases (p t && is_live t)) [
        | inl hit ↦ rw (hit, s ∙ no_q, no_q) ih
        | inr miss ↦ rw (miss, no_q) ih
      ]
    ]

-- After `revokeAllUserTokens` no refresh token of the user is live, and what is stored of another
-- user's tokens is unchanged.
pub revoke_all_user_tokens-live :
    (now user other : ℕ) (w : World)
    → (other == user) ≡ false
    → (w' : World) × (revoke_all_user_tokens now user w ≡ (ok tt, w'))
      × (live (is_of user) w'.db.tokens ≡ 0)
      × (select (is_of other) w'.db.tokens ≡ select (is_of other) w.db.tokens)
unfolding revoke_all_user_tokens
revoke_all_user_tokens-live now user other w h = (
  revoke_user now user w,
  refl,
  revoke_where-live now (is_of user) w.db.tokens (λ t. refl),
  revoke_where-other now (is_of user) (is_of other) w.db.tokens (λ t. refl) (λ t k. ground arith),
)

-- `logoutAllDevices` leaves no live token of the user, returns how many there were, and records
-- that number in the activity log.
pub logout_all_devices-live :
    (now user : ℕ) (w : World)
    → (w' : World) × (logout_all_devices now user w ≡ (ok (live (is_of user) w.db.tokens), w'))
      × (live (is_of user) w'.db.tokens ≡ 0)
      × (w'.db.activity ≡ logout_all user now (live (is_of user) w.db.tokens) ∷ w.db.activity)
unfolding logout_all_devices
logout_all_devices-live now user w =
    (_, refl, revoke_where-live now (is_of user) w.db.tokens (λ t. refl), refl)

-- After `logoutUser` no row of the user's with the given token is live, and the user's other tokens
-- are unchanged.
pub logout_user-live :
    (cfg : Config) (now user token : ℕ) (w : World)
    → let used = λ (t : RefreshToken). is_of user t && t.token_hash == cfg.hash_token token in
      (w' : World) × (logout_user cfg now user token w ≡ (ok tt, w'))
      × (live used w'.db.tokens ≡ 0)
      × (select (λ t. not (used t)) w'.db.tokens ≡ select (λ t. not (used t)) w.db.tokens)
unfolding logout_user
logout_user-live cfg now user token w =
    let used = λ (t : RefreshToken). is_of user t && t.token_hash == cfg.hash_token token in
    (
      _,
      refl,
      revoke_where-live now used w.db.tokens (λ t. refl),
      revoke_where-other now used (λ t. not (used t)) w.db.tokens (λ t. refl) (λ t k. ground arith),
    )
