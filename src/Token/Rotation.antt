-- ===== src/Token/Rotation.antt =====
-- Rotation: what a successful `refreshAccessToken` does to the token it was given.
use coldfi.Prelude.{
  ℕ, ltb, ◌≡◌, refl, ap, sym, ◌∙◌, ◌==◌, false, none, some, List, [], ◌∷◌, ◌++◌, inl, inr,
  Bool-cases, Option-cases, find, arith,
}
use coldfi.Database.{ok, err, transaction_on, transaction_on-ok, bind-ok, bind-err, Outcome-cases}
use coldfi.Token.State.{find_user, RefreshToken, World, token_reused, restore_db, find_token}
use coldfi.Token.Restrictions.{assert_user_not_restricted, assert_user_not_restricted-db}
use coldfi.Token.Service.{
  Config, Draw, TokenPair, refresh_body, refresh_access_token, use_token, lost_race, reused,
  generate_tokens, new_token, revoke_where,
}
use coldfi.Token.Reuse.{refresh_access_token-reused}

-- The token with a live row is found again, revoked, after its row was revoked by id.
find-revoke_where :
    (now hash : ℕ) (ts more : List RefreshToken) {t : RefreshToken}
    → find (λ (u : RefreshToken). u.token_hash == hash) ts ≡ some t
    → t.revoked_at ≡ none
    → find
        (λ (u : RefreshToken). u.token_hash == hash)
        (revoke_where now (λ u. u.id == t.id) ts ++ more)
      ≡ some (record t { revoked_at = some now })
find-revoke_where now hash [] more found live = cc
find-revoke_where now hash (u ∷ ts) more {t} found live =
    let ih = find-revoke_where now hash ts more {t = t} in
    elim (Bool-cases (u.token_hash == hash)) [
      | inl hit ↦ ground arith
      | inr miss ↦ ground (arith, ih)
    ]

-- A call that returns found a live token, and its row is the one it revoked.
use_token-returns :
    (now : ℕ) (t : RefreshToken) (w w' : World) {user : ℕ}
    → use_token now t w ≡ (ok user, w')
    → (user ≡ t.user_id)
      × (w'.db.tokens ≡ revoke_where now (λ u. u.id == t.id) w.db.tokens)
      × (ltb t.expires_at now ≡ false)
unfolding use_token lost_race
use_token-returns now t w w' {user} h =
    elim (Outcome-cases (assert_user_not_restricted now t.user_id w)) [
      | inl (u, s, k) ↦
          let rows = λ (x : World). revoke_where now (λ u. u.id == t.id) x.db.tokens in
          let same : rows s ≡ rows w =
            ap rows (sym (ap (λ r. r.1) k))
            ∙ ap (λ d. revoke_where now (λ u. u.id == t.id) d.tokens)
                (assert_user_not_restricted-db now t.user_id w) in
          let ran : w'.db.tokens ≡ rows s = ground arith in (ground arith, ran ∙ same, ground arith)
      | inr (f, s, k) ↦ ground arith
    ]

refresh_body-returns :
    (now hash : ℕ) (w w' : World) {user : ℕ}
    → refresh_body now hash w ≡ (ok user, w')
    → (t : RefreshToken) × (find_token hash w.db ≡ some t)
      × (t.revoked_at ≡ none)
      × (use_token now t w ≡ (ok user, w'))
unfolding refresh_body reused
refresh_body-returns now hash w w' {user} h = elim (Option-cases (find_token hash w.db)) [
  | inl missing ↦ ground arith
  | inr (t, there) ↦ elim (Option-cases t.revoked_at) [
    | inl live ↦ (t, there, live, ground arith)
    | inr (at, revoked) ↦ ground arith
  ]
]

generate_tokens-stores :
    (cfg : Config) (draw : Draw) (user : ℕ) (s w' : World) {pair : TokenPair}
    → generate_tokens cfg draw user s ≡ (ok pair, w')
    → w'.db.tokens ≡ s.db.tokens ++ (new_token cfg draw user ∷ [])
unfolding generate_tokens
generate_tokens-stores cfg draw user s w' h = elim (Option-cases (find_user user s.db)) [
  | inl missing ↦ ground arith
  | inr (u, found) ↦ ground arith
]

-- A refresh token is good for one refresh: once `refreshAccessToken` has returned, the same token
-- is refused with ERR_TOKEN_REUSED, at any later time, and that call changes nothing.
pub refresh_access_token-single_use :
    (cfg : Config) (draw later : Draw) (token : ℕ) (w w' : World) {pair : TokenPair}
    → refresh_access_token cfg draw token w ≡ (ok pair, w')
    → refresh_access_token cfg later token w' ≡ (err token_reused, w')
unfolding refresh_access_token
refresh_access_token-single_use cfg draw later token w w' {pair} h =
    let hash = cfg.hash_token token in
    let body = transaction_on restore_db (refresh_body draw.now hash) in
    elim (Outcome-cases (body w)) [
      | inl (user, s, k) ↦
          let (t, there, live, used) =
            refresh_body-returns draw.now hash w s
              (transaction_on-ok restore_db (refresh_body draw.now hash) w k) in
          let (who, rows, fresh) = use_token-returns draw.now t w s used in
          let after = bind-ok body (generate_tokens cfg draw) w k in
          let stored = generate_tokens-stores cfg draw user s w' (sym after ∙ h) in
          let revoked =
            find-revoke_where draw.now hash w.db.tokens (new_token cfg draw user ∷ []) there live in
          refresh_access_token-reused cfg later token w'
            (ap (find (λ (u : RefreshToken). u.token_hash == hash))
                (stored ∙ ap (λ ts. ts ++ (new_token cfg draw user ∷ [])) rows)
              ∙ revoked)
            refl
      | inr (e, s, k) ↦
          let stops = ap (λ r. r.0) (sym h ∙ bind-err body (generate_tokens cfg draw) w k) in cc
    ]
