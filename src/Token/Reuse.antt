-- ===== src/Token/Reuse.antt =====
-- Reuse: what `refreshAccessToken` leaves behind when it refuses, and when the token was revoked.
use coldfi.Prelude.{ℕ, ◌≡◌, ◌≢◌, ap, sym, ◌∙◌, some, Option-cases, inl, inr, arith}
use coldfi.Database.{err, transaction_on, transaction_on-err, bind-ok, bind-err, Outcome-cases}
use coldfi.Token.State.{
  RefreshToken, World, Error, token_reused, foreign_key_violation, restore_db, find_token,
  find_user,
}
use coldfi.Token.Service.{Config, Draw, refresh_body, refresh_access_token, reused, generate_tokens}

-- the pair of tokens fails only for a user that does not exist
generate_tokens-err :
    (cfg : Config) (draw : Draw) (user : ℕ) (w : World) {e : Error}
    → (generate_tokens cfg draw user w).0 ≡ err e
    → e ≡ foreign_key_violation
unfolding generate_tokens
generate_tokens-err cfg draw user w h = elim (Option-cases (find_user user w.db)) [
  | inl missing ↦ ground arith
  | inr (u, found) ↦ ground arith
]

-- A refresh that is refused, and does not fail on a user that was deleted meanwhile, leaves the
-- database as it was; only the cache of restrictions may differ.
pub refresh_access_token-refused :
    (cfg : Config) (draw : Draw) (token : ℕ) (w : World) {e : Error}
    → (refresh_access_token cfg draw token w).0 ≡ err e
    → e ≢ foreign_key_violation
    → (refresh_access_token cfg draw token w).1.db ≡ w.db
unfolding refresh_access_token
refresh_access_token-refused cfg draw token w {e} h other =
    let body = transaction_on restore_db (refresh_body draw.now (cfg.hash_token token)) in
    elim (Outcome-cases (body w)) [
      | inl (u, s, k) ↦
          let after = bind-ok body (generate_tokens cfg draw) w k in
          absurd (other (generate_tokens-err cfg draw u s (ap (λ r. r.0) (sym after) ∙ h)))
      | inr (f, s, k) ↦
          let stops = bind-err body (generate_tokens cfg draw) w k in
          let (t, rolled) =
            transaction_on-err restore_db (refresh_body draw.now (cfg.hash_token token)) w
              (ap (λ r. r.0) k) in
          ap (λ r. r.1.db) stops ∙ ap (λ r. r.1.db) (sym k ∙ rolled)
    ]

-- A refresh token that is already revoked is refused with ERR_TOKEN_REUSED and changes nothing, whenever it was
-- revoked: the revocation of the user's other tokens is rolled back with the transaction.
pub refresh_access_token-reused :
    (cfg : Config) (draw : Draw) (token : ℕ) (w : World) {t : RefreshToken} {at : ℕ}
    → find_token (cfg.hash_token token) w.db ≡ some t
    → t.revoked_at ≡ some at
    → refresh_access_token cfg draw token w ≡ (err token_reused, w)
unfolding refresh_access_token transaction_on refresh_body reused
refresh_access_token-reused cfg draw token w {t} {at} found revoked = ground arith
