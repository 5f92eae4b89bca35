-- ===== src/Account/Challenge.antt =====
-- A two-factor session answers once.
use coldfi.Prelude.{
  ℕ, ◌==◌, ◌≡◌, refl, ap, ◌∙◌, not, none, List, [], ◌∷◌, find, select, arith, Option-cases, inl,
  inr,
}
use coldfi.Database.{err}
use coldfi.Token.State.{TempToken, World, temp_token_expired}
use coldfi.Token.Restrictions.{assert_user_not_restricted}
use coldfi.Token.Service.{Config, Draw, generate_tokens}
use coldfi.Account.TwoFactor.{Totp, is_temp, get_temp_token, answer_challenge, verify_2fa_login}

abbrev others : ℕ → List TempToken → List TempToken
others token ts = select (λ (t : TempToken). not (t.token == token)) ts

find-others :
    (now token : ℕ) (ts : List TempToken) → find (is_temp now token) (others token ts) ≡ none
find-others now token [] = refl
find-others now token (t ∷ ts) = ground (arith, find-others now token ts)

answer_challenge-temp_tokens :
    (totp : Totp) (cfg : Config) (draw : Draw) (code : ℕ) (t : TempToken) (w : World)
    → (answer_challenge totp cfg draw code t w).1.temp_tokens ≡ w.temp_tokens
unfolding answer_challenge assert_user_not_restricted generate_tokens
answer_challenge-temp_tokens totp cfg draw code t w = ground arith

consumed :
    (totp : Totp) (cfg : Config) (draw : Draw) (token code : ℕ) (w : World)
    → (verify_2fa_login totp cfg draw token code w).1.temp_tokens ≡ others token w.temp_tokens
unfolding verify_2fa_login get_temp_token
consumed totp cfg draw token code w =
    elim (Option-cases (find (is_temp draw.now token) w.temp_tokens)) [
      | inl e ↦ rw e refl
      | inr (t, e) ↦ rw e (
          answer_challenge-temp_tokens totp cfg draw code t
            (record w { temp_tokens = others token w.temp_tokens }))
    ]

refused :
    (totp : Totp) (cfg : Config) (draw : Draw) (token code : ℕ) (w : World)
    → find (is_temp draw.now token) w.temp_tokens ≡ none
    → (verify_2fa_login totp cfg draw token code w).0 ≡ err temp_token_expired
unfolding verify_2fa_login get_temp_token
refused totp cfg draw token code w e = rw e refl

-- However the first call of `verify2FALogin` with a session token ends, each later call with that
-- token, whatever the code, is refused with ERR_TEMP_TOKEN_EXPIRED: one challenge, one guess.
pub verify_2fa_login-single_use :
    (totp : Totp) (cfg : Config) (draw later : Draw) (token code next : ℕ) (w : World)
    → (verify_2fa_login totp cfg later token next (verify_2fa_login totp cfg draw token code w).1).0
      ≡ err temp_token_expired
verify_2fa_login-single_use totp cfg draw later token code next w =
    refused totp cfg later token next (verify_2fa_login totp cfg draw token code w).1 (
      ap (find (is_temp later.now token)) (consumed totp cfg draw token code w)
      ∙ find-others later.now token w.temp_tokens)
