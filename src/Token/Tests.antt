-- ===== src/Token/Tests.antt =====
-- Concrete inputs for the theorems on tokens: user 1 with two live tokens, user 2 with one.
use coldfi.Prelude.{ℕ, ◌≡◌, refl, Option, none, some, [], ◌∷◌}
use coldfi.ServerKeys.Sample.{sample_keys}
use coldfi.Database.{err}
use coldfi.Token.State.{RefreshToken, Kind, World, token_reused}
use coldfi.Token.Restrictions.{assert_user_not_restricted, get_active_restrictions}
use coldfi.Token.Service.{Config, Draw, generate_tokens, refresh_access_token, pair_of, blank_user}
use coldfi.Token.Rotation.{refresh_access_token-single_use}
use coldfi.Token.Reuse.{refresh_access_token-reused}

abbrev cfg : Config
cfg = record {
  hash_token = λ t. t;
  sign = λ user role. role;
  server_keys = sample_keys;
  refresh_seconds = 1000;
  access_seconds = 900;
}

abbrev draw : Draw
draw = record { now = 200_000; token_id = 14; refresh_token = 74 }

abbrev token_of : ℕ → ℕ → ℕ → Option ℕ → RefreshToken
token_of id user hash revoked = record {
  id = id;
  user_id = user;
  token_hash = hash;
  expires_at = 900_000;
  revoked_at = revoked;
  created_at = 0;
}

abbrev world : World
world = record {
  db = record {
    users = blank_user 1 ∷ blank_user 2 ∷ [];
    tokens =
        token_of 11 1 71 none
        ∷ token_of 12 1 72 none
        ∷ token_of 13 2 73 none
        ∷ token_of 10 1 70 (some 5)
        ∷ [];
    restrictions =
        record { user_id = 2; kind = Kind.banned; expires_at = none; lifted_at = none } ∷ [];
    activity = [];
  };
  cache = [];
  temp_tokens = [];
}

abbrev refreshed : World
refreshed = (refresh_access_token cfg draw 71 world).1

refresh_access_token-single_use_example :
    refresh_access_token cfg (record draw { now = 300_000 }) 71 refreshed
    ≡ (err token_reused, refreshed)
unfolding refresh_access_token generate_tokens assert_user_not_restricted get_active_restrictions
refresh_access_token-single_use_example =
    refresh_access_token-single_use cfg draw (record draw { now = 300_000 }) 71 world refreshed
      {pair = pair_of cfg draw 1 (blank_user 1)} refl

refresh_access_token-reused_example :
    refresh_access_token cfg draw 70 world ≡ (err token_reused, world)
refresh_access_token-reused_example =
    refresh_access_token-reused cfg draw 70 world {t = token_of 10 1 70 (some 5)} refl refl
