-- ===== src/RateLimit/Tests.antt =====
-- A limit of two in a minute.
use coldfi.Prelude.{◌+◌, ◌-◌, min, ◌≡◌, refl, none, some, [], List, ◌∷◌, arith}
use coldfi.RateLimit.Limiter.{Redis, RateLimitOptions, expire_fails, rate_limiter}
use coldfi.RateLimit.Windows.{Request, Windows, allowed, replies, replies-allowed}
use coldfi.RateLimit.Bounds.{passed, requests, window_passed, expire_fails-passed}

abbrev two_a_minute : RateLimitOptions
two_a_minute = record { window_seconds = 60; max_attempts = 2 }

abbrev no_keys : Redis
no_keys k = none

-- user 1 has seen one request in the window that opened at 1000
abbrev one_key : Redis
one_key k = some (record { count = 1; expires_at = some 61_000 })

abbrev one_window : Windows
one_window k = some (record { opened = 1000; seen = 1 })

abbrev mixed : List Request
mixed = (2000, 1) ∷ (3000, 1) ∷ (3500, 2) ∷ (70_000, 1) ∷ []

replies-allowed_example : replies two_a_minute mixed one_key ≡ allowed two_a_minute mixed one_window
replies-allowed_example =
    replies-allowed two_a_minute mixed one_key one_window (λ k. (refl, refl, omega arith))

window_passed_example :
    passed (replies two_a_minute (requests 1 (1000 ∷ 2000 ∷ 3000 ∷ [])) no_keys) ≡ min (1 + 2) 2
window_passed_example =
    window_passed two_a_minute 1 1000 (2000 ∷ 3000 ∷ []) (omega arith, (omega arith, tt))

expire_fails-passed_example :
    passed (
      replies two_a_minute
        (requests 1 (9_000_000 ∷ 99_000_000 ∷ []))
        (rate_limiter two_a_minute expire_fails 1000 1 no_keys).1)
    ≡ min 2 (2 - 1)
expire_fails-passed_example =
    expire_fails-passed two_a_minute 1 1000 (9_000_000 ∷ 99_000_000 ∷ []) no_keys refl
