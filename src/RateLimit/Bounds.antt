-- ===== src/RateLimit/Bounds.antt =====
-- How many requests pass: at most the limit in a window, and at most the limit for good where the
-- first request of a window met a failure of Redis.
use coldfi.Prelude.{
  ℕ, suc, ◌+◌, ◌-◌, ◌<◌, min, leb, ==_refl, ◌≡◌, refl, ap, ◌∙◌, Bool, none, some, List, [], ◌∷◌,
  map, length, All, if◌then◌else◌, arith, Bool-cases, inl, inr,
}
use coldfi.RateLimit.Limiter.{
  Counter, Redis, RateLimitOptions, healthy, expire_fails, incr, after_incr, rate_limiter,
}
use coldfi.RateLimit.Windows.{
  Window, Windows, put, Request, length_ms, next_window, allowed, replies, entry_after,
  rate_limiter-entry, rate_limiter-allowed, replies-allowed,
}

abbrev pub passed : List Bool → ℕ
passed [] = 0
passed (b ∷ bs) = let rest = passed bs in if b then suc rest else rest

-- requests with one key
abbrev pub requests : ℕ → List ℕ → List Request
requests key = map (λ t. (t, key))

-- one request more in a window that has seen some
count_step :
    (seen limit len rest : ℕ) (b : Bool)
    → b ≡ leb (seen + 1) limit
    → rest ≡ min len (limit - (seen + 1))
    → (if b then suc rest else rest) ≡ min (suc len) (limit - seen)
count_step seen limit len rest b e h = elim (Bool-cases (leb (seen + 1) limit)) [
  | inl t ↦ ground arith
  | inr f ↦ ground arith
]

first_counts : (len limit : ℕ) → min (suc len) (limit - 0) ≡ min (1 + len) limit
first_counts len limit = omega arith

module _ (options : RateLimitOptions) (key : ℕ) where
  in_window :
      (ts : List ℕ) (w : Window) (windows : Windows)
      → windows key ≡ some w
      → All (λ t. t < w.opened + length_ms options) ts
      → passed (allowed options (requests key ts) windows)
        ≡ min (length ts) (options.max_attempts - w.seen)
  unfolding allowed
  in_window [] w windows e h = omega arith
  in_window (t ∷ ts) w windows e (before, h) =
      let next : next_window options t (some w) ≡ record w { seen = w.seen + 1 } = ground arith in
      let there : put key (next_window options t (windows key)) windows key
          ≡ some (record w { seen = w.seen + 1 }) =
        rw (==_refl key, e, next) refl in
      let rest =
        in_window ts (record w { seen = w.seen + 1 })
          (put key (next_window options t (windows key)) windows) there h in
      let now : next_window options t (windows key) ≡ record w { seen = w.seen + 1 } =
        rw (e, next) refl in
      count_step w.seen options.max_attempts (length ts) _ _
        (ap (λ (v : Window). leb v.seen options.max_attempts) now) rest

  -- From an empty Redis, of the requests with one key that come before the window of the first has
  -- ended, exactly the first `maxAttempts` pass, as long as Redis answers.
  pub window_passed :
      (first : ℕ) (ts : List ℕ)
      → All (λ t. t < first + length_ms options) ts
      → passed (replies options (requests key (first ∷ ts)) (λ _. none))
        ≡ min (1 + length ts) options.max_attempts
  unfolding allowed
  window_passed first ts h =
      let same =
        replies-allowed options (requests key (first ∷ ts)) (λ _. none) (λ _. none) (λ k. tt) in
      let w : Window = record { opened = first; seen = 1 } in
      let rest = in_window ts w (put key w (λ _. none)) (rw (==_refl key) refl) h in
      ap passed same
      ∙ count_step 0 options.max_attempts (length ts) _ _ refl rest
      ∙ first_counts (length ts) options.max_attempts

  stuck :
      (n : ℕ) (ts : List ℕ) (redis : Redis)
      → 0 < n
      → redis key ≡ some (record { count = n; expires_at = none })
      → passed (replies options (requests key ts) redis)
        ≡ min (length ts) (options.max_attempts - n)
  unfolding replies
  stuck n [] redis some_ e = omega arith
  stuck n (t ∷ ts) redis some_ e =
      let c : Counter = record { count = n + 1; expires_at = none } in
      let after : entry_after options t (redis key) ≡ c = ground arith in
      let entry : (rate_limiter options healthy t key redis).1 key ≡ some c =
        rate_limiter-entry options t key key redis ∙ rw (==_refl key) (ap some after) in
      count_step n options.max_attempts (length ts) _ _
        (rate_limiter-allowed options t key redis
          ∙ ap (λ (v : Counter). leb v.count options.max_attempts) after)
        (stuck (n + 1) ts (rate_limiter options healthy t key redis).1 (omega arith) entry)

  -- Where nobody holds the key and `expire` fails after the first `incr`, the key has no time to
  -- live: of all later requests with the key, whenever they come and though Redis answers them,
  -- exactly the first `maxAttempts - 1` pass, and none after those.
  pub expire_fails-passed :
      (now : ℕ) (ts : List ℕ) (redis : Redis)
      → redis key ≡ none
      → passed
          (replies options (requests key ts) (rate_limiter options expire_fails now key redis).1)
        ≡ min (length ts) (options.max_attempts - 1)
  unfolding rate_limiter incr after_incr
  expire_fails-passed now ts redis e =
      let after = (rate_limiter options expire_fails now key redis).1 in
      let entry : after key ≡ some (record { count = 1; expires_at = none }) = ground arith in
      stuck 1 ts after (omega arith) entry
