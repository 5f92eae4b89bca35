-- ===== src/RateLimit/Limiter.antt =====
-- `createRateLimiter` of packages/backend/src/middleware/rateLimiter.ts. A key of Redis is a
-- number, and holds a counter with the time at which it expires, in milliseconds; each call of
-- Redis may fail.
use coldfi.Prelude.{
  ℕ, ◌+◌, ◌-◌, ◌*◌, ◌/◌, ltb, leb, ◌==◌, Bool, true, false, Option, none, some, if◌then◌else◌,
}

pub record Counter : Type 0 where
  pub count : ℕ
  -- none without a time to live
  pub expires_at : Option ℕ

abbrev pub Redis : Type 0
Redis = ℕ → Option Counter

pub record RateLimitOptions : Type 0 where
  pub window_seconds : ℕ
  pub max_attempts : ℕ

-- which call of Redis fails
pub data Fault : Type 0 where
  healthy unavailable incr_fails expire_fails ttl_fails : Fault

pub data Reply : Type 0 where
  -- the request goes on, without headers
  pass : Reply
  -- it goes on, with the attempts that remain
  pass_with : ℕ → Reply
  -- 429, with the seconds to wait; none is the -1 of a key without a time to live
  limited : Option ℕ → Reply

abbrev pub set_key : ℕ → Option Counter → Redis → Redis
set_key key c redis k = if k == key then c else redis k

-- a key that has expired is gone
abbrev pub is_gone : ℕ → Option ℕ → Bool
is_gone now none = false
is_gone now (some t) = leb t now

abbrev pub live : ℕ → Option Counter → Option Counter
live now none = none
live now (some c) = if is_gone now c.expires_at then none else some c

abbrev pub incremented : Option Counter → Counter
incremented none = record { count = 1; expires_at = none }
incremented (some c) = record c { count = c.count + 1 }

-- `redis.incr`
unfoldable pub incr : ℕ → ℕ → Redis → ℕ × Redis
incr now key redis =
    let c = incremented (live now (redis key)) in (c.count, set_key key (some c) redis)

abbrev pub with_expiry : ℕ → Option Counter → Option Counter
with_expiry t none = none
with_expiry t (some c) = some record c { expires_at = some t }

-- `redis.expire`
unfoldable pub expire : ℕ → ℕ → ℕ → Redis → Redis
expire now key seconds redis = set_key key (with_expiry (now + seconds * 1000) (redis key)) redis

abbrev pub seconds_left : ℕ → Option Counter → Option ℕ
seconds_left now none = none
seconds_left now (some c) = elim c.expires_at [
  | none ↦ none
  | some t ↦ some ((t - now + 500) / 1000)
]

abbrev pub fails_at_expire : Fault → Bool
fails_at_expire expire_fails = true
fails_at_expire _ = false

abbrev pub fails_at_ttl : Fault → Bool
fails_at_ttl ttl_fails = true
fails_at_ttl _ = false

module _ (options : RateLimitOptions) where
  -- from the test of `current > maxAttempts` on
  unfoldable pub answer : Fault → ℕ → ℕ → ℕ → Redis → Reply
  answer fault now key current redis =
      if ltb options.max_attempts current
      then (if fails_at_ttl fault then pass else limited (seconds_left now (redis key)))
      else pass_with (options.max_attempts - current)

  -- from the test of `current === 1` on; an error of Redis lets the request pass
  unfoldable pub after_incr : Fault → ℕ → ℕ → ℕ → Redis → Reply × Redis
  unfolding expire answer
  after_incr fault now key current redis =
      let expiring = expire now key options.window_seconds redis in
      if current == 1
      then (if fails_at_expire fault
          then (pass, redis)
          else (answer fault now key current expiring, expiring))
      else (answer fault now key current redis, redis)

  unfoldable pub rate_limiter : Fault → ℕ → ℕ → Redis → Reply × Redis
  unfolding incr after_incr
  rate_limiter unavailable now key redis = (pass, redis)
  rate_limiter incr_fails now key redis = (pass, redis)
  rate_limiter fault now key redis =
      let (current, after) = incr now key redis in after_incr fault now key current after
