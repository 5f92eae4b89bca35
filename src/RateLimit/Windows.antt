-- ===== src/RateLimit/Windows.antt =====
-- What a limiter promises: windows that open with the first request after the last one has ended,
-- and count the requests in them. `rate_limiter` refines it.
use coldfi.Prelude.{
  ℕ, ◌<◌, ==_refl, ◌+◌, ◌*◌, leb, ◌==◌, ◌≡◌, refl, ap, ◌∙◌, Bool, true, false, Option, none, some,
  List, [], ◌∷◌, if◌then◌else◌, arith, Bool-cases, inl, inr,
}
use coldfi.RateLimit.Limiter.{
  Counter, Redis, RateLimitOptions, healthy, Reply, limited, set_key, live, incremented, incr,
  expire, answer, after_incr, rate_limiter,
}

pub record Window : Type 0 where
  pub opened : ℕ
  pub seen : ℕ

abbrev pub Windows : Type 0
Windows = ℕ → Option Window

abbrev pub is_allowed : Reply → Bool
is_allowed (limited seconds) = false
is_allowed _ = true

-- a request of somebody, and its time
abbrev pub Request : Type 0
Request = ℕ × ℕ

abbrev pub put : ℕ → Window → Windows → Windows
put key w windows k = if k == key then some w else windows k

module _ (options : RateLimitOptions) where
  abbrev pub length_ms : ℕ
  length_ms = options.window_seconds * 1000

  -- the window that a request at a time falls in
  abbrev pub next_window : ℕ → Option Window → Window
  next_window now none = record { opened = now; seen = 1 }
  next_window now (some w) =
      if leb (w.opened + length_ms) now
      then record { opened = now; seen = 1 }
      else record w { seen = w.seen + 1 }

  -- the requests, in their order: which are allowed
  unfoldable pub allowed : List Request → Windows → List Bool
  allowed [] windows = []
  allowed ((now, key) ∷ rs) windows =
      let w = next_window now (windows key) in
      leb w.seen options.max_attempts ∷ allowed rs (put key w windows)

  -- the same requests to the limiter
  unfoldable pub replies : List Request → Redis → List Bool
  replies [] redis = []
  replies ((now, key) ∷ rs) redis =
      let r = rate_limiter options healthy now key redis in is_allowed r.0 ∷ replies rs r.1

  -- a counter with the time to live of its window, counted at least once
  abbrev pub Stands : Option Counter → Option Window → Type 0
  Stands none none = Unit
  Stands none (some w) = ⊥
  Stands (some c) none = ⊥
  Stands (some c) (some w) =
      (c.count ≡ w.seen) × (c.expires_at ≡ some (w.opened + length_ms)) × (0 < w.seen)

  abbrev pub Represents : Redis → Windows → Type 0
  Represents redis windows = (k : ℕ) → Stands (redis k) (windows k)

  -- what a request leaves of the counter of its key
  abbrev pub entry_after : ℕ → Option Counter → Counter
  entry_after now c =
      let d = incremented (live now c) in
      if d.count == 1
      then record d { expires_at = some (now + options.window_seconds * 1000) }
      else d

  set_key-hit : (key : ℕ) (c : Option Counter) (redis : Redis) → set_key key c redis key ≡ c
  set_key-hit key c redis = rw (==_refl key) refl

  pub rate_limiter-entry :
      (now key k : ℕ) (redis : Redis)
      → (rate_limiter options healthy now key redis).1 k
        ≡ (if k == key then some (entry_after now (redis key)) else redis k)
  unfolding rate_limiter incr after_incr expire
  rate_limiter-entry now key k redis =
      let d = incremented (live now (redis key)) in
      let hit = set_key-hit key (some d) redis in
      elim (Bool-cases (d.count == 1)) [
        | inl t ↦ elim (Bool-cases (k == key)) [
          | inl e ↦ ground (arith, hit)
          | inr n ↦ ground (arith, hit)
        ]
        | inr f ↦ ground (arith, hit)
      ]

  pub rate_limiter-allowed :
      (now key : ℕ) (redis : Redis)
      → is_allowed (rate_limiter options healthy now key redis).0
        ≡ leb (entry_after now (redis key)).count options.max_attempts
  unfolding rate_limiter incr after_incr answer
  rate_limiter-allowed now key redis = ground arith

  Stands-after :
      (now : ℕ) (c : Option Counter) (w : Option Window)
      → Stands c w
      → Stands (some (entry_after now c)) (some (next_window now w))
  Stands-after now none none h = (refl, refl, omega arith)
  Stands-after now none (some w) h = absurd h
  Stands-after now (some c) none h = absurd h
  Stands-after now (some c) (some w) (count, expires, some_) =
      elim (Bool-cases (leb (w.opened + length_ms) now)) [
        | inl over ↦ (ground arith, ground arith, ground arith)
        | inr open_ ↦ (ground arith, ground arith, ground arith)
      ]

  step-Represents :
      (now key : ℕ) (redis : Redis) (windows : Windows)
      → Represents redis windows
      → Represents
          (rate_limiter options healthy now key redis).1
          (put key (next_window now (windows key)) windows)
  step-Represents now key redis windows h k =
      rw (rate_limiter-entry now key k redis) (elim (Bool-cases (k == key)) [
        | inl t ↦ rw t (Stands-after now (redis key) (windows key) (h key))
        | inr f ↦ rw f (h k)
      ])

  Stands-seen : (c : Counter) (w : Window) → Stands (some c) (some w) → c.count ≡ w.seen
  Stands-seen c w h = h.0

  -- If each counter of Redis stands for the window of its key, then for every sequence of requests
  -- the limiter lets those pass that the windows allow, as long as Redis answers.
  pub replies-allowed :
      (rs : List Request) (redis : Redis) (windows : Windows)
      → Represents redis windows
      → replies rs redis ≡ allowed rs windows
  unfolding replies allowed
  replies-allowed [] redis windows h = refl
  replies-allowed ((now, key) ∷ rs) redis windows h =
      let after = Stands-after now (redis key) (windows key) (h key) in
      let first =
        rate_limiter-allowed now key redis ∙ ap (λ n. leb n options.max_attempts) after.0 in
      let rest =
        replies-allowed rs (rate_limiter options healthy now key redis).1
          (put key (next_window now (windows key)) windows)
          (step-Represents now key redis windows h) in
      rw (first, rest)
