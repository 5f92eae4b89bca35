-- ===== src/Token/Restrictions.antt =====
-- packages/backend/src/services/userRestrictions.ts.
use coldfi.Prelude.{
  ℕ, ◌+◌, ltb, ◌==◌, ◌≡◌, refl, Bool, true, false, not, ◌&&◌, Option, none, some, List, [], ◌∷◌,
  select, any, map, length, if◌then◌else◌, is_none, arith, Option-cases, inl, inr,
}
use mathlib.Core.Option.{some-injective}
use mathlib.Core.Logic.{◌⊎◌}
use coldfi.Database.{Result, ok, err, ◌>>=◌, ◌>>◌, throw_if, gets, modify}
use coldfi.Token.State.{
  Kind, RestrictionRow, ActiveRestriction, Db, CacheEntry, World, Error, account_banned,
  account_suspended, Action,
}

abbrev pub cache_ttl : ℕ
cache_ttl = 30_000

abbrev pub cache_limit : ℕ
cache_limit = 10_000

abbrev pub is_pending : ℕ → Option ℕ → Bool
is_pending now none = true
is_pending now (some t) = ltb now t

-- the `WHERE` of the query
abbrev pub is_active_row : ℕ → ℕ → RestrictionRow → Bool
is_active_row now user r = r.user_id == user && is_none r.lifted_at && is_pending now r.expires_at

abbrev pub active_of : RestrictionRow → ActiveRestriction
active_of r = record { kind = r.kind; expires_at = r.expires_at }

unfoldable pub get_active_restrictions : ℕ → ℕ → Db → List ActiveRestriction
get_active_restrictions now user db =
    map active_of (select (is_active_row now user) db.restrictions)

-- `Map.get`, `Map.set`, `Map.delete`
abbrev pub cached : ℕ → List (ℕ × CacheEntry) → Option CacheEntry
cached user [] = none
cached user ((u, e) ∷ cache) = if u == user then some e else cached user cache

abbrev pub remember : ℕ → CacheEntry → List (ℕ × CacheEntry) → List (ℕ × CacheEntry)
remember user e [] = (user, e) ∷ []
remember user e ((u, f) ∷ cache) =
    if u == user then (u, e) ∷ cache else (u, f) ∷ remember user e cache

abbrev pub forget : ℕ → List (ℕ × CacheEntry) → List (ℕ × CacheEntry)
forget user [] = []
forget user ((u, f) ∷ cache) =
    let rest = forget user cache in if u == user then rest else (u, f) ∷ rest

unfoldable pub invalidate_restriction_cache : Option ℕ → World → World
invalidate_restriction_cache none w = record w { cache = [] }
invalidate_restriction_cache (some user) w = record w { cache = forget user w.cache }

-- `cached && now - cached.checkedAt < CACHE_TTL_MS`; the clock does not go back, so the difference
-- is not negative
abbrev pub is_fresh : ℕ → CacheEntry → Bool
is_fresh now e = ltb now (e.checked_at + cache_ttl)

abbrev pub reload : ℕ → ℕ → World → World
reload now user w =
    let entry : CacheEntry = record {
      checked_at = now;
      restrictions = get_active_restrictions now user w.db;
    } in
    record w {
      cache = remember user entry (if ltb cache_limit (length w.cache) then [] else w.cache);
    }

abbrev pub after_lookup : ℕ → ℕ → Option CacheEntry → World → World
after_lookup now user none w = reload now user w
after_lookup now user (some e) w = if is_fresh now e then w else reload now user w

abbrev pub restrictions_in : Option CacheEntry → List ActiveRestriction
restrictions_in none = []
restrictions_in (some e) = e.restrictions

abbrev pub is_banned : ActiveRestriction → Bool
is_banned r = elim r.kind [ Kind.banned ↦ true | _ ↦ false ]

abbrev pub is_suspended : ActiveRestriction → Bool
is_suspended r = elim r.kind [ Kind.suspended ↦ true | _ ↦ false ]

-- what is done with the restrictions once they are at hand
refuse : List ActiveRestriction → Action (Unit {0})
refuse rs = do
  throw_if (any is_banned rs) account_banned
  throw_if (any is_suspended rs) account_suspended

unfoldable pub assert_user_not_restricted : ℕ → ℕ → Action (Unit {0})
unfolding refuse
assert_user_not_restricted now user = do
  modify λ w. after_lookup now user (cached user w.cache) w
  rs ← gets (λ w. restrictions_in (cached user w.cache))
  refuse rs

cached-remember :
    (user : ℕ) (e : CacheEntry) (cache : List (ℕ × CacheEntry))
    → cached user (remember user e cache) ≡ some e
cached-remember user e [] = ground arith
cached-remember user e ((u, f) ∷ cache) = ground (arith, cached-remember user e cache)

cached-forget : (user : ℕ) (cache : List (ℕ × CacheEntry)) → cached user (forget user cache) ≡ none
cached-forget user [] = refl
cached-forget user ((u, f) ∷ cache) = ground (arith, cached-forget user cache)

-- what the code answers for a list of restrictions: a ban goes first
abbrev pub verdict : List ActiveRestriction → Result Error (Unit {0})
verdict rs =
    if any is_banned rs
    then err account_banned
    else if any is_suspended rs
    then err account_suspended
    else ok tt

abbrev pub is_stale : ℕ → Option CacheEntry → Bool
is_stale now none = true
is_stale now (some e) = not (is_fresh now e)

-- With no cache entry younger than 30 seconds, the answer is that of the table at that time.
pub assert_user_not_restricted-verdict :
    (now user : ℕ) (w : World)
    → is_stale now (cached user w.cache) ≡ true
    → (assert_user_not_restricted now user w).0 ≡ verdict (get_active_restrictions now user w.db)
unfolding assert_user_not_restricted
assert_user_not_restricted-verdict now user w stale =
    let entry : CacheEntry = record {
      checked_at = now;
      restrictions = get_active_restrictions now user w.db;
    } in
    elim (Option-cases (cached user w.cache)) [
      | inl none_there ↦ ground (
        arith,
        cached-remember user entry (if ltb cache_limit (length w.cache) then [] else w.cache),
      )
      | inr (e, there) ↦ ground (
        arith,
        cached-remember user entry (if ltb cache_limit (length w.cache) then [] else w.cache),
      )
    ]

-- Once an administrator's change has invalidated the user's entry, or all of them, the next call
-- answers by the table.
pub invalidate_restriction_cache-verdict :
    (now user : ℕ) (whose : Option ℕ) (w : World)
    → (whose ≡ none) ⊎ (whose ≡ some user)
    → (assert_user_not_restricted now user (invalidate_restriction_cache whose w)).0
      ≡ verdict (get_active_restrictions now user w.db)
unfolding invalidate_restriction_cache
invalidate_restriction_cache-verdict now user none w which =
    assert_user_not_restricted-verdict now user (record w { cache = [] }) refl
invalidate_restriction_cache-verdict now user (some who) w (inl e) = cc
invalidate_restriction_cache-verdict now user (some who) w (inr e) =
    rw (some-injective who user e) (
      assert_user_not_restricted-verdict now user (record w { cache = forget user w.cache })
        (rw (cached-forget user w.cache) refl))

-- The check writes to the cache alone.
pub assert_user_not_restricted-db :
    (now user : ℕ) (w : World) → (assert_user_not_restricted now user w).1.db ≡ w.db
unfolding assert_user_not_restricted
assert_user_not_restricted-db now user w = ground arith
