-- ===== src/Clock.antt =====
-- The vector clocks of packages/backend/src/services/groupService.ts: `detectConflict` and
-- `mergeClocks`, and the clock that `syncGroupBlob` stores.
--
-- A clock is a `Record<string, number>` with the user ids as keys; an entry that is missing
-- counts as 0, as `clock[key] || 0` does. Entries are counters, so they are naturals.
pub mod Laws
use coldfi.Prelude.{
  ℕ, zero, suc, ◌+◌, ◌<◌, max, ◌==◌, ltb, Bool, true, false, not, ◌&&◌, Option, none, some, List,
  [], ◌∷◌, ◌++◌, if◌then◌else◌,
}

abbrev pub Clock : Type 0
Clock = List (ℕ × ℕ)

-- `clock[key] || 0`
abbrev pub entry : Clock → ℕ → ℕ
entry [] k = 0
entry ((j, n) ∷ c) k = if j == k then n else entry c k

-- `clock[key] = n`: an assignment keeps the place of a key that is there.
abbrev pub assign : ℕ → ℕ → Clock → Clock
assign k n [] = (k, n) ∷ []
assign k n ((j, m) ∷ c) = if j == k then (k, n) ∷ c else (j, m) ∷ assign k n c

-- `Object.keys(clock)`
abbrev pub keys : Clock → List ℕ
keys [] = []
keys ((k, _) ∷ c) = k ∷ keys c

abbrev pub includes : List ℕ → ℕ → Bool
includes [] k = false
includes (j ∷ ks) k = if j == k then true else includes ks k

-- `new Set(list)`: each key once, in the order of its first place
abbrev pub add_all : List ℕ → List ℕ → List ℕ
add_all seen [] = seen
add_all seen (k ∷ ks) = add_all (if includes seen k then seen else seen ++ (k ∷ [])) ks

abbrev pub all_keys : Clock → Clock → List ℕ
all_keys server client = add_all [] (keys server ++ keys client)

-- one round of the loop of `detectConflict`, on `serverHasNewer` and on `clientHasNewer`
abbrev pub server_flag : Clock → Clock → ℕ → Bool → Bool
server_flag server client k newer = if ltb (entry client k) (entry server k) then true else newer

abbrev pub client_flag : Clock → Clock → ℕ → Bool → Bool
client_flag server client k newer =
    if ltb (entry server k) (entry client k) && ltb 0 (entry server k) then true else newer

pub compare_keys : Clock → Clock → List ℕ → Bool → Bool → Bool × Bool
compare_keys server client [] server_newer client_newer = (server_newer, client_newer)
compare_keys server client (k ∷ ks) server_newer client_newer =
    compare_keys server client ks (server_flag server client k server_newer)
      (client_flag server client k client_newer)

unfoldable pub detect_conflict : Clock → Clock → Bool
unfolding compare_keys
detect_conflict server client = (compare_keys server client (all_keys server client) false false).0

pub merge_keys : Clock → Clock → List ℕ → Clock → Clock
merge_keys server client [] merged = merged
merge_keys server client (k ∷ ks) merged =
    merge_keys server client ks (assign k (max (entry server k) (entry client k)) merged)

unfoldable pub merge_clocks : Clock → Clock → Clock
unfolding merge_keys
merge_clocks server client = merge_keys server client (all_keys server client) []

-- `mergedClock[userId] = (mergedClock[userId] || 0) + 1`
unfoldable pub tick : ℕ → Clock → Clock
tick user c = assign user (entry c user + 1) c
