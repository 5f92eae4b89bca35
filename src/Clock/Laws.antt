-- ===== src/Clock/Laws.antt =====
-- What the conflict test and the merge of two clocks mean, entry by entry.
use coldfi.Prelude.{
  ℕ, ◌+◌, ◌≤◌, ◌<◌, ◌≡◌, ◌↔◌, ◌⊎◌, inl, inr, refl, max, ◌==◌, ltb, Bool, true, false, List, [], ◌∷◌,
  ◌++◌, if◌then◌else◌, arith, Bool-cases, ltb→lt,
}
use coldfi.Clock.{
  Clock, entry, assign, keys, includes, add_all, all_keys, server_flag, client_flag, compare_keys,
  detect_conflict, merge_keys, merge_clocks, tick,
}

pub entry-assign :
    (k n : ℕ) (c : Clock) (j : ℕ) → entry (assign k n c) j ≡ (if k == j then n else entry c j)
entry-assign k n [] j = refl
entry-assign k n ((i, m) ∷ c) j = ground (arith, entry-assign k n c j)

includes-append :
    (ks : List ℕ) (k j : ℕ) → includes (ks ++ (k ∷ [])) j ≡ (if includes ks j then true else k == j)
includes-append [] k j = ground arith
includes-append (i ∷ ks) k j = ground (arith, includes-append ks k j)

includes-add_all :
    (seen ks : List ℕ) (j : ℕ)
    → includes (add_all seen ks) j ≡ (if includes seen j then true else includes ks j)
includes-add_all seen [] j = ground arith
includes-add_all seen (k ∷ ks) j = ground (
  arith,
  includes-add_all (if includes seen k then seen else seen ++ (k ∷ [])) ks j,
  includes-append seen k j,
)

includes-keys_append :
    (a b : Clock) (j : ℕ)
    → includes (keys a ++ keys b) j ≡ (if includes (keys a) j then true else includes (keys b) j)
includes-keys_append [] b j = refl
includes-keys_append ((k, _) ∷ a) b j = ground (arith, includes-keys_append a b j)

entry-missing : (c : Clock) (j : ℕ) → includes (keys c) j ≡ false → entry c j ≡ 0
entry-missing [] j h = refl
entry-missing ((k, _) ∷ c) j h = ground (arith, entry-missing c j)

-- A key outside the set has no entry on either side.
all_keys-missing :
    (a b : Clock) (j : ℕ) → includes (all_keys a b) j ≡ false → (entry a j ≡ 0) × (entry b j ≡ 0)
all_keys-missing a b j h = ground (
  arith,
  includes-add_all [] (keys a ++ keys b) j,
  includes-keys_append a b j,
  entry-missing a j,
  entry-missing b j,
)

entry-merge_keys :
    (a b : Clock) (ks : List ℕ) (m : Clock) (j : ℕ)
    → entry (merge_keys a b ks m) j
      ≡ (if includes ks j then max (entry a j) (entry b j) else entry m j)
unfolding merge_keys
entry-merge_keys a b [] m j = refl
entry-merge_keys a b (k ∷ ks) m j = ground (
  arith,
  entry-merge_keys a b ks (assign k (max (entry a k) (entry b k)) m) j,
  entry-assign k (max (entry a k) (entry b k)) m j,
)

-- The merged clock has, at every user, the larger of the two entries.
pub entry-merge_clocks :
    (server client : Clock) (user : ℕ)
    → entry (merge_clocks server client) user ≡ max (entry server user) (entry client user)
unfolding merge_clocks
entry-merge_clocks server client user = ground (
  arith,
  entry-merge_keys server client (all_keys server client) [] user,
  all_keys-missing server client user,
)

-- some listed key is behind on the client
abbrev Behind : Clock → Clock → List ℕ → Type 0
Behind a b [] = ⊥
Behind a b (k ∷ ks) = (entry b k < entry a k) ⊎ Behind a b ks

compare_keys-true :
    (a b : Clock) (ks : List ℕ) (s c : Bool)
    → (compare_keys a b ks s c).0 ≡ true
    → (s ≡ true) ⊎ Behind a b ks
unfolding compare_keys
compare_keys-true a b [] s c h = inl h
compare_keys-true a b (k ∷ ks) s c h =
    ground (arith, compare_keys-true a b ks (server_flag a b k s) (client_flag a b k c))

compare_keys-keeps : (a b : Clock) (ks : List ℕ) (c : Bool) → (compare_keys a b ks true c).0 ≡ true
unfolding compare_keys
compare_keys-keeps a b [] c = refl
compare_keys-keeps a b (k ∷ ks) c = ground (arith, compare_keys-keeps a b ks (client_flag a b k c))

compare_keys-finds :
    (a b : Clock) (ks : List ℕ) (s c : Bool) (j : ℕ)
    → includes ks j ≡ true
    → entry b j < entry a j
    → (compare_keys a b ks s c).0 ≡ true
unfolding compare_keys
compare_keys-finds a b [] s c j h lt = ground arith
compare_keys-finds a b (k ∷ ks) s c j h lt = ground (
  arith,
  compare_keys-keeps a b ks (client_flag a b k c),
  compare_keys-finds a b ks (server_flag a b k s) (client_flag a b k c) j,
)

Behind-some : (a b : Clock) (ks : List ℕ) → Behind a b ks → (k : ℕ) × (entry b k < entry a k)
Behind-some a b [] h = elim h [ ]
Behind-some a b (k ∷ ks) (inl lt) = (k, lt)
Behind-some a b (k ∷ ks) (inr h) = Behind-some a b ks h

-- A conflict is reported exactly when some user's entry on the server is ahead of the client's.
pub detect_conflict_iff :
    (server client : Clock)
    → (detect_conflict server client ≡ true)
      ↔ ((user : ℕ) × (entry client user < entry server user))
unfolding detect_conflict
detect_conflict_iff server client = (
  λ h. found (compare_keys-true server client (all_keys server client) false false h),
  λ (user, lt). elim (Bool-cases (includes (all_keys server client) user)) [
    | inl listed ↦
        compare_keys-finds server client (all_keys server client) false false user listed lt
    | inr missing ↦ absurd (omega (arith, (all_keys-missing server client user missing).0))
  ],
)
  where
    found :
        (false ≡ true) ⊎ Behind server client (all_keys server client)
        → (user : ℕ) × (entry client user < entry server user)
    found (inl e) = cc
    found (inr h) = Behind-some server client _ h

pub no_conflict-le :
    (server client : Clock) (j : ℕ)
    → detect_conflict server client ≡ false
    → entry server j ≤ entry client j
no_conflict-le server client j h = elim (Bool-cases (ltb (entry client j) (entry server j))) [
  | inl behind ↦
      let seen : detect_conflict server client ≡ true =
        (detect_conflict_iff server client).1 (j, ltb→lt _ _ behind) in
      cc
  | inr fine ↦ ground arith
]

-- If no conflict is reported, the clock that is stored has the client's entries, and one more for
-- the user who uploads; so it is ahead of both clocks there, and behind neither anywhere.
pub tick-merge_clocks :
    (server client : Clock) (user : ℕ)
    → detect_conflict server client ≡ false
    → (j : ℕ)
    → entry (tick user (merge_clocks server client)) j
      ≡ (if user == j then entry client j + 1 else entry client j)
unfolding tick
tick-merge_clocks server client user h j = ground (
  arith,
  entry-assign user (entry (merge_clocks server client) user + 1) (merge_clocks server client) j,
  entry-merge_clocks server client j,
  entry-merge_clocks server client user,
  no_conflict-le server client j h,
  no_conflict-le server client user h,
)
