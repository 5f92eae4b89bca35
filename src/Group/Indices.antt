-- ===== src/Group/Indices.antt =====
-- The indices of the members of a group, and who leads a group that somebody joins.
use coldfi.Prelude.{
  sym, ◌∙◌, ℕ, suc, ◌≤◌, ◌<◌, ◌==◌, ◌≡◌, ◌≢◌, refl, Bool, none, List, [], ◌∷◌, ◌++◌, find, All,
  arith, Bool-cases, Option-cases, inl, inr,
}
use coldfi.Database.{update_where}
use coldfi.Group.State.{Role, Member, Db, is_row, find_member}
use coldfi.Group.Invites.{new_member, next_index, rejoin, join_group}
use coldfi.Group.Joining.{join_group-effect}

-- in one group, neither the same index nor the same user
abbrev pub Apart : Member → Member → Type 0
Apart m n = n.group_id ≡ m.group_id → (n.member_index ≢ m.member_index) × (n.user_id ≢ m.user_id)

-- `UNIQUE (group_id, user_id)` and `UNIQUE (group_id, member_index)`
abbrev pub IsIndexed : List Member → Type 0
IsIndexed [] = Unit
IsIndexed (m ∷ ms) = All (Apart m) ms × IsIndexed ms

index-lt-next_index :
    (group : ℕ) (ms : List Member)
    → All (λ m. m.group_id ≡ group → m.member_index < next_index group ms) ms
index-lt-next_index group ms = go ms (λ k h. h)
  where
    go :
        (rest : List Member)
        → ((k : ℕ) → k ≤ next_index group rest → k ≤ next_index group ms)
        → All (λ m. m.group_id ≡ group → m.member_index < next_index group ms) rest
    go [] below = tt
    go (m ∷ rest) below =
        (λ e. below (suc m.member_index) (ground arith), go rest (λ k h. below k (ground arith)))

user-ne :
    (group user : ℕ) (ms : List Member)
    → find (is_row group user) ms ≡ none
    → All (λ (m : Member). m.group_id ≡ group → m.user_id ≢ user) ms
user-ne group user [] h = tt
user-ne group user (m ∷ ms) h = (λ e u. ground arith, user-ne group user ms (ground arith))

All-snoc {ℓ κ} :
    {A : Type ℓ} (P : A → Type κ) (xs : List A) (x : A) → All P xs → P x → All P (xs ++ (x ∷ []))
All-snoc P [] x a p = (p, tt)
All-snoc P (y ∷ xs) x (b, a) p = (b, All-snoc P xs x a p)

IsIndexed-append :
    (ms : List Member) (new : Member)
    → All (λ m. Apart m new) ms
    → IsIndexed ms
    → IsIndexed (ms ++ (new ∷ []))
IsIndexed-append [] new a v = (tt, tt)
IsIndexed-append (m ∷ ms) new (a, as') (v, vs) =
    (All-snoc (Apart m) ms new v a, IsIndexed-append ms new as' vs)

Apart-new :
    (now id group user : ℕ) (ms rest : List Member)
    → All (λ (m : Member). m.group_id ≡ group → m.member_index < next_index group ms) rest
    → All (λ (m : Member). m.group_id ≡ group → m.user_id ≢ user) rest
    → All (λ m. Apart m (new_member id group user (next_index group ms) Role.member now)) rest
Apart-new now id group user ms [] a b = tt
Apart-new now id group user ms (m ∷ rest) (a, as') (b, bs) = (
  λ e. (λ i. absurd (omega (arith, a (sym e))), λ u. b (sym e) (sym u)),
  Apart-new now id group user ms rest as' bs,
)

-- an update that keeps groups, users and indices
update_where-IsIndexed :
    (w : Member → Bool) (f : Member → Member) (ms : List Member)
    → ((m : Member)
        → ((f m).group_id ≡ m.group_id)
          × ((f m).user_id ≡ m.user_id)
          × ((f m).member_index ≡ m.member_index))
    → IsIndexed ms
    → IsIndexed (update_where w f ms)
update_where-IsIndexed w f [] same v = tt
update_where-IsIndexed w f (m ∷ ms) same (v, vs) = (
  elim (Bool-cases (w m)) [
    | inl t ↦ rw t (apart ms (f m) (same m) v)
    | inr t ↦ rw t (apart ms m (refl, refl, refl) v)
  ],
  update_where-IsIndexed w f ms same vs,
)
  where
    apart :
        (rest : List Member) (k : Member)
        → ((k.group_id ≡ m.group_id) × (k.user_id ≡ m.user_id) × (k.member_index ≡ m.member_index))
        → All (Apart m) rest
        → All (Apart k) (update_where w f rest)
    apart [] k s a = tt
    apart (n ∷ rest) k s (a, as') = (
      elim (Bool-cases (w n)) [
        | inl t ↦ rw t (kept (f n) (same n))
        | inr t ↦ rw t (kept n (refl, refl, refl))
      ],
      apart rest k s as',
    )
      where
        kept :
            (p : Member)
            → ((p.group_id ≡ n.group_id)
                × (p.user_id ≡ n.user_id)
                × (p.member_index ≡ n.member_index))
            → Apart k p
        kept p q e =
            let (i, u) = a (sym q.0 ∙ e ∙ s.0) in
            (λ h. i (sym q.2 ∙ h ∙ s.2), λ h. u (sym q.1 ∙ h ∙ s.1))

-- If nobody has two rows in one group, and no two rows of a group have one index, then so it is
-- after `joinGroup`, whether the call returns or throws.
pub join_group-IsIndexed :
    (now id code user : ℕ) (db : Db)
    → IsIndexed db.members
    → IsIndexed (join_group now id code user db).1.members
join_group-IsIndexed now id code user db v = elim (join_group-effect now id code user db) [
  | inr (e, h) ↦ rw h v
  | inl (i, e, absent, h) ↦ elim (Option-cases (find_member i.group_id user db)) [
    | inl new ↦
        rw (h, new)
          (IsIndexed-append db.members _
            (Apart-new now id i.group_id user db.members db.members
              (index-lt-next_index i.group_id db.members) (user-ne i.group_id user db.members new))
            v)
    | inr (row, old) ↦
        rw (h, old)
          (update_where-IsIndexed (λ (m : Member). m.id == row.id) (rejoin now) db.members
            (λ m. (refl, refl, refl)) v)
  ]
]
