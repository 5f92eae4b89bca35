-- ===== src/Group/Rows.antt =====
-- Lemmas on the queries and updates of a table: what `any`, `select` and `update_where` say of
-- each other, and rows that are told apart by their ids.
use mathlib.Core.Path.{subst}
use mathlib.Core.Option.{some-injective}
use coldfi.Prelude.{
  ap, sym, ◌∙◌, ◌⊎◌, ℕ, ◌≡◌, ◌≢◌, refl, Bool, true, false, ◌&&◌, Option, none, some, List, [], ◌∷◌,
  any, find, select, All, if◌then◌else◌, arith, Bool-cases, inl, inr,
}
use coldfi.Database.{update_where}
use coldfi.Group.State.{Member, earlier, first_joined}

module _ {ℓ} {A : Type ℓ} (p q w : A → Bool) (f : A → A) where
  -- A row that has `p` has `q` after the update.
  pub any-update_where {κ} :
      (P : A → Type κ) (rows : List A)
      → All P rows
      → ((r : A) → P r → p r ≡ true → q (if w r then f r else r) ≡ true)
      → any p rows ≡ true
      → any q (update_where w f rows) ≡ true
  any-update_where P [] a h e = e
  any-update_where P (r ∷ rows) a h e = elim (Bool-cases (p r)) [
    | inl yes_p ↦ rw (h r a.0 yes_p) refl
    | inr no_p ↦
        let ih = any-update_where P rows a.1 h (rw no_p at e) in
        elim (Bool-cases (q (if w r then f r else r))) [ inl t ↦ rw t refl | inr t ↦ rw t ih ]
  ]

  -- A row that has `q` after the update had `p` before it.
  pub any-of_update_where {κ} :
      (P : A → Type κ) (rows : List A)
      → All P rows
      → ((r : A) → P r → q (if w r then f r else r) ≡ true → p r ≡ true)
      → any q (update_where w f rows) ≡ true
      → any p rows ≡ true
  any-of_update_where P [] a h e = e
  any-of_update_where P (r ∷ rows) a h e = elim (Bool-cases (q (if w r then f r else r))) [
    | inl t ↦ rw (h r a.0 t) refl
    | inr t ↦
        let ih = any-of_update_where P rows a.1 h (rw t at e) in
        elim (Bool-cases (p r)) [ inl s ↦ rw s refl | inr s ↦ rw s ih ]
  ]

pub All-trivial {ℓ} : {A : Type ℓ} (rows : List A) → All (λ _. Unit {0}) rows
All-trivial [] = tt
All-trivial (r ∷ rows) = (tt, All-trivial rows)

pub earlier-none : (m : Member) (o : Option Member) → earlier m o ≢ none
earlier-none m none = cc
earlier-none m (some n) = ground arith

-- An empty answer of the query means that no row passes its test.
pub first_joined-none :
    (p : Member → Bool) (ms : List Member) → first_joined (select p ms) ≡ none → any p ms ≡ false
first_joined-none p [] h = refl
first_joined-none p (m ∷ ms) h = elim (Bool-cases (p m)) [
  | inl t ↦ absurd (earlier-none m (first_joined (select p ms)) (rw t at h))
  | inr t ↦ rw t (first_joined-none p ms (rw t at h))
]

earlier-some :
    (m : Member) (o : Option Member) (n : Member) → earlier m o ≡ some n → (m ≡ n) ⊎ (o ≡ some n)
earlier-some m none n h = inl (some-injective m n h)
earlier-some m (some k) n h = ground arith

-- The answer is a row of the table that passes the test, whatever else is known of it.
pub first_joined-some :
    (p q : Member → Bool) (ms : List Member) (n : Member)
    → first_joined (select p ms) ≡ some n
    → q n ≡ true
    → any (λ m. p m && q m) ms ≡ true
first_joined-some p q [] n h e = cc
first_joined-some p q (m ∷ ms) n h e = elim (Bool-cases (p m)) [
  | inr f ↦ rw f (first_joined-some p q ms n (rw f at h) e)
  | inl t ↦ elim (earlier-some m (first_joined (select p ms)) n (rw t at h)) [
    | inl same ↦ rw t (rw (ap q same ∙ e) refl)
    | inr later ↦ rw t (either (q m) (first_joined-some p q ms n later e))
  ]
]
  where
    either : (b : Bool) {c : Bool} → c ≡ true → (if b then true else c) ≡ true
    either true h = refl
    either false h = h

-- Rows with one id are one row: `id` is the primary key.
abbrev pub IsKeyed : List Member → Type 0
IsKeyed [] = Unit
IsKeyed (m ∷ ms) = All (λ (n : Member). n.id ≢ m.id) ms × IsKeyed ms

-- a row with the id of another agrees with it
abbrev pub Agrees : Member → Member → Type 0
Agrees row m =
    m.id ≡ row.id
    → (m.group_id ≡ row.group_id)
      × (m.user_id ≡ row.user_id)
      × (m.role ≡ row.role)
      × (m.left_at ≡ row.left_at)

All-imp {ℓ κ ι} :
    {A : Type ℓ} (P : A → Type κ) (Q : A → Type ι) (rows : List A)
    → ((r : A) → P r → Q r)
    → All P rows
    → All Q rows
All-imp P Q [] h a = tt
All-imp P Q (r ∷ rows) h a = (h r a.0, All-imp P Q rows h a.1)

find-All {ℓ κ} :
    {A : Type ℓ} (P : A → Type κ) (p : A → Bool) (rows : List A) (r : A)
    → All P rows
    → find p rows ≡ some r
    → P r
find-All P p [] r a h = cc
find-All P p (x ∷ rows) r a h = elim (Bool-cases (p x)) [
  | inl t ↦ subst P (some-injective x r (rw t at h)) a.0
  | inr f ↦ find-All P p rows r a.1 (rw f at h)
]

-- What a query finds passes its test.
pub find-test {ℓ} :
    {A : Type ℓ} (p : A → Bool) (rows : List A) (r : A) → find p rows ≡ some r → p r ≡ true
find-test p [] r h = cc
find-test p (x ∷ rows) r h = elim (Bool-cases (p x)) [
  | inl t ↦ subst (λ y. p y ≡ true) (some-injective x r (rw t at h)) t
  | inr f ↦ find-test p rows r (rw f at h)
]

-- In a keyed table every row agrees with the row that a query finds, if it has its id.
pub find-Agrees :
    (p : Member → Bool) (ms : List Member) (row : Member)
    → IsKeyed ms
    → find p ms ≡ some row
    → All (Agrees row) ms
find-Agrees p [] row k h = tt
find-Agrees p (m ∷ ms) row k h = elim (Bool-cases (p m)) [
  | inl t ↦
      let same : m ≡ row = some-injective m row (rw t at h) in
      subst (λ r. All (Agrees r) (m ∷ ms)) same
        (
          λ _. (refl, refl, refl, refl),
          All-imp (λ n. n.id ≢ m.id) (Agrees m) ms (λ n ne e. absurd (ne e)) k.0,
        )
  | inr f ↦
      let later = rw f at h in
      (
        λ e. absurd (find-All (λ n. n.id ≢ m.id) p ms row k.0 later (sym e)),
        find-Agrees p ms row k.1 later,
      )
]

-- An update that leaves the ids alone keeps the table keyed.
All-update_where :
    (k : ℕ) (w : Member → Bool) (f : Member → Member) (ms : List Member)
    → ((m : Member) → (f m).id ≡ m.id)
    → All (λ (n : Member). n.id ≢ k) ms
    → All (λ (n : Member). n.id ≢ k) (update_where w f ms)
All-update_where k w f [] h a = tt
All-update_where k w f (m ∷ ms) h a = (
  elim (Bool-cases (w m)) [ inl t ↦ rw t (rw (h m) a.0) | inr t ↦ rw t a.0 ],
  All-update_where k w f ms h a.1,
)

pub update_where-IsKeyed :
    (w : Member → Bool) (f : Member → Member) (ms : List Member)
    → ((m : Member) → (f m).id ≡ m.id)
    → IsKeyed ms
    → IsKeyed (update_where w f ms)
update_where-IsKeyed w f [] h k = tt
update_where-IsKeyed w f (m ∷ ms) h k =
    let rest = update_where-IsKeyed w f ms h k.1 in
    let apart = All-update_where m.id w f ms h k.0 in
    elim (Bool-cases (w m)) [
      | inl t ↦ rw t (
        subst (λ i. All (λ (n : Member). n.id ≢ i) (update_where w f ms)) (sym (h m)) apart,
        rest,
      )
      | inr t ↦ rw t (apart, rest)
    ]
