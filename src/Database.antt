-- ===== src/Database.antt =====
-- packages/backend/src/db/pool.ts, and what the services use of a table. A statement that ran
-- stays in effect when the code throws later, unless `transaction` rolls it back.
use coldfi.Prelude.{
  Bool, Option, none, some, List, [], ◌∷◌, ◌≡◌, refl, ap, ◌⊎◌, inl, inr, if◌then◌else◌,
}

pub data Result (E A : Type 0) : Type 0 where
  ok : A → Result E A
  err : E → Result E A

-- An asynchronous function over the database: what it returns or throws, and the state after it.
abbrev pub Tx : Type 0 → Type 0 → Type 0 → Type 0
Tx S E A = S → Result E A × S

infixl 5 ◌>>=◌ ◌>>◌
abbrev pub ◌>>=◌ : {S E A B : Type 0} → Tx S E A → (A → Tx S E B) → Tx S E B
◌>>=◌ m f s = let (r, s') = m s in elim r [ ok a ↦ f a s' | err e ↦ (err e, s') ]

abbrev pub ◌>>◌ : {S E A B : Type 0} → Tx S E A → Tx S E B → Tx S E B
m >> k = m >>= λ _. k

abbrev pub pure : {S E A : Type 0} → A → Tx S E A
pure a s = (ok a, s)

abbrev pub throw : {S E A : Type 0} → E → Tx S E A
throw e s = (err e, s)

abbrev pub throw_if : {S E : Type 0} → Bool → E → Tx S E (Unit {0})
throw_if c e s = (if c then err e else ok tt, s)

abbrev pub gets : {S E A : Type 0} → (S → A) → Tx S E A
gets f s = (ok (f s), s)

abbrev pub modify : {S E : Type 0} → (S → S) → Tx S E (Unit {0})
modify f s = (ok tt, f s)

-- `if (rows.length === 0) throw e`, and the first row
abbrev pub or_throw : {S E A : Type 0} → Option A → E → Tx S E A
or_throw none e = throw e
or_throw (some a) e = pure a

-- `COMMIT` when the function returns, `ROLLBACK` when it throws. `restore old new` is what a
-- rollback leaves of a state that also has parts outside the database.
abbrev roll_back : {S E A : Type 0} → (S → S → S) → S → Result E A × S → Result E A × S
roll_back restore s (ok a, s') = (ok a, s')
roll_back restore s (err e, s') = (err e, restore s s')

unfoldable pub transaction_on : {S E A : Type 0} → (S → S → S) → Tx S E A → Tx S E A
transaction_on restore fn s = roll_back restore s (fn s)

-- where the state is the database alone
unfoldable pub transaction : {S E A : Type 0} → Tx S E A → Tx S E A
unfolding transaction_on
transaction fn = transaction_on (λ old new. old) fn

-- What a transaction throws leaves of the state what a rollback leaves.
pub transaction_on-err :
    {S E A : Type 0} (restore : S → S → S) (fn : Tx S E A) (s : S) {e : E}
    → (transaction_on restore fn s).0 ≡ err e
    → (t : S) × (transaction_on restore fn s ≡ (err e, restore s t))
unfolding transaction_on
transaction_on-err {S} {E} {A} restore fn s {e} h = rolled (fn s) h
  where
    rolled :
        (r : Result E A × S)
        → (roll_back restore s r).0 ≡ err e
        → (t : S) × (roll_back restore s r ≡ (err e, restore s t))
    rolled (ok a, s') k = cc
    rolled (err f, s') k = (s', λ i. (k i, restore s s'))

-- What a transaction returns is what its function returns.
pub transaction_on-ok :
    {S E A : Type 0} (restore : S → S → S) (fn : Tx S E A) (s : S) {a : A} {s' : S}
    → transaction_on restore fn s ≡ (ok a, s')
    → fn s ≡ (ok a, s')
unfolding transaction_on
transaction_on-ok {S} {E} {A} restore fn s {a} {s'} h = kept (fn s) h
  where
    kept : (r : Result E A × S) → roll_back restore s r ≡ (ok a, s') → r ≡ (ok a, s')
    kept (ok b, t) k = k
    kept (err e, t) k = cc

-- To split on how a call ended.
pub Outcome-cases :
    {S E A : Type 0} (r : Result E A × S)
    → ((a : A) × (s : S) × (r ≡ (ok a, s))) ⊎ ((e : E) × (s : S) × (r ≡ (err e, s)))
Outcome-cases (ok a, s) = inl (a, s, refl)
Outcome-cases (err e, s) = inr (e, s, refl)

-- What follows a call depends on its outcome alone.
pub bind-ok :
    {S E A B : Type 0} (m : Tx S E A) (f : A → Tx S E B) (s : S) {a : A} {s' : S}
    → m s ≡ (ok a, s')
    → (m >>= f) s ≡ f a s'
bind-ok m f s h = ap (λ r. elim r.0 [ ok a ↦ f a r.1 | err e ↦ (err e, r.1) ]) h

pub bind-err :
    {S E A B : Type 0} (m : Tx S E A) (f : A → Tx S E B) (s : S) {e : E} {s' : S}
    → m s ≡ (err e, s')
    → (m >>= f) s ≡ (err e, s')
bind-err m f s h = ap (λ r. elim r.0 [ ok a ↦ f a r.1 | err e ↦ (err e, r.1) ]) h

-- `UPDATE table SET … WHERE p`
abbrev pub update_where {ℓ} : {R : Type ℓ} → (R → Bool) → (R → R) → List R → List R
update_where p f [] = []
update_where p f (r ∷ rows) = (if p r then f r else r) ∷ update_where p f rows
