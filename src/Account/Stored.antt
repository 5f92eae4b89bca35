-- ===== src/Account/Stored.antt =====
-- The row that `registerUser` of packages/backend/src/services/authService.ts leaves.
use text.Mathlib.Text.{◌==◌ as str_eq}
use text.Mathlib.TextPositions.{eq_refl}
use coldfi.Prelude.{
  ltb, ◌==◌, ==_refl, ◌≡◌, refl, ap, ◌∙◌, Bool, true, Option, none, some, List, [], ◌∷◌, ◌++◌, find,
  arith, Bool-cases, Option-cases, inl, inr, if◌then◌else◌,
}
use coldfi.Database.{ok, update_where, transaction_on}
use coldfi.Token.State.{User, World}
use coldfi.Account.Login.{find_email}
use coldfi.Account.Emails.{is_valid_email}
use coldfi.Account.Registration.{
  RegisterConfig, RegisterInput, RegisterDraw, RegisterResult, new_user, store_server_key,
  store_code, register_result, register_body, register_user,
}

abbrev changed : (User → Bool) → (User → User) → Option User → Option User
changed q f none = none
changed q f (some u) = some (if q u then f u else u)

hit :
    (q : User → Bool) (f : User → User) (u : User) → q u ≡ true → changed q f (some u) ≡ some (f u)
hit q f u h = rw h refl

-- what a query finds after an update that keeps what it asks for
pub find-update_where :
    (p q : User → Bool) (f : User → User) (us : List User)
    → ((u : User) → p (f u) ≡ p u)
    → find p (update_where q f us) ≡ changed q f (find p us)
find-update_where p q f [] keep = refl
find-update_where p q f (u ∷ us) keep =
    let rest = find-update_where p q f us keep in let k = keep u in ground (arith, rest, k)

-- The last row is found where no other is.
pub find-append_last :
    (p : User → Bool) (us : List User) (u : User)
    → find p us ≡ none
    → p u ≡ true
    → find p (us ++ (u ∷ [])) ≡ some u
find-append_last p [] u h t = rw t refl
find-append_last p (v ∷ us) u h t = elim (Bool-cases (p v)) [
  | inl e ↦ cc
  | inr e ↦ rw e (find-append_last p us u (rw e at h) t)
]

-- A registration that returns: the row it leaves, and its result.
module _ (cfg : RegisterConfig) (draw : RegisterDraw) (input : RegisterInput) where
  abbrev pub stored : User
  stored = store_code cfg draw input (store_server_key cfg draw input (new_user cfg draw input))

  row_stored :
      (us : List User)
      → find (λ (u : User). str_eq u.email (cfg.lower input.email)) us ≡ none
      → find
          (λ (u : User). str_eq u.email (cfg.lower input.email))
          (update_where
            (λ (u : User). u.id == draw.user_id)
            (store_code cfg draw input)
            (update_where
              (λ (u : User). u.id == draw.user_id)
              (store_server_key cfg draw input)
              (us ++ (new_user cfg draw input ∷ []))))
        ≡ some stored
  row_stored us h =
      let p = λ (u : User). str_eq u.email (cfg.lower input.email) in
      let q = λ (u : User). u.id == draw.user_id in
      let last =
        find-append_last p us (new_user cfg draw input) h (eq_refl (cfg.lower input.email)) in
      let one =
        find-update_where p q (store_server_key cfg draw input)
          (us ++ (new_user cfg draw input ∷ [])) (λ u. refl) in
      let two =
        find-update_where p q (store_code cfg draw input)
          (update_where q (store_server_key cfg draw input) (us ++ (new_user cfg draw input ∷ [])))
          (λ u. refl) in
      let own = ==_refl draw.user_id in
      two
      ∙ ap (changed q (store_code cfg draw input)) (
          one
          ∙ ap (changed q (store_server_key cfg draw input)) last
          ∙ hit q (store_server_key cfg draw input) (new_user cfg draw input) own)
      ∙ hit q (store_code cfg draw input)
          (store_server_key cfg draw input (new_user cfg draw input)) own

  pub register_user-stores :
      (w : World) {r : RegisterResult}
      → (register_user cfg draw input w).0 ≡ ok r
      → (r ≡ register_result cfg draw input)
        × (is_valid_email input.email ≡ true)
        × (find_email (cfg.lower input.email) (register_user cfg draw input w).1.db ≡ some stored)
  unfolding register_user register_body transaction_on
  register_user-stores w h = elim (Bool-cases (is_valid_email input.email)) [
    | inr bad ↦ ground arith
    | inl good ↦ elim (Bool-cases (ltb (cfg.key_length input.auth_key) 32)) [
      | inl short ↦ ground arith
      | inr long ↦ elim (Option-cases (find_email (cfg.lower input.email) w.db)) [
        | inr (u, e) ↦ ground arith
        | inl free ↦
            let users =
              update_where (λ (u : User). u.id == draw.user_id) (store_code cfg draw input)
                (update_where (λ (u : User). u.id == draw.user_id) (store_server_key cfg draw input)
                  (w.db.users ++ (new_user cfg draw input ∷ []))) in
            let kept : (register_user cfg draw input w).1.db.users ≡ users = ground arith in
            (
              ground arith,
              good,
              ap (find (λ (u : User). str_eq u.email (cfg.lower input.email))) kept
                  ∙ row_stored w.db.users free,
            )
      ]
    ]
  ]
