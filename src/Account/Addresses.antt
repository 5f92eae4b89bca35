-- ===== src/Account/Addresses.antt =====
-- No two accounts have one address.
use Prim.Native.String.{String}
use mathlib.Core.Path.{subst}
use text.Mathlib.Text.{◌==◌ as str_eq}
use text.Mathlib.TextEquality.{eq_iff}
use coldfi.Prelude.{
  ◌==◌, ◌≡◌, refl, sym, ap, Bool, false, ltb, none, List, [], ◌∷◌, ◌++◌, find, arith, Bool-cases,
  Option-cases, inl, inr,
}
use coldfi.Database.{transaction_on, update_where}
use coldfi.Token.State.{User, World}
use coldfi.Account.Stored.{find-update_where}
use coldfi.Account.Emails.{is_valid_email}
use coldfi.Account.Login.{find_email}
use coldfi.Account.Registration.{
  RegisterConfig, RegisterDraw, RegisterInput, new_user, store_server_key, store_code,
  register_body, register_user,
}

abbrev pub has_email : String → User → Bool
has_email email u = str_eq u.email email

-- each address stands in one row at most
abbrev pub IsDistinct : List User → Type 0
IsDistinct [] = Unit
IsDistinct (u ∷ us) = (find (has_email u.email) us ≡ none) × IsDistinct us

abbrev pub HasDistinct : World → Type 0
HasDistinct w = IsDistinct w.db.users

pub update-IsDistinct :
    (q : User → Bool) (f : User → User) (us : List User)
    → ((u : User) → (f u).email ≡ u.email)
    → IsDistinct us
    → IsDistinct (update_where q f us)
update-IsDistinct q f [] same h = tt
update-IsDistinct q f (u ∷ us) same (free, h) =
    let found =
      find-update_where (has_email u.email) q f us (λ v. ap (λ e. str_eq e u.email) (same v)) in
    let still : find (has_email u.email) (update_where q f us) ≡ none = ground (arith, found) in
    elim (Bool-cases (q u)) [
      | inl t ↦ rw t (
        subst (λ e. find (has_email e) (update_where q f us) ≡ none) (sym (same u)) still,
        update-IsDistinct q f us same h,
      )
      | inr n ↦ rw n (still, update-IsDistinct q f us same h)
    ]

find-append_none :
    (p : User → Bool) (us : List User) (v : User)
    → find p us ≡ none
    → p v ≡ false
    → find p (us ++ (v ∷ [])) ≡ none
find-append_none p [] v h n = rw n refl
find-append_none p (u ∷ us) v h n = elim (Bool-cases (p u)) [
  | inl t ↦ cc
  | inr f ↦ rw f (find-append_none p us v (rw f at h) n)
]

differs : (a b : String) → str_eq a b ≡ false → str_eq b a ≡ false
differs a b h = ground (arith, eq_iff a b, eq_iff b a)

pub append-IsDistinct :
    (us : List User) (v : User)
    → find (has_email v.email) us ≡ none
    → IsDistinct us
    → IsDistinct (us ++ (v ∷ []))
append-IsDistinct [] v free h = (refl, tt)
append-IsDistinct (u ∷ us) v free (free_u, h) = elim (Bool-cases (has_email v.email u)) [
  | inl t ↦ cc
  | inr f ↦ (
    find-append_none (has_email u.email) us v free_u (differs u.email v.email f),
    append-IsDistinct us v (rw f at free) h,
  )
]

-- An update that keeps the addresses, and a function that leaves the rows alone.
pub kept : (us vs : List User) → vs ≡ us → IsDistinct us → IsDistinct vs
kept us vs e h = subst IsDistinct (sym e) h

module _ (cfg : RegisterConfig) (draw : RegisterDraw) (input : RegisterInput) where
  -- If no two accounts have one address, then it is so after `registerUser`, whether it returns or
  -- throws.
  pub register_user-HasDistinct :
      (w : World) → HasDistinct w → HasDistinct (register_user cfg draw input w).1
  unfolding register_user register_body transaction_on
  register_user-HasDistinct w h =
      let after = (register_user cfg draw input w).1.db.users in
      elim (Bool-cases (is_valid_email input.email)) [
        | inr bad ↦ kept w.db.users after (ground arith) h
        | inl good ↦ elim (Bool-cases (ltb (cfg.key_length input.auth_key) 32)) [
          | inl short ↦ kept w.db.users after (ground arith) h
          | inr long ↦ elim (Option-cases (find_email (cfg.lower input.email) w.db)) [
            | inr (u, e) ↦ kept w.db.users after (ground arith) h
            | inl free ↦
                let q = λ (u : User). u.id == draw.user_id in
                let us = w.db.users ++ (new_user cfg draw input ∷ []) in
                let added = append-IsDistinct w.db.users (new_user cfg draw input) free h in
                let keyed =
                  update-IsDistinct q (store_server_key cfg draw input) us (λ u. refl) added in
                let coded =
                  update-IsDistinct q (store_code cfg draw input)
                    (update_where q (store_server_key cfg draw input) us) (λ u. refl) keyed in
                kept
                  (update_where q (store_code cfg draw input)
                    (update_where q (store_server_key cfg draw input) us))
                  after (ground arith) coded
          ]
        ]
      ]
