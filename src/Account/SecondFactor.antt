-- ===== src/Account/SecondFactor.antt =====
-- A sign-in with Google does not go round the second factor.
use coldfi.Prelude.{
  ◌≡◌, ◌≢◌, refl, sym, ap, ◌∙◌, true, false, ◌||◌, Option, none, some, find, arith, Bool-cases,
  Option-cases, ◌⊎◌, inl, inr,
}
use Prim.Native.String.{String}
use text.Mathlib.Text.{◌==◌ as str_eq}
use coldfi.Database.{ok, transaction_on, transaction_on-ok, Outcome-cases}
use coldfi.Token.State.{User, World, restore_db}
use coldfi.Token.Restrictions.{assert_user_not_restricted}
use coldfi.Token.Service.{Config, TokenPair, or_text, generate_tokens}
use coldfi.Account.Login.{find_email}
use coldfi.Account.Registration.{RegisterConfig}
use coldfi.Account.Google.{
  Payload, signed_in, GoogleDraw, has_google_id, is_mismatch, enter, enter_checked, link_existing,
  existing_body, enter_verified, insert_google_user, violates_unique, enter_new, register_google,
  enter_by_google, google_login_as,
}

-- the user that the tokens are for has no second factor
abbrev pub IsFor : TokenPair → User → Type 0
IsFor pair u = (u.two_factor_enabled ≡ false) × (pair.user_id ≡ u.id)

-- a row that a query by address or by Google id finds
abbrev pub IsLinked : String → String → World → User → Type 0
IsLinked google_id email w u =
    (find_email email w.db ≡ some u) ⊎ (find (has_google_id google_id) w.db.users ≡ some u)

module _ (cfg : Config) (draw : GoogleDraw) where
  enter-signed_in :
      (u : User) (s : World) (pair : TokenPair)
      → (enter cfg draw u s).0 ≡ ok (signed_in pair)
      → IsFor pair u
  unfolding enter generate_tokens
  enter-signed_in u s pair h = elim (Bool-cases u.two_factor_enabled) [
    | inl t ↦ ground arith
    | inr f ↦ (f, ground arith)
  ]

  enter_checked-signed_in :
      (u : User) (s : World) (pair : TokenPair)
      → (enter_checked cfg draw u s).0 ≡ ok (signed_in pair)
      → IsFor pair u
  unfolding enter_checked
  enter_checked-signed_in u s pair h =
      elim (Outcome-cases (assert_user_not_restricted draw.tokens.now u.id s)) [
        | inr (f, s', k) ↦ ground arith
        | inl (x, s', k) ↦
            let runs : enter_checked cfg draw u s ≡ enter cfg draw u s' = ground arith in
            enter-signed_in u s' pair (ap (λ o. o.0) (sym runs) ∙ h)
      ]

  module _ (rc : RegisterConfig) (google_id email name : String) where
    enter_new-ne :
        (s : World) (pair : TokenPair)
        → (enter_new cfg draw rc google_id email name s).0 ≢ ok (signed_in pair)
    unfolding enter_new
    enter_new-ne s pair h =
        elim (Outcome-cases (generate_tokens cfg draw.tokens draw.register.user_id s)) [
          | inl (fresh, t, k) ↦ ground arith
          | inr (e, t, k) ↦ ground arith
        ]

    insert_google_user-taken :
        (s : World)
        → violates_unique cfg draw rc google_id email name s.db ≡ true
        → insert_google_user cfg draw rc google_id email name s ≡ (ok false, s)
    unfolding insert_google_user
    insert_google_user-taken s h = rw h refl

    insert_google_user-free :
        (s : World)
        → violates_unique cfg draw rc google_id email name s.db ≡ false
        → (t : World) × (insert_google_user cfg draw rc google_id email name s ≡ (ok true, t))
    unfolding insert_google_user
    insert_google_user-free s h = rw h (_, refl)

    register_google-signed_in :
        (s : World) (pair : TokenPair)
        → (register_google cfg draw rc google_id email name s).0 ≡ ok (signed_in pair)
        → (u : User) × IsFor pair u × IsLinked google_id email s u
    unfolding register_google
    register_google-signed_in s pair h =
        elim (Bool-cases (violates_unique cfg draw rc google_id email name s.db)) [
          | inr free ↦
              let (t, k) = insert_google_user-free s free in
              let runs : register_google cfg draw rc google_id email name s
                  ≡ enter_new cfg draw rc google_id email name t =
                ground arith in
              absurd (enter_new-ne t pair (ap (λ o. o.0) (sym runs) ∙ h))
          | inl taken ↦
              let k = insert_google_user-taken s taken in
              elim (Option-cases (find_email email s.db)) [
                | inl e ↦
                    let runs : register_google cfg draw rc google_id email name s
                        ≡ enter_new cfg draw rc google_id email name s =
                      ground arith in
                    absurd (enter_new-ne s pair (ap (λ o. o.0) (sym runs) ∙ h))
                | inr (u, e) ↦
                    let runs : register_google cfg draw rc google_id email name s
                        ≡ enter_checked cfg draw u s =
                      ground arith in
                    (u, enter_checked-signed_in u s pair (ap (λ o. o.0) (sym runs) ∙ h), inl e)
              ]
        ]

    enter_by_google-signed_in :
        (others : World → World) (s : World) (pair : TokenPair)
        → (enter_by_google cfg draw rc google_id email name others s).0 ≡ ok (signed_in pair)
        → (u : User) × IsFor pair u
          × (IsLinked google_id email s u ⊎ IsLinked google_id email (others s) u)
    unfolding enter_by_google
    enter_by_google-signed_in others s pair h =
        elim (Option-cases (find (has_google_id google_id) s.db.users)) [
          | inl e ↦
              let runs : enter_by_google cfg draw rc google_id email name others s
                  ≡ register_google cfg draw rc google_id email name (others s) =
                ground arith in
              let (u, is_for, linked) =
                register_google-signed_in (others s) pair (ap (λ o. o.0) (sym runs) ∙ h) in
              (u, is_for, inr linked)
          | inr (u, e) ↦
              let runs : enter_by_google cfg draw rc google_id email name others s
                  ≡ enter_checked cfg draw u s =
                ground arith in
              (u, enter_checked-signed_in u s pair (ap (λ o. o.0) (sym runs) ∙ h), inl (inr e))
        ]

  -- the first transaction finds the row with the address, and changes no row where there is none
  module _ (google_id name email : String) where
    existing_body-none :
        (s : World)
        → find_email email s.db ≡ none
        → existing_body cfg draw google_id name email s ≡ (ok none, s)
    unfolding existing_body
    existing_body-none s e = ground arith

    existing_body-some :
        (s t : World) (u : User) (o : Option User)
        → find_email email s.db ≡ some u
        → existing_body cfg draw google_id name email s ≡ (ok o, t)
        → o ≡ some u
    unfolding existing_body link_existing
    existing_body-some s t u o e h = elim (Bool-cases (is_mismatch google_id u)) [
      | inl other ↦ ground arith
      | inr same ↦ elim (Outcome-cases (assert_user_not_restricted draw.tokens.now u.id s)) [
        | inr (f, s', k) ↦ ground arith
        | inl (x, s', k) ↦ ground arith
      ]
    ]

  -- Whatever other calls commit meanwhile (`others`), if `googleLogin` hands out tokens for a user
  -- that exists, then the row it found by the address or by the Google id, before or after those
  -- calls, is that user's and has no second factor switched on.
  pub google_login_as-signed_in :
      (rc : RegisterConfig) (others : World → World) (payload : Payload) (w : World)
      (pair : TokenPair)
      → (google_login_as cfg draw rc others payload w).0 ≡ ok (signed_in pair)
      → (u : User) × IsFor pair u
        × (IsLinked payload.sub (rc.lower payload.email) w u
            ⊎ IsLinked payload.sub (rc.lower payload.email) (others w) u)
  unfolding google_login_as enter_verified
  google_login_as-signed_in rc others payload w pair h =
      let email = rc.lower payload.email in
      let name = or_text payload.name "" in
      let body = existing_body cfg draw payload.sub name email in
      elim (Bool-cases (str_eq payload.sub "" || str_eq payload.email "")) [
        | inl bad ↦ ground arith
        | inr good ↦ elim (Bool-cases payload.email_verified) [
          | inr unverified ↦ ground arith
          | inl verified ↦ elim (Outcome-cases (transaction_on restore_db body w)) [
            | inr (f, s, k) ↦ ground arith
            | inl (o, s, k) ↦
                let ran = transaction_on-ok restore_db body w k in
                elim (Option-cases (find_email email w.db)) [
                  | inl e ↦
                      let at = existing_body-none payload.sub name email w e in
                      let runs : google_login_as cfg draw rc others payload w
                          ≡ enter_by_google cfg draw rc payload.sub email name others w =
                        ground (arith, sym ran ∙ at) in
                      enter_by_google-signed_in rc payload.sub email name others w pair
                        (ap (λ x. x.0) (sym runs) ∙ h)
                  | inr (u, e) ↦
                      let same = existing_body-some payload.sub name email w s u o e ran in
                      let runs : google_login_as cfg draw rc others payload w ≡ enter cfg draw u s =
                        ground arith in
                      (u, enter-signed_in u s pair (ap (λ x. x.0) (sym runs) ∙ h), inl (inl e))
                ]
          ]
        ]
      ]
