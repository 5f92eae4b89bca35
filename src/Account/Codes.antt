-- ===== src/Account/Codes.antt =====
-- The recovery codes of packages/backend/src/services/cryptoUtils.ts: `generateRecoveryCode`,
-- `hashRecoveryCode`, `verifyRecoveryCode`. A code is a list of code points of ASCII; bcrypt is a
-- parameter.
use coldfi.Prelude.{
  ℕ, ◌+◌, ◌≡◌, refl, ap, sym, ◌∙◌, leb, ◌==◌, Bool, true, false, not, ◌&&◌, ◌||◌, List, [], ◌∷◌,
  ◌++◌, map, select, All, arith, if◌then◌else◌, Bool-cases, inl, inr,
}
use coldfi.Account.Emails.{is_space}

pub record Bcrypt : Type 0 where
  -- `hashSync(text, 10)`, with the salt that the call draws
  pub hash_sync : ℕ → List ℕ → ℕ
  pub compare_sync : List ℕ → ℕ → Bool

-- A text compares with its own hash.
pub record IsBcrypt (b : Bcrypt) : Type 0 where
  pub compare-hash : (salt : ℕ) (text : List ℕ) → b.compare_sync text (b.hash_sync salt text) ≡ true

-- `hex.match(/.{4}/g)`: groups of four, and what is left over is dropped
abbrev pub groups : List ℕ → List (List ℕ)
groups (a ∷ b ∷ c ∷ d ∷ rest) = (a ∷ b ∷ c ∷ d ∷ []) ∷ groups rest
groups rest = []

-- `join('-')`
abbrev pub join : List (List ℕ) → List ℕ
join [] = []
join (g ∷ []) = g
join (g ∷ h ∷ gs) = g ++ b'-' ∷ join (h ∷ gs)

-- on the digits of the random bytes
unfoldable pub generate_recovery_code : List ℕ → List ℕ
generate_recovery_code hex = join (groups hex)

abbrev pub trim_start : List ℕ → List ℕ
trim_start [] = []
trim_start (c ∷ cs) = let rest = trim_start cs in if is_space c then rest else c ∷ cs

abbrev pub unless_blank : ℕ → List ℕ → List ℕ
unless_blank c [] = if is_space c then [] else c ∷ []
unless_blank c (d ∷ cs) = c ∷ d ∷ cs

abbrev pub trim_end : List ℕ → List ℕ
trim_end [] = []
trim_end (c ∷ cs) = unless_blank c (trim_end cs)

abbrev pub lower_ascii : ℕ → ℕ
lower_ascii c = if leb b'A' c && leb c b'Z' then c + 32 else c

abbrev pub is_not_dash : ℕ → Bool
is_not_dash c = not (c == b'-')

-- `code.trim().toLowerCase().replace(/-/g, '')`
unfoldable pub normalize_recovery_code : List ℕ → List ℕ
normalize_recovery_code text = select is_not_dash (map lower_ascii (trim_end (trim_start text)))

unfoldable pub hash_recovery_code : Bcrypt → ℕ → List ℕ → ℕ
hash_recovery_code b salt text = b.hash_sync salt (normalize_recovery_code text)

unfoldable pub verify_recovery_code : Bcrypt → List ℕ → ℕ → Bool
verify_recovery_code b text hash = b.compare_sync (normalize_recovery_code text) hash

-- a hexadecimal digit in lower case
abbrev pub is_hex : ℕ → Bool
is_hex c = leb b'0' c && leb c b'9' || leb b'a' c && leb c b'f'

abbrev pub IsHex : List ℕ → Type 0
IsHex = All (λ c. is_hex c ≡ true)

-- a digit or a dash
abbrev pub is_code : ℕ → Bool
is_code c = is_hex c || c == b'-'

abbrev IsCode : List ℕ → Type 0
IsCode = All (λ c. is_code c ≡ true)

code_facts : (c : ℕ) → is_code c ≡ true → (is_space c ≡ false) × (lower_ascii c ≡ c)
code_facts c h = (ground arith, ground arith)

dash_or_hex : (c : ℕ) → is_code c ≡ true → is_not_dash c ≡ true → is_hex c ≡ true
dash_or_hex c h n = ground arith

hex-IsCode : (cs : List ℕ) → IsHex cs → IsCode cs
hex-IsCode [] h = tt
hex-IsCode (c ∷ cs) (h, hs) = (ground arith, hex-IsCode cs hs)

trim_start-code : (cs : List ℕ) → IsCode cs → trim_start cs ≡ cs
trim_start-code [] h = refl
trim_start-code (c ∷ cs) (h, hs) = rw ((code_facts c h).0) refl

trim_end-code : (cs : List ℕ) → IsCode cs → trim_end cs ≡ cs
trim_end-code [] h = refl
trim_end-code (c ∷ cs) (h, hs) = ap (unless_blank c) (trim_end-code cs hs) ∙ keep cs
  where
    keep : (ds : List ℕ) → unless_blank c ds ≡ c ∷ ds
    keep [] = rw ((code_facts c h).0) refl
    keep (d ∷ ds) = refl

lower-code : (cs : List ℕ) → IsCode cs → map lower_ascii cs ≡ cs
lower-code [] h = refl
lower-code (c ∷ cs) (h, hs) = rw ((code_facts c h).1) (ap (λ x. c ∷ x) (lower-code cs hs))

-- Of a text of digits and dashes the digits are left.
normalize-code : (cs : List ℕ) → IsCode cs → normalize_recovery_code cs ≡ select is_not_dash cs
unfolding normalize_recovery_code
normalize-code cs h =
    ap (λ t. select is_not_dash (map lower_ascii t))
      (ap trim_end (trim_start-code cs h) ∙ trim_end-code cs h)
    ∙ ap (select is_not_dash) (lower-code cs h)

select-IsHex : (cs : List ℕ) → IsCode cs → IsHex (select is_not_dash cs)
select-IsHex [] h = tt
select-IsHex (c ∷ cs) (h, hs) = elim (Bool-cases (is_not_dash c)) [
  | inl n ↦ rw n (dash_or_hex c h n, select-IsHex cs hs)
  | inr d ↦ rw d (select-IsHex cs hs)
]

select-hex : (cs : List ℕ) → IsHex cs → select is_not_dash cs ≡ cs
select-hex [] h = refl
select-hex (c ∷ cs) (h, hs) =
    let n : is_not_dash c ≡ true = ground arith in rw n (ap (λ x. c ∷ x) (select-hex cs hs))

append-IsCode : (cs ds : List ℕ) → IsHex cs → IsCode ds → IsCode (cs ++ ds)
append-IsCode [] ds h k = k
append-IsCode (c ∷ cs) ds (h, hs) k = (ground arith, append-IsCode cs ds hs k)

join-IsCode : (gs : List (List ℕ)) → All IsHex gs → IsCode (join gs)
join-IsCode [] h = tt
join-IsCode (g ∷ []) (h, hs) = hex-IsCode g h
join-IsCode (g ∷ k ∷ gs) (h, hs) =
    append-IsCode g (b'-' ∷ join (k ∷ gs)) h (refl, join-IsCode (k ∷ gs) hs)

groups-IsHex : (ds : List ℕ) → IsHex ds → All IsHex (groups ds)
groups-IsHex [] h = tt
groups-IsHex (a ∷ []) h = tt
groups-IsHex (a ∷ b ∷ []) h = tt
groups-IsHex (a ∷ b ∷ c ∷ []) h = tt
groups-IsHex (a ∷ b ∷ c ∷ d ∷ ds) (ha, (hb, (hc, (hd, h)))) =
    ((ha, (hb, (hc, (hd, tt)))), groups-IsHex ds h)

-- Normalising twice is normalising once, on a code that was handed out.
pub normalize-generate :
    (ds : List ℕ)
    → IsHex ds
    → normalize_recovery_code (normalize_recovery_code (generate_recovery_code ds))
      ≡ normalize_recovery_code (generate_recovery_code ds)
unfolding generate_recovery_code
normalize-generate ds h =
    let text = join (groups ds) in
    let code = join-IsCode (groups ds) (groups-IsHex ds h) in
    let hex = select-IsHex text code in
    let once = normalize-code text code in
    ap normalize_recovery_code once
    ∙ normalize-code (select is_not_dash text) (hex-IsCode (select is_not_dash text) hex)
    ∙ select-hex (select is_not_dash text) hex
    ∙ sym once
