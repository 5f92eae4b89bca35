-- ===== src/Balances/Debts.antt =====
-- The table `pairwise` of `computeNetBalances`: the debts of each currency, and its updates.
--
-- A debt that no entry records counts as 0, as `pairs[from][to] || 0` does, so the debts of a
-- currency are a function of the two users.
use Prim.Native.String.{String}
use text.Mathlib.Text.{◌==◌ as str_eq}
use coldfi.Prelude.{
  ℕ, ◌==◌, Bool, not, ◌&&◌, List, [], ◌∷◌, ◌++◌, any, ℤ, pos, ◌+ℤ◌, ◌-ℤ◌, ltb_ℤ, leb_ℤ,
  if◌then◌else◌,
}

abbrev pub Debts : Type 0
Debts = ℕ → ℕ → ℤ

abbrev pub set_debt : ℕ → ℕ → ℤ → Debts → Debts
set_debt from to v debts i j = if i == from && j == to then v else debts i j

pub record Bucket : Type 0 where
  pub currency : String
  pub debts : Debts

abbrev pub Pairwise : Type 0
Pairwise = List Bucket

abbrev pub no_debts : Debts
no_debts i j = pos 0

abbrev pub has_bucket : String → Pairwise → Bool
has_bucket currency ps = any (λ (b : Bucket). str_eq b.currency currency) ps

-- `initMemberPairs`
unfoldable pub init_member_pairs : String → Pairwise → Pairwise
init_member_pairs currency ps =
    if has_bucket currency ps
    then ps
    else ps ++ (record { currency = currency; debts = no_debts } ∷ [])

-- an assignment to entries of `pairwise[currency]`
abbrev pub update_debts : String → (Debts → Debts) → Pairwise → Pairwise
update_debts currency f [] = []
update_debts currency f (b ∷ ps) =
    if str_eq b.currency currency
    then record b { debts = f b.debts } ∷ ps
    else b ∷ update_debts currency f ps

module _ (member_ids : List ℕ) where
  abbrev pub owes_anyone : Debts → Bool
  owes_anyone debts = any (λ i. any (λ j. ltb_ℤ (pos 0) (debts i j)) member_ids) member_ids

  -- `bucketHasDebt`
  unfoldable pub bucket_has_debt : String → Pairwise → Bool
  bucket_has_debt currency ps =
      any (λ (b : Bucket). str_eq b.currency currency && owes_anyone b.debts) ps

abbrev pub add_debt : ℕ → ℕ → ℤ → Debts → Debts
add_debt from to amount debts = set_debt from to (debts from to +ℤ amount) debts

-- a payment: what it pays beyond the debt is owed back
unfoldable pub pay_debt : ℕ → ℕ → ℤ → Debts → Debts
pay_debt from to amount debts =
    let remaining = debts from to -ℤ amount in
    let cleared = set_debt from to (pos 0) debts in
    if leb_ℤ (pos 0) remaining
    then set_debt from to remaining debts
    else set_debt to from (cleared to from +ℤ (pos 0 -ℤ remaining)) cleared

-- one round of the loop that sets debts in both directions off against each other
unfoldable pub net_pair : ℕ → ℕ → Debts → Debts
net_pair a b debts =
    let net = debts a b -ℤ debts b a in
    if a == b
    then debts
    else if not (ltb_ℤ (pos 0) (debts a b) && ltb_ℤ (pos 0) (debts b a))
    then debts
    else if ltb_ℤ (pos 0) net
    then set_debt b a (pos 0) (set_debt a b net debts)
    else if ltb_ℤ net (pos 0)
    then set_debt a b (pos 0) (set_debt b a (pos 0 -ℤ net) debts)
    else set_debt b a (pos 0) (set_debt a b (pos 0) debts)
