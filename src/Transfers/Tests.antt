-- ===== src/Transfers/Tests.antt =====
-- Concrete inputs for the theorems on transfers: user 1 is owed 30.00, users 2 and 3 owe 10.00
-- and 20.00.
use coldfi.Prelude.{◌≤◌, ◌≡◌, refl, some, [], ◌∷◌, pos, negsuc, List}
use coldfi.Money.{round_cents}
use coldfi.Transfers.Engine.{Balance, TransferResult, generate_minimal_transfers}
use coldfi.Transfers.Loop.{received, paid}
use coldfi.Transfers.Settled.{generate_minimal_transfers_total, generate_minimal_transfers_settle}

abbrev three_balances : List Balance
three_balances =
    record { user_id = 1; net = pos 3_000_000 }
    ∷ record { user_id = 2; net = negsuc 999_999 }
    ∷ record { user_id = 3; net = negsuc 1_999_999 }
    ∷ []

generate_minimal_transfers_total_example :
    (r : TransferResult) × (generate_minimal_transfers "EUR" (λ u. []) three_balances ≡ some r)
    × (r.total_amount ≡ 3_000_000)
    × (r.total_transfers ≤ 2)
unfolding round_cents
generate_minimal_transfers_total_example =
    generate_minimal_transfers_total "EUR" (λ u. []) three_balances

generate_minimal_transfers_settle_example :
    (r : TransferResult) × (generate_minimal_transfers "EUR" (λ u. []) three_balances ≡ some r)
    × (received 1 r.transfers ≡ 3_000_000)
    × (paid 1 r.transfers ≡ 0)
unfolding round_cents
generate_minimal_transfers_settle_example =
    generate_minimal_transfers_settle "EUR" (λ u. []) three_balances 1 refl
