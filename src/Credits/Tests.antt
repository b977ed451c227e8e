-- ===== src/Credits/Tests.antt =====
-- Runs of the credit ledger, and its theorems at concrete inputs.
use public_intelligence.Prelude.{ℕ, ◌≡◌, refl, true, some, List, [], ◌∷◌, arith}
use public_intelligence.Prelude.Dict.{lookup, insert}
use public_intelligence.Models.{Node}
use public_intelligence.Store.{load_accounts, save_account}
use public_intelligence.Credits.{
  CreditLedger, earned_for, load, get_or_create_account, put_account, record_host_contribution,
  deduct_usage,
}
use public_intelligence.Credits.Accrual.{statement}
use public_intelligence.Credits.Durable.{
  Call, enquire_call, contribute_call, deduct_call, restart_call, restart, apply, run, IsSaved,
  Agrees, StaysSound, statement-restart-run,
}
use public_intelligence.Examples.{tenths, no_rows}

program : Unit {0}
unfolding lookup insert load_accounts save_account load get_or_create_account put_account
    record_host_contribution deduct_usage earned_for restart apply run
program = tt

abbrev fresh : CreditLedger ℕ (Node ℕ)
fresh = record { store = some no_rows; accounts = [] }

-- Half an hour of a card with 16 GB, and an hour of 32 GB of memory on a host without a card.
abbrev calls : List (Call ℕ)
calls =
    enquire_call 1 "c"
    ∷ contribute_call 2 "a" 160 18000 320
    ∷ contribute_call 3 "b" 0 36000 320
    ∷ restart_call
    ∷ deduct_call 4 "a" 500
    ∷ []

calls-credits :
    (statement "a" (run calls fresh) ≡ (8000, 500)) × (statement "b" (run calls fresh) ≡ (3200, 0))
unfolding program
calls-credits = (refl, refl)

fresh-IsSaved : IsSaved fresh no_rows
fresh-IsSaved = ground arith

fresh-Agrees : Agrees "a" fresh no_rows
unfolding program
fresh-Agrees = refl

calls-StaysSound : StaysSound calls fresh
unfolding program
calls-StaysSound = ground arith

statement-restart-run_example :
    ((restart (run calls fresh)).0 ≡ true)
    × (statement "a" (restart (run calls fresh)).1 ≡ statement "a" (run calls fresh))
statement-restart-run_example =
    statement-restart-run "a" calls fresh no_rows fresh-IsSaved fresh-Agrees calls-StaysSound
