-- ===== src/Accounting/Tests.antt =====
-- Runs of the accounting, and its theorem at a concrete input.
use mathlib.Core.Option
use public_intelligence.Prelude.{
  ℕ, ◌-◌, ◌≡◌, refl, true, false, ◌&&◌, none, some, [], str_eq, if◌then◌else◌,
}
use public_intelligence.Prelude.Dict.{lookup, insert}
use public_intelligence.Models.{Node}
use public_intelligence.Store.{save_account}
use public_intelligence.Metering.{record_usage}
use public_intelligence.Credits.{
  CreditLedger, earned_for, get_or_create_account, put_account, record_host_contribution,
}
use public_intelligence.Credits.Accrual.{statement}
use public_intelligence.Accounting.{Served, meter_request}
use public_intelligence.Accounting.Credited.{at_least_zero, worth, statement-meter_request}
use public_intelligence.Examples.{tenths, no_rows, node_a}

program : Unit {0}
unfolding lookup insert save_account put_account record_usage earned_for get_or_create_account
    record_host_contribution meter_request
program = tt

abbrev fresh : CreditLedger ℕ (Node ℕ)
fresh = record { store = some no_rows; accounts = [] }

-- Half an hour on a node with 16 GB of VRAM.
abbrev served : Served ℕ
served = record {
  request_id = "r1";
  tenant_id = "t";
  node = node_a;
  model = "m";
  prompt_tokens = 3;
  completion_tokens = 4;
  started_at = 10;
  succeeded = true;
  perf_counter = 18010;
  now = 5;
}

credited :
    Option.map
      (statement "a")
      (meter_request served (record { usage_meter = none; ledger = some fresh })).ledger
    ≡ some (8000, 0)
unfolding program
credited = refl

failed_uncredited :
    (meter_request
      (record served { succeeded = false })
      (record { usage_meter = none; ledger = some fresh })).ledger
    ≡ some fresh
unfolding program
failed_uncredited = refl

statement-meter_request_example :
    let earned = worth served.node (at_least_zero (served.perf_counter - served.started_at)) in
    Option.map
      (statement "a")
      (meter_request served (record { usage_meter = none; ledger = some fresh })).ledger
    ≡ some (
        if true && str_eq "a" "a"
        then (tenths.add (statement "a" fresh).0 earned, (statement "a" fresh).1)
        else statement "a" fresh)
statement-meter_request_example = statement-meter_request served none fresh "a"
