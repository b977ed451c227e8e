-- ===== src/Accounting.antt =====
-- The accounting of a served request (`_meter` of packages/scheduler/src/scheduler/api/openai.py),
-- over the usage meter and the credit ledger. The store of the meter does not raise here; what the
-- store of the ledger raises ends the call behind the change of the ledger, which is its last step.
pub mod Credited
mod Tests
use mathlib.Core.Option
use public_intelligence.Prelude.{ℕ, String, Bool, Option, none, some, if◌then◌else◌}
use public_intelligence.Prelude.Float.{Floats}
use public_intelligence.Models.{Node, UsageRecord}
use public_intelligence.Metering.{UsageMeter, record_usage}
use public_intelligence.Credits.{CreditLedger, max_zero, record_host_contribution}

-- What the call finds in `app.state`.
pub record Accounts (F P : Type 0) : Type 0 where
  pub usage_meter : Option (UsageMeter F P)
  pub ledger : Option (CreditLedger F P)

-- The arguments of the call, with the readings of the clocks.
pub record Served (F : Type 0) : Type 0 where
  pub request_id : String
  pub tenant_id : String
  pub node : Node F
  pub model : String
  pub prompt_tokens : ℕ
  pub completion_tokens : ℕ
  pub started_at : F
  pub succeeded : Bool
  pub perf_counter : F
  pub now : F

module _ {F : Type 0} ⦃fl : Floats F⦄ where
  -- `max(0.0, time.perf_counter() - started_at)`
  abbrev pub duration_of : Served F → F
  duration_of served = max_zero (fl.sub served.perf_counter served.started_at)

  abbrev pub usage_of : Served F → UsageRecord F
  usage_of served = record {
    request_id = served.request_id;
    tenant_id = served.tenant_id;
    node_id = served.node.node_id;
    model = served.model;
    prompt_tokens = served.prompt_tokens;
    completion_tokens = served.completion_tokens;
    duration_seconds = duration_of served;
    succeeded = served.succeeded;
    recorded_at = served.now;
  }

module _ {F P : Type 0} ⦃fl : Floats F⦄ where
  abbrev credit : Served F → CreditLedger F P → CreditLedger F P
  credit served l =
      let node = served.node in
      (record_host_contribution served.now node.node_id node.gpu.vram_total_gb (duration_of served)
        node.ram_total_gb l).1

  unfoldable pub meter_request : Served F → Accounts F P → Accounts F P
  meter_request served a = record {
    usage_meter = Option.map (record_usage (usage_of served)) a.usage_meter;
    ledger = if served.succeeded then Option.map (credit served) a.ledger else a.ledger;
  }
