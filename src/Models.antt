-- ===== src/Models.antt =====
-- The data that the Scheduler keeps (packages/scheduler/src/scheduler/models/node.py and
-- heartbeat.py, core/credit_ledger.py, core/metering.py, core/invites.py). `F` is the type of
-- floating-point numbers; a timestamp is a number of microseconds.
use public_intelligence.Prelude.{ℕ, String, Bool, List}
use public_intelligence.Prelude.Dict.{Dict}

pub data NodeStatus : Type 0 where
  online offline busy unknown : NodeStatus

pub record GpuInfo (F : Type 0) : Type 0 where
  pub name : String
  pub vram_total_gb : F
  pub vram_available_gb : F

pub record Node (F : Type 0) : Type 0 where
  pub node_id : String
  pub hostname : String
  pub ip_address : String
  pub region : String
  pub gpu : GpuInfo F
  pub cpu_cores : ℕ
  pub ram_total_gb : F
  pub available_models : List String

pub record Heartbeat (F : Type 0) : Type 0 where
  pub node_id : String
  pub timestamp : ℕ
  pub status : NodeStatus
  pub queue_length : ℕ
  pub cpu_utilization : F
  pub ram_available_gb : F
  pub gpu_utilization : F
  pub vram_available_gb : F

-- A value of a telemetry envelope: a number or a text.
pub data Reading (F : Type 0) : Type 0 where
  number : F → Reading F
  text : String → Reading F

abbrev pub Telemetry : Type 0 → Type 0
Telemetry F = Dict (Reading F)

pub record CreditAccount (F : Type 0) : Type 0 where
  pub account_id : String
  pub earned_credits : F
  pub consumed_credits : F
  pub updated_at : F

pub record UsageRecord (F : Type 0) : Type 0 where
  pub request_id : String
  pub tenant_id : String
  pub node_id : String
  pub model : String
  pub prompt_tokens : ℕ
  pub completion_tokens : ℕ
  pub duration_seconds : F
  pub succeeded : Bool
  pub recorded_at : F

pub record InviteCode (F : Type 0) : Type 0 where
  pub code_hash : String
  pub label : String
  pub max_uses : ℕ
  pub uses : ℕ
  pub revoked : Bool
  pub created_at : F
