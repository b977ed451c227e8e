-- ===== src/Examples.antt =====
-- Concrete parameters and data for the tests: fixed-point numbers with one decimal in the place
-- of floats, and nodes that are stored as they are.
use public_intelligence.Prelude.{
  ℕ, ◌≡◌, false, ◌+◌, ◌-◌, ◌*◌, ◌/◌, ◌^◌, true, none, some, [], ◌∷◌, leb, ltb, ◌==◌, if◌then◌else◌,
  arith,
}
use public_intelligence.Prelude.Float.{Floats, FloatOrder}
use public_intelligence.Models.{Node, Heartbeat, NodeStatus, UsageRecord}
use public_intelligence.Store.{Codec, Tables, empty_tables}

-- The number n stands for n / 10.
instance abbrev pub tenths : Floats ℕ
tenths = record {
  decimal = λ m k. m * 10 / 10 ^ k;
  of_ℕ = λ n. n * 10;
  add = λ a b. a + b;
  sub = λ a b. a - b;
  mul = λ a b. a * b / 10;
  div = λ a b. a * 10 / b;
  lt = ltb;
  le = leb;
  eq = λ a b. a == b;
}

instance abbrev pub plain : Codec ℕ (Node ℕ)
plain = record {
  dump_json = λ node. node;
  validate_json = λ node. if leb 1 node.cpu_cores then some node else none;
}

abbrev pub no_rows : Tables ℕ (Node ℕ)
no_rows = empty_tables

abbrev pub node_a : Node ℕ
node_a = record {
  node_id = "a";
  hostname = "host-a";
  ip_address = "10.0.0.1";
  region = "eu";
  gpu = record { name = "card"; vram_total_gb = 160; vram_available_gb = 80 };
  cpu_cores = 8;
  ram_total_gb = 320;
  available_models = "m" ∷ [];
}

abbrev pub node_b : Node ℕ
node_b = record node_a { node_id = "b"; hostname = "host-b"; available_models = [] }

abbrev pub beat_a : Heartbeat ℕ
beat_a = record {
  node_id = "a";
  timestamp = 7;
  status = NodeStatus.online;
  queue_length = 2;
  cpu_utilization = 500;
  ram_available_gb = 100;
  gpu_utilization = 300;
  vram_available_gb = 60;
}

abbrev pub usage_a : UsageRecord ℕ
usage_a = record {
  request_id = "r1";
  tenant_id = "t";
  node_id = "a";
  model = "m";
  prompt_tokens = 3;
  completion_tokens = 4;
  duration_seconds = 12;
  succeeded = true;
  recorded_at = 70;
}

pub ltb_asymm : (a b : ℕ) → ltb a b ≡ true → ltb b a ≡ false
ltb_asymm a b h = ground arith

pub ltb_trans : (a b c : ℕ) → ltb a b ≡ false → ltb b c ≡ false → ltb a c ≡ false
ltb_trans a b c h k = ground arith

pub ltb_le : (a b : ℕ) → ltb a b ≡ true → leb b a ≡ false
ltb_le a b h = ground arith

abbrev pub tenths-FloatOrder : FloatOrder tenths
tenths-FloatOrder = record {
  is_number = λ _. true;
  lt_asymm = ltb_asymm;
  nlt_trans = λ a b c n h k. ltb_trans a b c h k;
}
