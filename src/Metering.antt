-- ===== src/Metering.antt =====
-- The usage meter (packages/scheduler/src/scheduler/core/metering.py): a bounded tail of usage
-- records in memory, and the whole history in the store.
pub mod Window
pub mod Sums
mod Tests
use mathlib.Core.Option
use public_intelligence.Prelude.{
  ℕ, ◌+◌, String, Bool, true, false, Option, none, some, List, [], ◌∷◌, ◌++◌, reverse, length, keep,
  last_items, ltb, ◌==◌, str_eq, if◌then◌else◌,
}
use public_intelligence.Prelude.Float.{Floats}
use public_intelligence.Models.{UsageRecord}
use public_intelligence.Store.{Tables, load_usage, save_usage}

abbrev pub max_recent : ℕ
max_recent = 500

pub record UsageMeter (F P : Type 0) : Type 0 where
  pub store : Option (Tables F P)
  pub recent : List (UsageRecord F)

-- What `totals_for_node` counts, before `float` is taken.
pub record Counts : Type 0 where
  pub requests : ℕ
  pub prompt_tokens : ℕ
  pub completion_tokens : ℕ
  pub failed_requests : ℕ

pub record Totals (F : Type 0) : Type 0 where
  pub requests : F
  pub prompt_tokens : F
  pub completion_tokens : F
  pub failed_requests : F

module _ {F : Type 0} where
  abbrev pub total_tokens : UsageRecord F → ℕ
  total_tokens usage = usage.prompt_tokens + usage.completion_tokens

  -- The slice `records[-limit:]`, which is the whole list at limit 0.
  abbrev pub slice_last : ℕ → List (UsageRecord F) → List (UsageRecord F)
  slice_last limit records = if limit == 0 then records else last_items limit records

  abbrev pub is_of_node : String → UsageRecord F → Bool
  is_of_node node_id usage = str_eq usage.node_id node_id

  abbrev pub add_counts : UsageRecord F → Counts → Counts
  add_counts usage counts = record {
    requests = counts.requests + 1;
    prompt_tokens = counts.prompt_tokens + usage.prompt_tokens;
    completion_tokens = counts.completion_tokens + usage.completion_tokens;
    failed_requests =
        if usage.succeeded then counts.failed_requests else counts.failed_requests + 1;
  }

  unfoldable pub count_records : List (UsageRecord F) → Counts
  count_records [] = record {
    requests = 0;
    prompt_tokens = 0;
    completion_tokens = 0;
    failed_requests = 0;
  }
  count_records (usage ∷ records) = add_counts usage (count_records records)

module _ {F P : Type 0} where
  unfoldable pub load : ⦃fl : Floats F⦄ → UsageMeter F P → UsageMeter F P
  load m = elim m.store [
    | none ↦ m
    | some s ↦ record m { recent = last_items max_recent (load_usage max_recent s) }
  ]

  unfoldable pub record_usage : UsageRecord F → UsageMeter F P → UsageMeter F P
  record_usage usage m =
      let appended = m.recent ++ (usage ∷ []) in
      record {
        store = Option.map (save_usage usage) m.store;
        recent =
            if ltb max_recent (length appended) then last_items max_recent appended else appended;
      }

  -- `recent`: newest first, for one node or for all.
  unfoldable pub recent_records : Option String → ℕ → UsageMeter F P → List (UsageRecord F)
  recent_records none limit m = reverse (slice_last limit m.recent)
  recent_records (some node_id) limit m =
      reverse (slice_last limit (keep (is_of_node node_id) m.recent))

  unfoldable pub totals_for_node : ⦃fl : Floats F⦄ → String → UsageMeter F P → Totals F
  totals_for_node ⦃fl⦄ node_id m =
      let counts = count_records (keep (is_of_node node_id) m.recent) in
      record {
        requests = fl.of_ℕ counts.requests;
        prompt_tokens = fl.of_ℕ counts.prompt_tokens;
        completion_tokens = fl.of_ℕ counts.completion_tokens;
        failed_requests = fl.of_ℕ counts.failed_requests;
      }
