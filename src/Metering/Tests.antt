-- ===== src/Metering/Tests.antt =====
-- Runs of the usage meter, and its theorems at concrete inputs.
use public_intelligence.Prelude.{ℕ, ◌≡◌, refl, false, some, List, [], ◌∷◌, ◌++◌, arith, last_items}
use public_intelligence.Models.{Node, UsageRecord}
use public_intelligence.Store.{Tables, load_usage, save_usage}
use public_intelligence.Metering.{UsageMeter, load, record_usage, recent_records, count_records}
use public_intelligence.Metering.Window.{
  record_all, Tracks, AreValid, record_all-Tracks, load-record_all,
}
use public_intelligence.Examples.{tenths, no_rows, usage_a}

program : Unit {0}
unfolding load_usage save_usage load record_usage recent_records count_records record_all last_items
program = tt

abbrev usage_b : UsageRecord ℕ
usage_b = record usage_a { request_id = "r2"; node_id = "b"; succeeded = false }

abbrev usages : List (UsageRecord ℕ)
usages = usage_a ∷ usage_b ∷ usage_a ∷ []

abbrev fresh : UsageMeter ℕ (Node ℕ)
fresh = record { store = some no_rows; recent = [] }

newest_first : recent_records (some "b") 5 (record_all usages fresh) ≡ usage_b ∷ []
unfolding program
newest_first = refl

fresh-Tracks : Tracks [] fresh no_rows
unfolding program
fresh-Tracks = ground arith

usages-AreValid : AreValid usages
usages-AreValid = ground arith

record_all-Tracks_example :
    (s : Tables ℕ (Node ℕ)) × Tracks ([] ++ usages) (record_all usages fresh) s
record_all-Tracks_example = record_all-Tracks usages [] fresh no_rows fresh-Tracks

load-record_all_example :
    let m : UsageMeter ℕ (Node ℕ) =
      record_all usages (record { store = some no_rows; recent = [] }) in
    load (record { store = m.store; recent = [] }) ≡ m
load-record_all_example = load-record_all usages no_rows refl usages-AreValid
