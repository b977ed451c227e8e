-- ===== src/Accounting/Credited.antt =====
-- Whom a served request credits.
use mathlib.Core.Option
use public_intelligence.Prelude.{
  ◌≡◌, ap, String, ◌&&◌, Option, some, str_eq, if◌then◌else◌, Bool-cases, inl, inr,
}
use public_intelligence.Prelude.Float.{Floats}
use public_intelligence.Models.{Node}
use public_intelligence.Metering.{UsageMeter}
use public_intelligence.Credits.{CreditLedger, earned_for}
use public_intelligence.Credits.Accrual.{statement, statement-record_host_contribution}
use public_intelligence.Accounting.{Served, duration_of, meter_request}

module _ {F : Type 0} ⦃fl : Floats F⦄ where
  abbrev pub at_least_zero : F → F
  at_least_zero x = if fl.lt (fl.decimal 0 1) x then x else fl.decimal 0 1

  -- What a node earns in so many seconds: 100 credits for each hour and GB of its VRAM, or 10 for
  -- each hour and GB of its RAM if it has no VRAM.
  abbrev pub worth : Node F → F → F
  worth node seconds =
      let hours = fl.div (at_least_zero seconds) (fl.of_ℕ 3600) in
      let vram = at_least_zero node.gpu.vram_total_gb in
      if fl.lt (fl.decimal 0 1) vram
      then fl.mul (fl.mul vram hours) (fl.of_ℕ 100)
      else fl.mul (fl.mul (at_least_zero node.ram_total_gb) hours) (fl.of_ℕ 10)

module _ {F P : Type 0} ⦃fl : Floats F⦄ where
  -- A request credits its node alone, by what its memory is worth in the time that it took (100
  -- credits for each hour and GB of VRAM, or 10 of RAM on a node without VRAM), and only if it
  -- succeeded; no balance of another account changes, and nothing is consumed.
  pub statement-meter_request :
      (served : Served F) (meter : Option (UsageMeter F P)) (l : CreditLedger F P) (k : String)
      → let node = served.node in
        let earned = worth node (at_least_zero (fl.sub served.perf_counter served.started_at)) in
        Option.map
          (statement k)
          (meter_request served (record { usage_meter = meter; ledger = some l })).ledger
        ≡ some (
            if served.succeeded && str_eq node.node_id k
            then (fl.add (statement k l).0 earned, (statement k l).1)
            else statement k l)
  unfolding meter_request earned_for
  statement-meter_request served meter l k =
      let node = served.node in
      let credited =
        statement-record_host_contribution k served.now node.node_id node.gpu.vram_total_gb
          (duration_of served) node.ram_total_gb l in
      elim (Bool-cases served.succeeded) [
        | inl e ↦ rw (meter_request, e) (ap some credited)
        | inr e ↦ rw (meter_request, e)
      ]
