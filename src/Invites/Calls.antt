-- ===== src/Invites/Calls.antt =====
-- The calls that change the invite registry, a restart of the Scheduler among them.
use public_intelligence.Prelude.{ℕ, ◌+◌, String, none, some, List, [], ◌∷◌, str_eq, if◌then◌else◌}
use public_intelligence.Invites.{InviteRegistry, load, issue, redeem, revoke}

pub data Call (F : Type 0) : Type 0 where
  issue_call : String → String → ℕ → F → Call F
  redeem_call : String → Call F
  revoke_call : String → Call F
  restart_call : Call F

module _ {F P : Type 0} where
  -- `InviteRegistry(store)` and its `load`, on the store of the process that ended.
  unfoldable pub restart : InviteRegistry F P → InviteRegistry F P
  restart r = load (record { store = r.store; invites = [] })

  module _ (hash : String → String) where
    unfoldable pub apply : Call F → InviteRegistry F P → InviteRegistry F P
    apply (issue_call code label max_uses now) r = elim (issue hash code label max_uses now r) [
      | none ↦ r
      | some (invite, r') ↦ r'
    ]
    apply (redeem_call code) r = (redeem hash code r).1
    apply (revoke_call code) r = (revoke hash code r).1
    apply restart_call r = restart r

    unfoldable pub run : List (Call F) → InviteRegistry F P → InviteRegistry F P
    run [] r = r
    run (call ∷ calls) r = run calls (apply call r)

    -- 1 if the call admits a node under the code with this hash.
    unfoldable pub admits : String → Call F → InviteRegistry F P → ℕ
    admits h (redeem_call code) r = elim (redeem hash code r).0 [
      | none ↦ 0
      | some _ ↦ if str_eq (hash code) h then 1 else 0
    ]
    admits h _ r = 0

    -- How many nodes the calls admit under it.
    unfoldable pub admissions : String → List (Call F) → InviteRegistry F P → ℕ
    admissions h [] r = 0
    admissions h (call ∷ calls) r = admits h call r + admissions h calls (apply call r)
