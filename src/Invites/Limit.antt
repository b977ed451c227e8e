-- ===== src/Invites/Limit.antt =====
-- How often a code admits a node, across restarts, and how long admission stays enforced.
use Prim.Native.Nat.{min}
use public_intelligence.Prelude.{
  ℕ, zero, suc, ◌+◌, ◌-◌, ◌≡◌, ◌≢◌, ◌≤◌, inl, inr, String, true, Option, none, some, List, [], ◌∷◌,
  arith, eq_iff, eq_refl, is_truthy, if◌then◌else◌, Option-cases, replicate,
}
use public_intelligence.Prelude.Dict.{lookup, lookup-insert, is_nonempty-insert}
use public_intelligence.Models.{InviteCode}
use public_intelligence.Store.{Tables}
use public_intelligence.Invites.{InviteRegistry, enforcing, verify, issue, redeem, revoke}
use public_intelligence.Invites.Calls.{
  Call, issue_call, redeem_call, revoke_call, restart_call, apply, run, admits, admissions,
}
use public_intelligence.Invites.Valid.{IsValid, IsFresh, stored_after, apply-IsValid, restart-valid}

module _ {F : Type 0} where
  abbrev pub uses_left : Option (InviteCode F) → ℕ
  uses_left none = 0
  uses_left (some invite) = if invite.revoked then 0 else invite.max_uses - invite.uses

module _ {F P : Type 0} where
  -- How many more nodes the code with this hash may admit.
  unfoldable pub remaining : String → InviteRegistry F P → ℕ
  remaining h r = uses_left (lookup h r.invites)

  module _ (hash : String → String) where
    abbrev pub AreFresh : List (Call F) → InviteRegistry F P → Type 0
    AreFresh [] r = Unit
    AreFresh (call ∷ calls) r = IsFresh hash call r × AreFresh calls (apply hash call r)

    abbrev StepsDown : String → Call F → InviteRegistry F P → Type 0
    StepsDown h call r =
        (admits hash h call r + remaining h (apply hash call r) ≤ remaining h r)
        × (lookup h (apply hash call r).invites ≢ none)

    step-remaining :
        (h : String) (call : Call F) (r : InviteRegistry F P) (s : Tables F P)
        → IsFresh hash call r
        → IsValid r s
        → lookup h r.invites ≢ none
        → StepsDown h call r
    unfolding apply admits issue verify redeem revoke remaining
    step-remaining h (issue_call code label max_uses now) r s f v known =
        grind (arith, lookup-insert, eq_iff (hash code) h)
    step-remaining h (redeem_call code) r s f v known =
        elim (Option-cases (lookup (hash code) r.invites)) [
          | inl unknown_code ↦ grind arith
          | inr (invite, found) ↦ grind (arith, lookup-insert, eq_iff (hash code) h)
        ]
    step-remaining h (revoke_call code) r s f v known =
        elim (Option-cases (lookup (hash code) r.invites)) [
          | inl unknown_code ↦ grind arith
          | inr (invite, found) ↦ grind (arith, lookup-insert, eq_iff (hash code) h)
        ]
    step-remaining h restart_call r s f v known = rw (restart-valid r s v) (grind arith)

    -- Whatever the calls, restarts included, a code that was issued admits no more nodes than its
    -- uses leave, and none once it is revoked.
    pub admissions-le-remaining :
        (h : String) (calls : List (Call F)) (r : InviteRegistry F P) (s : Tables F P)
        → AreFresh calls r
        → IsValid r s
        → lookup h r.invites ≢ none
        → admissions hash h calls r ≤ remaining h r
    unfolding admissions
    admissions-le-remaining h [] r s f v known = omega arith
    admissions-le-remaining h (call ∷ calls) r s f v known =
        let (less, known') = step-remaining h call r s f.0 v known in
        let rest =
          admissions-le-remaining h calls (apply hash call r) (stored_after hash call r s) f.1
            (apply-IsValid hash call r s f.0 v) known' in
        omega arith

    pub redeem_once :
        (code : String) (r : InviteRegistry F P)
        → is_truthy code ≡ true
        → let h = hash code in
          (admits hash h (redeem_call code) r ≡ min 1 (remaining h r))
          × (remaining h (apply hash (redeem_call code) r) ≡ remaining h r - 1)
    unfolding apply admits verify redeem remaining
    redeem_once code r t = elim (Option-cases (lookup (hash code) r.invites)) [
      | inl unknown_code ↦ grind arith
      | inr (invite, found) ↦ grind (arith, lookup-insert, eq_refl (hash code))
    ]

    -- Redeeming a code n times in a row admits as many nodes as its uses leave, at most n.
    pub admissions-replicate :
        (code : String) (n : ℕ) (r : InviteRegistry F P) (s : Tables F P)
        → is_truthy code ≡ true
        → IsValid r s
        → admissions hash (hash code) (replicate n (redeem_call code)) r
          ≡ min n (remaining (hash code) r)
    unfolding admissions
    admissions-replicate code zero r s t v = omega arith
    admissions-replicate code (suc n) r s t v =
        let (first, left) = redeem_once code r t in
        let rest =
          admissions-replicate code n (apply hash (redeem_call code) r)
            (stored_after hash (redeem_call code) r s) t (apply-IsValid hash _ r s tt v) in
        omega arith

    apply-enforcing :
        (call : Call F) (r : InviteRegistry F P) (s : Tables F P)
        → IsValid r s
        → enforcing r ≡ true
        → enforcing (apply hash call r) ≡ true
    unfolding apply issue verify redeem revoke enforcing
    apply-enforcing (issue_call code label max_uses now) r s v e = grind (arith, is_nonempty-insert)
    apply-enforcing (redeem_call code) r s v e = grind (arith, is_nonempty-insert)
    apply-enforcing (revoke_call code) r s v e = grind (arith, is_nonempty-insert)
    apply-enforcing restart_call r s v e = rw (restart-valid r s v) e

    -- Once a code was issued, registration never opens again, not even by a restart.
    pub run-enforcing :
        (calls : List (Call F)) (r : InviteRegistry F P) (s : Tables F P)
        → AreFresh calls r
        → IsValid r s
        → enforcing r ≡ true
        → enforcing (run hash calls r) ≡ true
    unfolding run
    run-enforcing [] r s f v e = e
    run-enforcing (call ∷ calls) r s f v e =
        run-enforcing calls (apply hash call r) (stored_after hash call r s) f.1
          (apply-IsValid hash call r s f.0 v) (apply-enforcing call r s v e)
