-- ===== src/Invites/Tests.antt =====
-- Runs of the invite registry, and its theorems at concrete inputs. The hash is the identity.
use Prim.Native.Nat.{min}
use public_intelligence.Prelude.{
  ℕ, ◌≡◌, ◌≤◌, ◌≢◌, refl, String, true, false, none, some, List, [], ◌∷◌, arith, replicate,
}
use public_intelligence.Prelude.Dict.{lookup, insert}
use public_intelligence.Models.{Node}
use public_intelligence.Store.{Tables, load_invites, save_invite}
use public_intelligence.Invites.{InviteRegistry, load, issue, verify, redeem, revoke, enforcing}
use public_intelligence.Invites.Calls.{
  Call, issue_call, redeem_call, revoke_call, restart_call, restart, apply, run, admits, admissions,
}
use public_intelligence.Invites.Valid.{IsValid}
use public_intelligence.Invites.Limit.{
  remaining, AreFresh, admissions-le-remaining, admissions-replicate, run-enforcing,
}
use public_intelligence.Examples.{no_rows}

program : Unit {0}
unfolding lookup insert load_invites save_invite load issue verify redeem revoke enforcing restart
    apply run admits admissions remaining
program = tt

abbrev hash : String → String
hash code = code

abbrev two_uses : InviteRegistry ℕ (Node ℕ)
two_uses =
    let invites =
      (
        "k",
        record {
          code_hash = "k";
          label = "lab";
          max_uses = 2;
          uses = 0;
          revoked = false;
          created_at = 5;
        },
      )
      ∷ [] in
    record { store = some (record no_rows { invites = invites }); invites = invites }

-- A restart between the redemptions does not bring a use back.
abbrev calls : List (Call ℕ)
calls =
    redeem_call "k"
    ∷ issue_call "j" "other" 1 6
    ∷ restart_call
    ∷ redeem_call "k"
    ∷ restart_call
    ∷ redeem_call "k"
    ∷ revoke_call "j"
    ∷ redeem_call "j"
    ∷ []

calls-admissions : admissions hash "k" calls two_uses ≡ 2
unfolding program
calls-admissions = refl

revoked-admissions : admissions hash "j" calls two_uses ≡ 0
unfolding program
revoked-admissions = refl

abbrev rows : Tables ℕ (Node ℕ)
rows = record no_rows { invites = two_uses.invites }

two_uses-IsValid : IsValid two_uses rows
unfolding program
two_uses-IsValid = ground arith

calls-AreFresh : AreFresh hash calls two_uses
unfolding program
calls-AreFresh = ground arith

known : lookup "k" two_uses.invites ≢ none
unfolding program
known = ground arith

admissions-le-remaining_example : admissions hash "k" calls two_uses ≤ remaining "k" two_uses
admissions-le-remaining_example =
    admissions-le-remaining hash "k" calls two_uses rows calls-AreFresh two_uses-IsValid known

admissions-replicate_example :
    admissions hash (hash "k") (replicate 3 (redeem_call "k")) two_uses
    ≡ min 3 (remaining (hash "k") two_uses)
admissions-replicate_example = admissions-replicate hash "k" 3 two_uses rows refl two_uses-IsValid

run-enforcing_example : enforcing (run hash calls two_uses) ≡ true
unfolding program
run-enforcing_example = run-enforcing hash calls two_uses rows calls-AreFresh two_uses-IsValid refl
