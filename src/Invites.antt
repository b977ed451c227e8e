-- ===== src/Invites.antt =====
-- Invite codes (packages/scheduler/src/scheduler/core/invites.py). SHA-256 is the argument `hash`;
-- a fresh random code and the time are arguments of `issue`.
pub mod Calls
pub mod Valid
pub mod Limit
mod Tests
use mathlib.Core.Option
use public_intelligence.Prelude.{
  ℕ, ◌+◌, ◌≡◌, String, Bool, true, false, not, ◌&&◌, Option, none, some, List, [], ◌∷◌, leb,
  is_truthy, is_nonempty, if◌then◌else◌,
}
use public_intelligence.Prelude.Dict.{Dict, lookup, insert}
use public_intelligence.Models.{InviteCode}
use public_intelligence.Store.{Tables, load_invites, save_invite}

pub record InviteRegistry (F P : Type 0) : Type 0 where
  pub store : Option (Tables F P)
  pub invites : Dict (InviteCode F)

module _ {F : Type 0} where
  abbrev pub spent : InviteCode F → Bool
  spent invite = leb invite.max_uses invite.uses

  abbrev pub usable : InviteCode F → Bool
  usable invite = not invite.revoked && not (spent invite)

  -- The loop of `load`.
  unfoldable pub restore_invites : List (InviteCode F) → Dict (InviteCode F) → Dict (InviteCode F)
  restore_invites [] d = d
  restore_invites (invite ∷ invites) d = restore_invites invites (insert invite.code_hash invite d)

module _ {F P : Type 0} where
  unfoldable pub load : InviteRegistry F P → InviteRegistry F P
  unfolding restore_invites
  load r = elim r.store [
    | none ↦ r
    | some s ↦ record r { invites = restore_invites (load_invites s) r.invites }
  ]

  -- True once any code was issued, spent and revoked ones included.
  unfoldable pub enforcing : InviteRegistry F P → Bool
  enforcing r = is_nonempty r.invites

  module _ (hash : String → String) where
    -- `none` is the ValidationError for `max_uses` below 1.
    unfoldable pub issue :
        String → String → ℕ → F → InviteRegistry F P → Option (InviteCode F × InviteRegistry F P)
    issue code label max_uses now r =
        let invite : InviteCode F = record {
          code_hash = hash code;
          label = label;
          max_uses = max_uses;
          uses = 0;
          revoked = false;
          created_at = now;
        } in
        if leb 1 max_uses
        then some (
          invite,
          record {
            store = Option.map (save_invite invite) r.store;
            invites = insert invite.code_hash invite r.invites;
          },
        )
        else none

    unfoldable pub verify : Option String → InviteRegistry F P → Option (InviteCode F)
    verify none r = none
    verify (some code) r =
        if is_truthy code
        then (elim (lookup (hash code) r.invites) [
          | none ↦ none
          | some invite ↦ if usable invite then some invite else none
        ])
        else none

    -- The node id is only logged. The invite object is changed where it stands in the dict.
    unfoldable pub redeem : String → InviteRegistry F P → Option (InviteCode F) × InviteRegistry F P
    unfolding verify
    redeem code r = elim (verify (some code) r) [
      | none ↦ (none, r)
      | some invite ↦
          let invite' : InviteCode F = record invite { uses = invite.uses + 1 } in
          (
            some invite',
            record {
              store = Option.map (save_invite invite') r.store;
              invites = insert (hash code) invite' r.invites;
            },
          )
    ]

    unfoldable pub revoke : String → InviteRegistry F P → Bool × InviteRegistry F P
    revoke code r = elim (lookup (hash code) r.invites) [
      | none ↦ (false, r)
      | some invite ↦
          let invite' : InviteCode F = record invite { revoked = true } in
          if invite.revoked then (false, r) else (
            true,
            record {
              store = Option.map (save_invite invite') r.store;
              invites = insert (hash code) invite' r.invites;
            },
          )
    ]
