-- ===== src/Invites/Valid.antt =====
-- The invariant of the invite registry and its table of invites: both hold the same invites, each
-- under its hash and used at most as often as it may be.
use mathlib.Core.Option
use public_intelligence.Prelude.{
  ◌≡◌, refl, ◌≤◌, inl, inr, String, none, some, [], ◌∷◌, arith, eq_iff, keep, Option-cases,
}
use public_intelligence.Prelude.Dict.{
  Dict, IsDict, lookup, insert, update, values, insert-IsDict, update-nil,
}
use public_intelligence.Models.{InviteCode}
use public_intelligence.Store.{Tables, validates_invite, load_invites, save_invite}
use public_intelligence.Invites.{
  InviteRegistry, restore_invites, load, verify, issue, redeem, revoke,
}
use public_intelligence.Invites.Calls.{
  Call, issue_call, redeem_call, revoke_call, restart_call, restart, apply,
}

module _ {F : Type 0} where
  pub record IsSound (k : String) (invite : InviteCode F) : Type 0 where
    pub keyed : invite.code_hash ≡ k
    pub positive : 1 ≤ invite.max_uses
    pub bounded : invite.uses ≤ invite.max_uses

  abbrev pub AreSound : Dict (InviteCode F) → Type 0
  AreSound [] = Unit
  AreSound (e ∷ d) = IsSound e.0 e.1 × AreSound d

  pub lookup-AreSound :
      (k : String) (d : Dict (InviteCode F)) (invite : InviteCode F)
      → AreSound d
      → lookup k d ≡ some invite
      → IsSound k invite
  unfolding lookup
  lookup-AreSound k [] invite h e = cc
  lookup-AreSound k (e ∷ d) invite h f =
      ground (arith, eq_iff e.0 k, lookup-AreSound k d invite h.1)

  insert-AreSound :
      (k : String) (invite : InviteCode F) (d : Dict (InviteCode F))
      → IsSound k invite
      → AreSound d
      → AreSound (insert k invite d)
  unfolding insert
  insert-AreSound k invite [] i h = (i, tt)
  insert-AreSound k invite (e ∷ d) i h =
      ground (arith, eq_iff e.0 k, insert-AreSound k invite d i h.1)

  keep-AreSound :
      (d : Dict (InviteCode F)) → AreSound d → keep validates_invite (values d) ≡ values d
  keep-AreSound [] h = refl
  keep-AreSound (e ∷ d) h = ground (arith, keep-AreSound d h.1)

  restore_invites_lem :
      (d a : Dict (InviteCode F)) → AreSound d → restore_invites (values d) a ≡ update d a
  unfolding restore_invites update
  restore_invites_lem [] a h = refl
  restore_invites_lem (e ∷ d) a h = rw (h.0.keyed) (restore_invites_lem d _ h.1)

module _ {F P : Type 0} where
  pub record IsValid (r : InviteRegistry F P) (s : Tables F P) : Type 0 where
    pub stored : r.store ≡ some s
    pub same : s.invites ≡ r.invites
    pub distinct : IsDict r.invites
    pub sound : AreSound r.invites

  -- A restart finds every invite as it was, in its order.
  pub restart-valid : (r : InviteRegistry F P) (s : Tables F P) → IsValid r s → restart r ≡ r
  unfolding restart load load_invites
  restart-valid r s h =
      rw
        (
          h.stored,
          load,
          h.same,
          keep-AreSound r.invites h.sound,
          restore_invites_lem r.invites [] h.sound,
          update-nil r.invites h.distinct,
        )
        (ground arith)

  module _ (hash : String → String) where
    -- A new code's hash is not one that was issued before.
    abbrev pub IsFresh : Call F → InviteRegistry F P → Type 0
    IsFresh (issue_call code label max_uses now) r = lookup (hash code) r.invites ≡ none
    IsFresh _ r = Unit

    abbrev pub stored_after : Call F → InviteRegistry F P → Tables F P → Tables F P
    stored_after call r s = Option.get_or (apply hash call r).store s

    pub apply-IsValid :
        (call : Call F) (r : InviteRegistry F P) (s : Tables F P)
        → IsFresh call r
        → IsValid r s
        → IsValid (apply hash call r) (stored_after call r s)
    unfolding apply issue verify redeem revoke save_invite
    apply-IsValid (issue_call code label max_uses now) r s f h =
        grind (arith, insert-AreSound, insert-IsDict)
    apply-IsValid (redeem_call code) r s f h = elim (Option-cases (lookup (hash code) r.invites)) [
      | inl unknown_code ↦ grind arith
      | inr (invite, found) ↦
          let sound = lookup-AreSound (hash code) r.invites invite h.sound found in
          grind (arith, insert-AreSound, insert-IsDict)
    ]
    apply-IsValid (revoke_call code) r s f h = elim (Option-cases (lookup (hash code) r.invites)) [
      | inl unknown_code ↦ grind arith
      | inr (invite, found) ↦
          let sound = lookup-AreSound (hash code) r.invites invite h.sound found in
          grind (arith, insert-AreSound, insert-IsDict)
    ]
    apply-IsValid restart_call r s f h = rw (restart-valid r s h) (grind arith)
