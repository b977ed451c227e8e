-- ===== src/Routes/Codes.antt =====
-- What a registration does to the invite codes.
use public_intelligence.Prelude.{
  ◌+◌, ◌≡◌, ◌≤◌, String, Bool, true, false, Option, none, some, str_eq, is_truthy, if◌then◌else◌,
  arith, Option-cases, Bool-cases, inl, inr, eq_iff,
}
use public_intelligence.Prelude.Dict.{lookup, lookup-insert, is_nonempty-insert}
use public_intelligence.Models.{InviteCode}
use public_intelligence.Invites.{InviteRegistry, enforcing, verify, redeem}
use public_intelligence.Invites.Limit.{remaining}
use public_intelligence.Routes.{is_refused, redeemed}

abbrev pub hash_is : (String → String) → String → Option String → Bool
hash_is hash h none = false
hash_is hash h (some code) = str_eq (hash code) h

module _ {F P : Type 0} (hash : String → String) where
  -- A use of a code with this hash is spent where the code is usable.
  redeem-remaining :
      (h code : String) (invites : InviteRegistry F P) (invite : InviteCode F)
      → verify hash (some code) invites ≡ some invite
      → (if str_eq (hash code) h then 1 else 0) + remaining h (redeem hash code invites).1
        ≤ remaining h invites
  unfolding verify redeem remaining
  redeem-remaining h code invites invite v =
      elim (Option-cases (lookup (hash code) invites.invites)) [
        | inl e ↦ grind arith
        | inr (found, e) ↦ grind (arith, lookup-insert, eq_iff (hash code) h)
      ]

  redeem-enforcing :
      (code : String) (invites : InviteRegistry F P)
      → enforcing invites ≡ true
      → enforcing (redeem hash code invites).1 ≡ true
  unfolding verify redeem enforcing
  redeem-enforcing code invites e = grind (arith, is_nonempty-insert)

  verify-truthy :
      (code : String) (invites : InviteRegistry F P) (invite : InviteCode F)
      → verify hash (some code) invites ≡ some invite
      → is_truthy code ≡ true
  unfolding verify
  verify-truthy code invites invite v = elim (Bool-cases (is_truthy code)) [
    | inl e ↦ e
    | inr e ↦ absurd (ground arith)
  ]

  is_refused-none :
      (invites : InviteRegistry F P)
      → enforcing invites ≡ true
      → is_refused hash (some invites) none ≡ true
  unfolding verify
  is_refused-none invites e = ground arith

  pub redeemed-remaining :
      (h : String) (x_invite_code : Option String) (invites : InviteRegistry F P)
      → enforcing invites ≡ true
      → is_refused hash (some invites) x_invite_code ≡ false
      → (later : InviteRegistry F P) × (redeemed hash (some invites) x_invite_code ≡ some later)
        × (enforcing later ≡ true)
        × ((if hash_is hash h x_invite_code then 1 else 0) + remaining h later
            ≤ remaining h invites)
  redeemed-remaining h none invites e r = absurd (ground (arith, is_refused-none invites e))
  redeemed-remaining h (some code) invites e r =
      elim (Option-cases (verify hash (some code) invites)) [
        | inl v ↦ absurd (ground arith)
        | inr (invite, v) ↦ (
          (redeem hash code invites).1,
          rw (e, verify-truthy code invites invite v),
          redeem-enforcing code invites e,
          redeem-remaining h code invites invite v,
        )
      ]
