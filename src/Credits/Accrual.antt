-- ===== src/Credits/Accrual.antt =====
-- What the calls of the ledger do to each account's earned and consumed credits.
use public_intelligence.Prelude.{
  ◌≡◌, inl, inr, String, Option, none, some, arith, str_eq, eq_iff, if◌then◌else◌, Option-cases,
}
use public_intelligence.Prelude.Dict.{lookup, insert, lookup-insert}
use public_intelligence.Prelude.Float.{Floats}
use public_intelligence.Models.{CreditAccount}
use public_intelligence.Store.{save_account}
use public_intelligence.Credits.{
  CreditLedger, max_zero, earned_for, get_or_create_account, put_account, record_host_contribution,
  deduct_usage,
}

module _ {F : Type 0} ⦃fl : Floats F⦄ where
  -- The credits earned and consumed; an account that no one asked for stands at zero.
  abbrev pub credits_of : Option (CreditAccount F) → F × F
  credits_of none = (fl.decimal 0 1, fl.decimal 0 1)
  credits_of (some account) = (account.earned_credits, account.consumed_credits)

module _ {F P : Type 0} ⦃fl : Floats F⦄ where
  abbrev pub statement : String → CreditLedger F P → F × F
  statement account_id l = credits_of (lookup account_id l.accounts)

  -- Asking for an account changes no balance.
  pub statement-get_or_create_account :
      (k : String) (now : F) (account_id : String) (l : CreditLedger F P)
      → statement k (get_or_create_account now account_id l).1 ≡ statement k l
  unfolding get_or_create_account
  statement-get_or_create_account k now account_id l =
      elim (Option-cases (lookup account_id l.accounts)) [
        | inl fresh ↦ grind (arith, lookup-insert, eq_iff account_id k)
        | inr (account, found) ↦ grind arith
      ]

  -- Whether or not the store takes the account, the dict has it.
  pub accounts-put_account :
      (account_id : String) (account : CreditAccount F) (l : CreditLedger F P)
      → (put_account account_id account l).1.accounts ≡ insert account_id account l.accounts
  unfolding put_account
  accounts-put_account account_id account l = elim (Option-cases l.store) [
    | inl e ↦ rw (put_account, e)
    | inr (s, e) ↦ elim (Option-cases (save_account account s)) [
      | inl refused ↦ rw (put_account, e, refused)
      | inr (s', saved) ↦ rw (put_account, e, saved)
    ]
  ]

  -- A contribution adds what it earned to its host's credits, and touches no other account.
  pub statement-record_host_contribution :
      (k : String) (now : F) (node_id : String) (vram duration ram : F) (l : CreditLedger F P)
      → statement k (record_host_contribution now node_id vram duration ram l).1 ≡ (
          if str_eq node_id k
          then (fl.add (statement k l).0 (earned_for vram duration ram), (statement k l).1)
          else statement k l)
  unfolding record_host_contribution
  statement-record_host_contribution k now node_id vram duration ram l =
      elim (Option-cases (lookup node_id l.accounts)) [
        | inl fresh ↦ grind (arith, accounts-put_account, lookup-insert, eq_iff node_id k)
        | inr (account, found) ↦
            grind (arith, accounts-put_account, lookup-insert, eq_iff node_id k)
      ]

  -- A deduction adds the amount, or zero if it is negative, to the consumed credits of its
  -- account, and touches no other.
  pub statement-deduct_usage :
      (k : String) (now : F) (account_id : String) (amount : F) (l : CreditLedger F P)
      → statement k (deduct_usage now account_id amount l).1 ≡ (
          if str_eq account_id k
          then ((statement k l).0, fl.add (statement k l).1 (max_zero amount))
          else statement k l)
  unfolding deduct_usage
  statement-deduct_usage k now account_id amount l =
      elim (Option-cases (lookup account_id l.accounts)) [
        | inl fresh ↦ grind (arith, accounts-put_account, lookup-insert, eq_iff account_id k)
        | inr (account, found) ↦
            grind (arith, accounts-put_account, lookup-insert, eq_iff account_id k)
      ]
