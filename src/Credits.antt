-- ===== src/Credits.antt =====
-- The credit ledger (packages/scheduler/src/scheduler/core/credit_ledger.py). `now` stands for
-- `time.time()`.
pub mod Accrual
pub mod Durable
mod Tests
use mathlib.Core.Option
use public_intelligence.Prelude.{
  ◌≡◌, String, Bool, true, false, Option, none, some, List, [], ◌∷◌, if◌then◌else◌,
}
use public_intelligence.Prelude.Dict.{Dict, lookup, insert}
use public_intelligence.Prelude.Float.{Floats}
use public_intelligence.Models.{CreditAccount}
use public_intelligence.Store.{Tables, load_accounts, save_account}

pub record CreditLedger (F P : Type 0) : Type 0 where
  pub store : Option (Tables F P)
  pub accounts : Dict (CreditAccount F)

module _ {F : Type 0} ⦃fl : Floats F⦄ where
  -- Python's `max(0.0, x)`: the first argument, unless the second is greater.
  abbrev pub max_zero : F → F
  max_zero x = if fl.lt (fl.decimal 0 1) x then x else fl.decimal 0 1

  abbrev pub net_balance : CreditAccount F → F
  net_balance account = fl.sub account.earned_credits account.consumed_credits

  abbrev pub account_balances : Dict (CreditAccount F) → Dict F
  account_balances [] = []
  account_balances (e ∷ d) = (e.0, net_balance e.1) ∷ account_balances d

  -- `CreditAccount(account_id=...)`
  abbrev pub new_account : F → String → CreditAccount F
  new_account now account_id = record {
    account_id = account_id;
    earned_credits = fl.decimal 0 1;
    consumed_credits = fl.decimal 0 1;
    updated_at = now;
  }

  -- The credits of `record_host_contribution`: 100.0 for a GB of VRAM and hour, or 10.0 for a GB
  -- of RAM and hour where there is no VRAM.
  unfoldable pub earned_for : F → F → F → F
  earned_for vram_gb duration_seconds ram_gb =
      let vram = max_zero vram_gb in
      let ram = max_zero ram_gb in
      let hours = fl.div (max_zero duration_seconds) (fl.of_ℕ 3600) in
      if fl.lt (fl.decimal 0 1) vram
      then fl.mul (fl.mul vram hours) (fl.of_ℕ 100)
      else fl.mul (fl.mul ram hours) (fl.of_ℕ 10)

  abbrev pub contributed : F → F → CreditAccount F → CreditAccount F
  contributed now earned account = record account {
    earned_credits = fl.add account.earned_credits earned;
    updated_at = now;
  }

  abbrev pub deducted : F → F → CreditAccount F → CreditAccount F
  deducted now amount account = record account {
    consumed_credits = fl.add account.consumed_credits (max_zero amount);
    updated_at = now;
  }

module _ {F P : Type 0} where
  -- The loop of `load`.
  unfoldable pub restore_accounts : List (CreditAccount F) → CreditLedger F P → CreditLedger F P
  restore_accounts [] l = l
  restore_accounts (account ∷ accounts) l =
      restore_accounts accounts
        (record l { accounts = insert account.account_id account l.accounts })

  module _ ⦃fl : Floats F⦄ where
    -- The answer is whether the call returns; it raises at a row that does not validate.
    unfoldable pub load : CreditLedger F P → Bool × CreditLedger F P
    unfolding restore_accounts
    load l = elim l.store [
      | none ↦ (true, l)
      | some s ↦ elim (load_accounts s) [
        | none ↦ (false, l)
        | some accounts ↦ (true, restore_accounts accounts l)
      ]
    ]

    unfoldable pub balances : CreditLedger F P → Dict F
    balances l = account_balances l.accounts

    -- A new account is put into the dict, and not into the store.
    unfoldable pub get_or_create_account :
        F → String → CreditLedger F P → CreditAccount F × CreditLedger F P
    get_or_create_account now account_id l = elim (lookup account_id l.accounts) [
      | some account ↦ (account, l)
      | none ↦
          let account = new_account now account_id in
          (account, record l { accounts = insert account_id account l.accounts })
    ]

    -- The account object is changed where it stands in the dict, and then written through. `none`
    -- is what the store raises, with the dict as it is then.
    unfoldable pub put_account :
        String → CreditAccount F → CreditLedger F P → Option (CreditAccount F) × CreditLedger F P
    put_account account_id account l =
        let l' = record l { accounts = insert account_id account l.accounts } in
        elim l.store [
          | none ↦ (some account, l')
          | some s ↦ elim (save_account account s) [
            | none ↦ (none, l')
            | some s' ↦ (some account, record l' { store = some s' })
          ]
        ]

    unfoldable pub record_host_contribution :
        F → String → F → F → F → CreditLedger F P → Option (CreditAccount F) × CreditLedger F P
    unfolding get_or_create_account put_account
    record_host_contribution now node_id vram_gb duration_seconds ram_gb l =
        let (account, l') = get_or_create_account now node_id l in
        put_account node_id (contributed now (earned_for vram_gb duration_seconds ram_gb) account)
          l'

    unfoldable pub deduct_usage :
        F → String → F → CreditLedger F P → Option (CreditAccount F) × CreditLedger F P
    unfolding get_or_create_account put_account
    deduct_usage now account_id amount l =
        let (account, l') = get_or_create_account now account_id l in
        put_account account_id (deducted now amount account) l'
