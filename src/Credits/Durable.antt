-- ===== src/Credits/Durable.antt =====
-- Balances outlive the process: what the store holds after any calls, and what a restart reads.

use public_intelligence.Prelude.{
  ◌≡◌, refl, sym, ◌∙◌, subst, inl, inr, String, Bool, true, some, List, [], ◌∷◌, arith, str_eq,
  eq_iff, eq_refl, Option-cases, Bool-cases,
}
use public_intelligence.Prelude.Dict.{
  Dict, IsDict, lookup, insert, update, values, lookup-insert, insert-IsDict, update-nil,
}
use public_intelligence.Prelude.Float.{Floats}
use public_intelligence.Models.{CreditAccount}
use public_intelligence.Store.{
  Tables, is_bindable, validates_account, validates_accounts, load_accounts, save_account,
}
use public_intelligence.Credits.{
  CreditLedger, new_account, earned_for, contributed, deducted, restore_accounts, load,
  get_or_create_account, put_account, record_host_contribution, deduct_usage,
}
use public_intelligence.Credits.Accrual.{
  credits_of, statement, statement-get_or_create_account, accounts-put_account,
}

pub data Call (F : Type 0) : Type 0 where
  enquire_call : F → String → Call F
  contribute_call : F → String → F → F → F → Call F
  deduct_call : F → String → F → Call F
  restart_call : Call F

module _ {F : Type 0} where
  abbrev pub AreKeyed : Dict (CreditAccount F) → Type 0
  AreKeyed [] = Unit
  AreKeyed (e ∷ d) = (e.1.account_id ≡ e.0) × AreKeyed d

  insert-AreKeyed :
      (k : String) (account : CreditAccount F) (d : Dict (CreditAccount F))
      → account.account_id ≡ k
      → AreKeyed d
      → AreKeyed (insert k account d)
  unfolding insert
  insert-AreKeyed k account [] e h = (e, tt)
  insert-AreKeyed k account (x ∷ d) e h =
      ground (arith, eq_iff x.0 k, insert-AreKeyed k account d e h.1)

  lookup-AreKeyed :
      (k : String) (account : CreditAccount F) (d : Dict (CreditAccount F))
      → AreKeyed d
      → lookup k d ≡ some account
      → account.account_id ≡ k
  unfolding lookup
  lookup-AreKeyed k account [] h e = cc
  lookup-AreKeyed k account (x ∷ d) h e =
      ground (arith, eq_iff x.0 k, lookup-AreKeyed k account d h.1)

module _ {F : Type 0} ⦃fl : Floats F⦄ where
  -- No number of the account is a NaN, and its credits are at least 0.
  abbrev pub IsSound : CreditAccount F → Type 0
  IsSound account = (is_bindable account ≡ true) × (validates_account account ≡ true)

  abbrev pub AreSound : Dict (CreditAccount F) → Type 0
  AreSound [] = Unit
  AreSound (e ∷ d) = IsSound e.1 × AreSound d

  insert-AreSound :
      (k : String) (account : CreditAccount F) (d : Dict (CreditAccount F))
      → IsSound account
      → AreSound d
      → AreSound (insert k account d)
  unfolding insert
  insert-AreSound k account [] e h = (e, tt)
  insert-AreSound k account (x ∷ d) e h = elim (Bool-cases (str_eq x.0 k)) [
    | inl same ↦ rw same (e, h.1)
    | inr apart ↦ rw apart (h.0, insert-AreSound k account d e h.1)
  ]

  lookup-IsSound :
      (k : String) (account : CreditAccount F) (d : Dict (CreditAccount F))
      → AreSound d
      → lookup k d ≡ some account
      → IsSound account
  unfolding lookup
  lookup-IsSound k account [] h e = absurd (cc)
  lookup-IsSound k account (x ∷ d) h e = elim (Bool-cases (str_eq x.0 k)) [
    | inl same ↦ let found : x.1 ≡ account = ground arith in subst IsSound found h.0
    | inr apart ↦ lookup-IsSound k account d h.1 (ground arith)
  ]

  inserted-IsSound :
      (k : String) (account : CreditAccount F) (d : Dict (CreditAccount F))
      → AreSound (insert k account d)
      → IsSound account
  inserted-IsSound k account d h =
      lookup-IsSound k account (insert k account d) h
        (ground (arith, lookup-insert k k account d, eq_refl k))

  validates_values :
      (d : Dict (CreditAccount F)) → AreSound d → validates_accounts (values d) ≡ true
  validates_values [] h = refl
  validates_values (e ∷ d) h = ground (arith, validates_values d h.1)

module _ {F P : Type 0} where
  restore_accounts_lem :
      (d : Dict (CreditAccount F)) (l : CreditLedger F P)
      → AreKeyed d
      → restore_accounts (values d) l ≡ record l { accounts = update d l.accounts }
  unfolding restore_accounts update
  restore_accounts_lem [] l h = refl
  restore_accounts_lem (e ∷ d) l h = rw (h.0) (restore_accounts_lem d _ h.1)

module _ {F P : Type 0} ⦃fl : Floats F⦄ where
  -- A new ledger on the same store, and whether its `load` returns.
  unfoldable pub restart : CreditLedger F P → Bool × CreditLedger F P
  restart l = load (record { store = l.store; accounts = [] })

  pub record IsSaved (l : CreditLedger F P) (s : Tables F P) : Type 0 where
    pub stored : l.store ≡ some s
    pub distinct : IsDict s.credit_accounts
    pub keyed_rows : AreKeyed s.credit_accounts
    pub sound_rows : AreSound s.credit_accounts
    pub keyed_accounts : AreKeyed l.accounts

  -- A restarted ledger holds the rows of the store.
  restart_lem :
      (l : CreditLedger F P) (s : Tables F P)
      → IsSaved l s
      → restart l ≡ (true, record { store = l.store; accounts = s.credit_accounts })
  unfolding restart load load_accounts
  restart_lem l s h =
      rw
        (
          h.stored,
          load,
          validates_values s.credit_accounts h.sound_rows,
          restore_accounts_lem s.credit_accounts _ h.keyed_rows,
          update-nil s.credit_accounts h.distinct,
        )
        (ground arith)

  unfoldable pub apply : Call F → CreditLedger F P → CreditLedger F P
  apply (enquire_call now account_id) l = (get_or_create_account now account_id l).1
  apply (contribute_call now node_id vram duration ram) l =
      (record_host_contribution now node_id vram duration ram l).1
  apply (deduct_call now account_id amount) l = (deduct_usage now account_id amount l).1
  apply restart_call l = (restart l).1

  unfoldable pub run : List (Call F) → CreditLedger F P → CreditLedger F P
  run [] l = l
  run (call ∷ calls) l = run calls (apply call l)

  -- No call leaves an account with a NaN or with credits below 0.
  abbrev pub StaysSound : List (Call F) → CreditLedger F P → Type 0
  StaysSound [] l = Unit
  StaysSound (call ∷ calls) l = AreSound (apply call l).accounts × StaysSound calls (apply call l)

  -- The store and the dict agree on what an account has earned and consumed.
  abbrev pub Agrees : String → CreditLedger F P → Tables F P → Type 0
  Agrees k l s = credits_of (lookup k s.credit_accounts) ≡ statement k l

  abbrev IsDurable : String → CreditLedger F P → Type 0
  IsDurable k l = (s : Tables F P) × IsSaved l s × Agrees k l s

  store-put_account :
      (account_id : String) (account : CreditAccount F) (l : CreditLedger F P) (s : Tables F P)
      → l.store ≡ some s
      → is_bindable account ≡ true
      → (put_account account_id account l).1.store
        ≡ some (record s { credit_accounts = insert account.account_id account s.credit_accounts })
  unfolding put_account save_account
  store-put_account account_id account l s e h = rw (put_account, e, h)

  agreed :
      (k account_id : String) (account : CreditAccount F) (l : CreditLedger F P) (s : Tables F P)
      → account.account_id ≡ account_id
      → (put_account account_id account l).1.accounts ≡ insert account_id account l.accounts
      → Agrees k l s
      → credits_of (lookup k (insert account.account_id account s.credit_accounts))
        ≡ statement k (put_account account_id account l).1
  agreed k account_id account l s own put a =
      subst
        (λ d.
          credits_of (lookup k (insert account.account_id account s.credit_accounts))
          ≡ credits_of (lookup k d))
        (sym put)
        (ground (
          arith,
          own,
          lookup-insert account.account_id k account s.credit_accounts,
          lookup-insert account_id k account l.accounts,
        ))

  put_account-IsDurable :
      (k account_id : String) (account : CreditAccount F) (l : CreditLedger F P)
      → account.account_id ≡ account_id
      → AreSound (put_account account_id account l).1.accounts
      → IsDurable k l
      → IsDurable k (put_account account_id account l).1
  put_account-IsDurable k account_id account l own sound (s, h, a) =
      let put = accounts-put_account account_id account l in
      let sound_account =
        inserted-IsSound account_id account l.accounts (subst AreSound put sound) in
      (
        record s { credit_accounts = insert account.account_id account s.credit_accounts },
        record {
          stored = store-put_account account_id account l s h.stored sound_account.0;
          distinct = insert-IsDict account.account_id account s.credit_accounts h.distinct;
          keyed_rows =
              insert-AreKeyed account.account_id account s.credit_accounts refl h.keyed_rows;
          sound_rows =
              insert-AreSound account.account_id account s.credit_accounts sound_account
                h.sound_rows;
          keyed_accounts =
              subst AreKeyed (sym put)
                (insert-AreKeyed account_id account l.accounts own h.keyed_accounts);
        },
        agreed k account_id account l s own put a,
      )

  get_or_create_account-IsDurable :
      (k : String) (now : F) (account_id : String) (l : CreditLedger F P)
      → IsDurable k l
      → IsDurable k (get_or_create_account now account_id l).1
  unfolding get_or_create_account
  get_or_create_account-IsDurable k now account_id l (s, h, a) = (
    s,
    elim (Option-cases (lookup account_id l.accounts)) [
      | inl fresh ↦
          rw (get_or_create_account, fresh)
            (record {
              stored = h.stored;
              distinct = h.distinct;
              keyed_rows = h.keyed_rows;
              sound_rows = h.sound_rows;
              keyed_accounts =
                  insert-AreKeyed account_id (new_account now account_id) l.accounts refl
                    h.keyed_accounts;
            })
      | inr (account, found) ↦ rw (get_or_create_account, found) h
    ],
    a ∙ sym (statement-get_or_create_account k now account_id l),
  )

  get_or_create_account-own :
      (now : F) (account_id : String) (l : CreditLedger F P)
      → AreKeyed l.accounts
      → (get_or_create_account now account_id l).0.account_id ≡ account_id
  unfolding get_or_create_account
  get_or_create_account-own now account_id l h =
      elim (Option-cases (lookup account_id l.accounts)) [
        | inl fresh ↦ rw (get_or_create_account, fresh)
        | inr (account, found) ↦
            rw (get_or_create_account, found)
              (lookup-AreKeyed account_id account l.accounts h found)
      ]

  apply-IsDurable :
      (k : String) (call : Call F) (l : CreditLedger F P)
      → AreSound (apply call l).accounts
      → IsDurable k l
      → IsDurable k (apply call l)
  unfolding apply record_host_contribution deduct_usage
  apply-IsDurable k (enquire_call now account_id) l sound d =
      get_or_create_account-IsDurable k now account_id l d
  apply-IsDurable k (contribute_call now node_id vram duration ram) l sound (s, h, a) =
      let (account, l') = get_or_create_account now node_id l in
      put_account-IsDurable k node_id (contributed now (earned_for vram duration ram) account) l'
        (get_or_create_account-own now node_id l h.keyed_accounts) sound
        (get_or_create_account-IsDurable k now node_id l (s, h, a))
  apply-IsDurable k (deduct_call now account_id amount) l sound (s, h, a) =
      let (account, l') = get_or_create_account now account_id l in
      put_account-IsDurable k account_id (deducted now amount account) l'
        (get_or_create_account-own now account_id l h.keyed_accounts) sound
        (get_or_create_account-IsDurable k now account_id l (s, h, a))
  apply-IsDurable k restart_call l sound (s, h, a) = (
    s,
    rw (apply, restart_lem l s h)
        (record {
          stored = h.stored;
          distinct = h.distinct;
          keyed_rows = h.keyed_rows;
          sound_rows = h.sound_rows;
          keyed_accounts = h.keyed_rows;
        }),
    rw (apply, restart_lem l s h),
  )

  -- After any calls, restarts among them, that leave no account with a NaN or with credits below 0,
  -- a further restart loads without an exception and changes no account's credits.
  pub statement-restart-run :
      (k : String) (calls : List (Call F)) (l : CreditLedger F P) (s : Tables F P)
      → IsSaved l s
      → Agrees k l s
      → StaysSound calls l
      → ((restart (run calls l)).0 ≡ true)
        × (statement k (restart (run calls l)).1 ≡ statement k (run calls l))
  unfolding run
  statement-restart-run k [] l s h a sound = (rw (restart_lem l s h), rw (restart_lem l s h) a)
  statement-restart-run k (call ∷ calls) l s h a sound =
      let (s', h', a') = apply-IsDurable k call l sound.0 (s, h, a) in
      statement-restart-run k calls (apply call l) s' h' a' sound.1
