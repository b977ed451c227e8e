-- ===== src/Store.antt =====
-- The SQLite store (packages/scheduler/src/scheduler/persistence/sqlite_store.py), as tables of
-- rows in the order of their row ids. `INSERT ... ON CONFLICT DO UPDATE` keeps a row's place,
-- and a new row comes last; a `DELETE` by primary key drops one row.
use public_intelligence.Prelude.{
  ℕ, String, Bool, true, ◌&&◌, Option, none, some, List, [], ◌∷◌, ◌++◌, reverse, take, is_truthy,
  leb, keep, if◌then◌else◌,
}
use public_intelligence.Prelude.Dict.{Dict, lookup, insert, erase, values}
use public_intelligence.Prelude.Float.{Floats}
use public_intelligence.Models.{Node, CreditAccount, UsageRecord, InviteCode}

-- What pydantic does with a node's JSON: `model_dump_json` and `model_validate_json`, which is
-- `none` for a ValidationError.
pub record Codec (F P : Type 0) : Type 0 where
  pub dump_json : Node F → P
  pub validate_json : P → Option (Node F)

pub record Tables (F P : Type 0) : Type 0 where
  pub nodes : Dict P
  pub node_tokens : Dict String
  pub credit_accounts : Dict (CreditAccount F)
  pub usage_records : List (UsageRecord F)
  pub invites : Dict (InviteCode F)

module _ {F P : Type 0} where
  abbrev pub empty_tables : Tables F P
  empty_tables = record {
    nodes = [];
    node_tokens = [];
    credit_accounts = [];
    usage_records = [];
    invites = [];
  }

  module _ ⦃c : Codec F P⦄ where
    -- `load_nodes` skips a row that no longer validates.
    unfoldable pub decode_rows : Dict P → List (Node F)
    decode_rows [] = []
    decode_rows (row ∷ rows) =
        let rest = decode_rows rows in
        elim (c.validate_json row.1) [ none ↦ rest | some node ↦ node ∷ rest ]

    unfoldable pub load_nodes : Tables F P → List (Node F)
    unfolding decode_rows
    load_nodes s = decode_rows s.nodes

    unfoldable pub save_node : Node F → Tables F P → Tables F P
    save_node node s = record s { nodes = insert node.node_id (c.dump_json node) s.nodes }

  unfoldable pub delete_node : String → Tables F P → Tables F P
  delete_node node_id s = record s {
    nodes = erase node_id s.nodes;
    node_tokens = erase node_id s.node_tokens;
  }

  unfoldable pub clear_nodes : Tables F P → Tables F P
  clear_nodes s = record s { nodes = []; node_tokens = [] }

  unfoldable pub load_node_tokens : Tables F P → Dict String
  load_node_tokens s = s.node_tokens

  -- The token is an `Optional[str]`: no token, or an empty one, deletes the row.
  unfoldable pub save_node_token : String → Option String → Tables F P → Tables F P
  save_node_token node_id none s = record s { node_tokens = erase node_id s.node_tokens }
  save_node_token node_id (some token) s =
      if is_truthy token
      then record s { node_tokens = insert node_id token s.node_tokens }
      else record s { node_tokens = erase node_id s.node_tokens }

module _ {F : Type 0} where
  -- What pydantic asks of an invite row: `max_uses` is at least 1, and `uses` at least 0.
  abbrev pub validates_invite : InviteCode F → Bool
  validates_invite invite = leb 1 invite.max_uses

  -- An invite that is there keeps its `created_at`.
  abbrev invite_row : Option (InviteCode F) → InviteCode F → InviteCode F
  invite_row none invite = invite
  invite_row (some old) invite = record invite { created_at = old.created_at }

module _ {F : Type 0} ⦃fl : Floats F⦄ where
  -- What pydantic asks of a usage row beyond its types: the duration is at least 0.
  abbrev pub validates_usage : UsageRecord F → Bool
  validates_usage usage = fl.le (fl.decimal 0 1) usage.duration_seconds

module _ {F P : Type 0} where
  -- Every stored invite, spent and revoked ones included; a row that does not validate is skipped.
  unfoldable pub load_invites : Tables F P → List (InviteCode F)
  load_invites s = keep validates_invite (values s.invites)

  unfoldable pub save_invite : InviteCode F → Tables F P → Tables F P
  save_invite invite s = record s {
    invites =
        insert invite.code_hash (invite_row (lookup invite.code_hash s.invites) invite) s.invites;
  }

  -- `ORDER BY id DESC LIMIT ?`, and the loop over the rows in reverse, so the oldest comes first.
  unfoldable pub load_usage : ⦃fl : Floats F⦄ → ℕ → Tables F P → List (UsageRecord F)
  load_usage limit s = keep validates_usage (reverse (take limit (reverse s.usage_records)))

  -- Row ids grow, so the new row comes last.
  unfoldable pub save_usage : UsageRecord F → Tables F P → Tables F P
  save_usage usage s = record s { usage_records = s.usage_records ++ (usage ∷ []) }

module _ {F : Type 0} ⦃fl : Floats F⦄ where
  -- SQLite binds a NaN as NULL, which the columns do not take; a NaN is no equal of itself.
  abbrev pub is_bindable : CreditAccount F → Bool
  is_bindable account =
      fl.eq account.earned_credits account.earned_credits
      && (fl.eq account.consumed_credits account.consumed_credits
          && fl.eq account.updated_at account.updated_at)

  -- What pydantic asks of an account beyond its types: the credits are at least 0.
  abbrev pub validates_account : CreditAccount F → Bool
  validates_account account =
      fl.le (fl.decimal 0 1) account.earned_credits
      && fl.le (fl.decimal 0 1) account.consumed_credits

  abbrev pub validates_accounts : List (CreditAccount F) → Bool
  validates_accounts [] = true
  validates_accounts (account ∷ accounts) = validates_account account && validates_accounts accounts

module _ {F P : Type 0} ⦃fl : Floats F⦄ where
  -- `none` is the ValidationError of a row, which ends the call.
  unfoldable pub load_accounts : Tables F P → Option (List (CreditAccount F))
  load_accounts s =
      if validates_accounts (values s.credit_accounts)
      then some (values s.credit_accounts)
      else none

  -- `none` is the IntegrityError of a NaN, which writes nothing.
  unfoldable pub save_account : CreditAccount F → Tables F P → Option (Tables F P)
  save_account account s =
      if is_bindable account
      then some (record s { credit_accounts = insert account.account_id account s.credit_accounts })
      else none
