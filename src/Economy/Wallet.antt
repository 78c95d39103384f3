-- ===== src/Economy/Wallet.antt =====
-- internal/economy/wallet.go: `UpdateWallets`. The table of users is a map from a user to a wallet;
-- a statement on it does not fail, and what is not committed is rolled back.
use ultimate_game_server.Prelude.{
  String, ◌⊎◌, inl, inr, Bool, false, ◌||◌, none, some, List, [], ◌∷◌, ◌++◌, map, ◌==◌,
  if◌then◌else◌, length, elem, ltb_ℤ, add_ℤ, wrap_int64, ℤ, pos, string_key,
}
use ultimate_game_server.Dict.{Dict, lookup, insert}
use mathlib.Core.List.{List}

abbrev pub Wallet : Type 0
Wallet = Dict String ℤ

pub record WalletUpdate : Type 0 where
  pub user_id : String
  pub changeset : List (String × ℤ)
  pub metadata : Dict String String

pub record WalletUpdateResult : Type 0 where
  pub user_id : String
  pub updated : Wallet
  pub previous : Wallet

pub record LedgerItem : Type 0 where
  pub user_id : String
  pub changeset : List (String × ℤ)
  pub metadata : Dict String String

pub record WalletTables : Type 0 where
  pub users : Dict String Wallet
  pub ledger : List LedgerItem

pub data WalletError : Type 0 where
  changeset_empty : WalletError
  wallet_negative : String → String → ℤ → ℤ → WalletError

-- `m[currency]` of a Go map: 0 if it is missing.
unfoldable pub amount : String → Wallet → ℤ
amount c w = elim (lookup c w) [ none ↦ pos 0 | some n ↦ n ]

-- The range over the changeset.
unfoldable pub apply_changes : String → List (String × ℤ) → Wallet → WalletError ⊎ Wallet
unfolding amount
apply_changes user [] w = inr w
apply_changes user ((c, delta) ∷ changes) w =
    let n = wrap_int64 (add_ℤ (amount c w) delta) in
    let rest = apply_changes user changes (insert c n w) in
    if ltb_ℤ n (pos 0) then inl (wallet_negative user c (amount c w) delta) else rest

-- The transaction under way: the wallets that were read, the rows to write, the results and the
-- rows of the ledger.
pub record WalletTx : Type 0 where
  pub wallets : Dict String Wallet
  pub writes : Dict String Wallet
  pub results : List WalletUpdateResult
  pub items : List LedgerItem

-- `SELECT id, wallet FROM users WHERE id = ANY(ids)`
unfoldable pub load_wallets : List String → Dict String Wallet → Dict String Wallet
load_wallets ids [] = []
load_wallets ids ((u, w) ∷ users) =
    let rest = load_wallets ids users in if elem u ids then (u, w) ∷ rest else rest

unfoldable pub note_update : Bool → WalletUpdate → Wallet → Wallet → WalletTx → WalletTx
note_update ledger x w w' t = record {
  wallets = insert x.user_id w' t.wallets;
  writes = insert x.user_id w' t.writes;
  results = t.results ++ record { user_id = x.user_id; updated = w'; previous = w } ∷ [];
  items =
      if ledger
      then t.items
        ++ record { user_id = x.user_id; changeset = x.changeset; metadata = x.metadata } ∷ []
      else t.items;
}

-- One update: a missing user is skipped.
unfoldable pub apply_update : Bool → WalletUpdate → WalletTx → WalletError ⊎ WalletTx
unfolding apply_changes note_update
apply_update ledger x t = elim (lookup x.user_id t.wallets) [
  | none ↦ inr t
  | some w ↦ elim (apply_changes x.user_id x.changeset w) [
    | inl e ↦ inl e
    | inr w' ↦ inr (note_update ledger x w w' t)
  ]
]

abbrev pub and_then {ℓ} : {E A B : Type ℓ} → E ⊎ A → (A → E ⊎ B) → E ⊎ B
and_then (inl e) f = inl e
and_then (inr a) f = f a

unfoldable pub apply_updates : Bool → List WalletUpdate → WalletTx → WalletError ⊎ WalletTx
unfolding apply_update
apply_updates ledger [] t = inr t
apply_updates ledger (x ∷ xs) t = and_then (apply_update ledger x t) (apply_updates ledger xs)

-- `UPDATE users SET wallet = … WHERE id = …` for each row to write.
unfoldable pub write_rows : Dict String Wallet → Dict String Wallet → Dict String Wallet
write_rows [] users = users
write_rows ((u, w) ∷ writes) users = write_rows writes (insert u w users)

unfoldable pub some_empty : List WalletUpdate → Bool
some_empty [] = false
some_empty (x ∷ xs) = (length x.changeset == 0) || some_empty xs

unfoldable pub commit : WalletTx → WalletTables → WalletTables
unfolding write_rows
commit t db = record { users = write_rows t.writes db.users; ledger = db.ledger ++ t.items }

abbrev pub user_ids : List WalletUpdate → List String
user_ids xs = map (λ x. x.user_id) xs

abbrev pub begin : List WalletUpdate → WalletTables → WalletTx
begin xs db = record {
  wallets = load_wallets (user_ids xs) db.users;
  writes = [];
  results = [];
  items = [];
}

-- `UpdateWallets`: the error or the results, and the tables.
unfoldable pub update_wallets :
    Bool → List WalletUpdate → WalletTables → (WalletError ⊎ List WalletUpdateResult) × WalletTables
unfolding apply_updates commit load_wallets some_empty
update_wallets ledger xs db =
    if some_empty xs
    then (inl changeset_empty, db)
    else elim (apply_updates ledger xs (begin xs db)) [
      | inl e ↦ (inl e, db)
      | inr t ↦ (inr t.results, commit t db)
    ]
