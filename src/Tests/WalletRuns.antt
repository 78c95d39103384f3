-- ===== src/Tests/WalletRuns.antt =====
-- Runs of internal/economy/wallet.go.
use ultimate_game_server.Prelude.{
  String, ◌≡◌, refl, ◌⊎◌, inl, inr, true, some, List, [], ◌∷◌, ◌++◌, arith, String-discrete,
  string_key, add_ℤ, wrap_int64, ℤ, pos, negsuc,
}
use ultimate_game_server.Dict.{lookup, insert}
use mathlib.Core.Path.{subst}
use ultimate_game_server.Economy.Wallet.{
  Wallet, amount, apply_changes, load_wallets, note_update, apply_update, apply_updates, write_rows,
  some_empty, commit, update_wallets, WalletUpdate, WalletUpdateResult, WalletTables, WalletError,
  wallet_negative,
}
use ultimate_game_server.Economy.ChangesOk.{Balances, total}
use ultimate_game_server.Economy.WalletOk.{user_total}
use ultimate_game_server.Economy.Refusals.{AllBalances}
use ultimate_game_server.Economy.Batch.{Reason, update_wallets_lem}

abbrev update : String → String → ℤ → WalletUpdate
update user c d = record { user_id = user; changeset = (c, d) ∷ []; metadata = [] }

abbrev bank : WalletTables
bank = record { users = ("ann", ("gold", pos 5) ∷ []) ∷ ("bob", []) ∷ []; ledger = [] }

abbrev batch : List WalletUpdate
batch =
    update "ann" "gold" (negsuc 2) ∷ update "eve" "gold" (pos 1) ∷ update "ann" "gems" (pos 4) ∷ []

wallet_program : Unit {0}
unfolding amount apply_changes note_update apply_update apply_updates write_rows some_empty commit
    load_wallets update_wallets total user_total lookup insert String-discrete wrap_int64
wallet_program = tt

-- Ann pays 3 of 5 and gets 4 gems; nobody else is written.
paid :
    (update_wallets true batch bank).1.users
    ≡ ("ann", ("gold", pos 2) ∷ ("gems", pos 4) ∷ []) ∷ ("bob", []) ∷ []
unfolding wallet_program
paid = refl

-- A sixth coin is not there: the gems of the same batch are rolled back.
refused :
    update_wallets true (batch ++ update "ann" "gold" (negsuc 2) ∷ []) bank
    ≡ (inl (wallet_negative "ann" "gold" (pos 2) (negsuc 2)), bank)
unfolding wallet_program
refused = refl

abbrev ann : Wallet
ann = ("gold", pos 5) ∷ []

ann-Balances : Balances ann
unfolding wallet_program
ann-Balances c = elim (string_key.dec c "gold") [ yes p ↦ ground arith | no p ↦ ground arith ]

empty-Balances : Balances []
unfolding wallet_program
empty-Balances c = (omega arith, omega arith)

bank-AllBalances : AllBalances (λ u. lookup u bank.users)
unfolding wallet_program
bank-AllBalances u w e = elim (string_key.dec u "ann") [
  | yes p ↦ let here : ann ≡ w = ground arith in subst Balances here ann-Balances
  | no p ↦ elim (string_key.dec u "bob") [
    | yes q ↦ let here : ◌≡◌ {A = Wallet} [] w = ground arith in subst Balances here empty-Balances
    | no q ↦ ground arith
  ]
]

found : lookup "ann" bank.users ≡ some ann
unfolding wallet_program
found = refl

update_wallets_lem_example :
    ((e : WalletError) × (update_wallets true batch bank ≡ (inl e, bank))
      × Reason bank.users batch e)
    ⊎ ((rs : List WalletUpdateResult) × (db' : WalletTables) × (update_wallets true batch bank
          ≡ (inr rs, db'))
        × ((w' : Wallet) × (lookup "ann" db'.users ≡ some w')
            × Balances w'
            × ((c : String) → amount c w' ≡ add_ℤ (amount c ann) (user_total "ann" c batch))))
update_wallets_lem_example = update_wallets_lem true batch bank "ann" ann found bank-AllBalances (
  ((omega arith, omega arith), tt),
  (((omega arith, omega arith), tt), (((omega arith, omega arith), tt), tt)),
)
