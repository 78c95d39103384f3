-- ===== src/Economy/Batch.antt =====
-- internal/economy/wallet.go: `UpdateWallets` is all or nothing.
use ultimate_game_server.Prelude.{
  String, ◌≡◌, refl, ap, ◌∙◌, ◌⊎◌, inl, inr, Bool, true, none, some, List, [], ◌∷◌, arith,
  Bool-cases, sum-cases, All, string_key, elem, add_ℤ,
}
use ultimate_game_server.Dict.{Dict, lookup, insert, Distinct, lookup-insert}
use ultimate_game_server.Economy.Wallet.{
  Wallet, amount, load_wallets, apply_updates, write_rows, some_empty, commit, user_ids, begin,
  update_wallets, WalletUpdate, WalletUpdateResult, WalletTables, WalletTx, WalletError,
  changeset_empty,
}
use ultimate_game_server.Economy.ChangesOk.{Balances, DeltasInRange}
use ultimate_game_server.Economy.WalletOk.{view, TxOk, user_total, UpdatesOk, apply_updates_lem}
use ultimate_game_server.Economy.Refusals.{AllBalances, apply_updates-Overdraft, Overdraft}

lookup-load_wallets :
    (u : String) (ids : List String) (users : Dict String Wallet)
    → elem u ids ≡ true
    → lookup u (load_wallets ids users) ≡ lookup u users
unfolding lookup load_wallets
lookup-load_wallets u ids [] e = refl
lookup-load_wallets u ids ((k, w) ∷ users) e = elim (string_key.dec u k) [
  | yes p ↦ ground (arith, ap (λ s. elem s ids) p)
  | no p ↦ ground (arith, lookup-load_wallets u ids users e)
]

lookup-write_rows :
    (u : String) (writes users : Dict String Wallet)
    → Distinct writes
    → lookup u (write_rows writes users)
      ≡ elim (lookup u writes) [ none ↦ lookup u users | some w ↦ some w ]
unfolding lookup write_rows
lookup-write_rows u [] users d = refl
lookup-write_rows u ((k, w) ∷ writes) users d = elim (string_key.dec u k) [
  | yes p ↦ ground (
    arith,
    lookup-write_rows u writes (insert k w users) d.1,
    lookup-insert u k w users,
    ap (λ s. lookup s writes) p,
  )
  | no p ↦
      ground (arith, lookup-write_rows u writes (insert k w users) d.1, lookup-insert u k w users)
]

-- The updates are of the users that are read.
UpdatesOk-user_ids :
    (xs : List WalletUpdate) (ids : List String)
    → ((a : String) → elem a (user_ids xs) ≡ true → elem a ids ≡ true)
    → All (λ x. DeltasInRange x.changeset) xs
    → UpdatesOk ids xs
UpdatesOk-user_ids [] ids f r = tt
UpdatesOk-user_ids (x ∷ xs) ids f r = (
  (f x.user_id (ground arith), r.0),
  UpdatesOk-user_ids xs ids (λ a e. f a (ground (arith, e))) r.1,
)

begin-TxOk :
    (xs : List WalletUpdate) (db : WalletTables) → TxOk db.users (user_ids xs) (begin xs db)
unfolding lookup
begin-TxOk xs db = ((λ a e. lookup-load_wallets a (user_ids xs) db.users e), tt)

-- Nothing is written yet.
view-begin :
    (u : String) (xs : List WalletUpdate) (db : WalletTables)
    → view db.users u (begin xs db) ≡ lookup u db.users
unfolding lookup
view-begin u xs db = refl

lookup-commit :
    (u : String) (t : WalletTx) (db : WalletTables)
    → Distinct t.writes
    → lookup u (commit t db).users ≡ view db.users u t
unfolding commit
lookup-commit u t db d = lookup-write_rows u t.writes db.users d

-- Why a batch is refused: a changeset is empty, or a change overdraws the wallet of its user.
abbrev pub Reason : Dict String Wallet → List WalletUpdate → WalletError → Type 0
Reason users xs e =
    ((e ≡ changeset_empty) × (some_empty xs ≡ true)) ⊎ Overdraft (λ u. lookup u users) xs e

refused_from_start :
    (ledger : Bool) (xs : List WalletUpdate) (db : WalletTables) (e : WalletError)
    → AllBalances (λ u. lookup u db.users)
    → All (λ x. DeltasInRange x.changeset) xs
    → apply_updates ledger xs (begin xs db) ≡ inl e
    → Overdraft (λ u. lookup u db.users) xs e
unfolding lookup
refused_from_start ledger xs db e all r h =
    apply_updates-Overdraft db.users (user_ids xs) ledger xs (begin xs db) e (begin-TxOk xs db)
      (UpdatesOk-user_ids xs (user_ids xs) (λ a i. i) r) all h

-- Take a batch whose deltas are of an `int64`, on a table where no balance is negative or beyond an
-- `int64`. It is refused with the tables as they were, since a changeset is empty, or since a change
-- in it, on top of what the user's wallet had and all that the batch gave to it before in that
-- currency, would make the balance negative or go beyond an `int64`; the error names that user,
-- currency, balance and change. Or it is carried out: then each user's wallet has in each currency
-- what it had and all that the batch gives to it, no more and no less, and no balance of it is
-- negative or beyond an `int64`.
pub update_wallets_lem :
    (ledger : Bool) (xs : List WalletUpdate) (db : WalletTables) (u : String) (w : Wallet)
    → lookup u db.users ≡ some w
    → AllBalances (λ v. lookup v db.users)
    → All (λ x. DeltasInRange x.changeset) xs
    → ((e : WalletError) × (update_wallets ledger xs db ≡ (inl e, db)) × Reason db.users xs e)
      ⊎ ((rs : List WalletUpdateResult) × (db' : WalletTables) × (update_wallets ledger xs db
            ≡ (inr rs, db'))
          × ((w' : Wallet) × (lookup u db'.users ≡ some w')
              × Balances w'
              × ((c : String) → amount c w' ≡ add_ℤ (amount c w) (user_total u c xs))))
unfolding update_wallets
update_wallets_lem ledger xs db u w v all r =
    let b = all u w v in
    let t = begin xs db in
    let ids = user_ids xs in
    elim (Bool-cases (some_empty xs)) [
      | inl q ↦ inl (changeset_empty, rw q refl, inl (refl, q))
      | inr q ↦ elim (sum-cases (apply_updates ledger xs t)) [
        | inl (e, h) ↦
            inl (e, rw (q, h, update_wallets) refl, inr (refused_from_start ledger xs db e all r h))
        | inr (t', h) ↦
            let ((w', v', b', f), d) =
              apply_updates_lem db.users ids ledger u xs w t t' (begin-TxOk xs db)
                (UpdatesOk-user_ids xs ids (λ a e. e) r) (view-begin u xs db ∙ v) b h in
            inr (
              t'.results,
              commit t' db,
              rw (q, h, update_wallets) refl,
              (w', lookup-commit u t' db d ∙ v', b', f),
            )
      ]
    ]
