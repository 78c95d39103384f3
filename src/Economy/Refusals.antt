-- ===== src/Economy/Refusals.antt =====
-- internal/economy/wallet.go: why a batch of updates is refused.
use ultimate_game_server.Prelude.{
  ◌-◌, ◌^◌, String, ◌≡◌, refl, sym, ap, ◌∙◌, ◌⊎◌, inl, inr, Bool, true, Option, none, some, List,
  [], ◌∷◌, ◌++◌, arith, if◌then◌else◌, Bool-cases, sum-cases, Option-cases, same, elem, ◌<ℤ◌, ltb_ℤ,
  add_ℤ, wrap_int64, ℤ, pos, negsuc, string_key,
}
use ultimate_game_server.Dict.{Dict, lookup, insert}
use ultimate_game_server.Economy.Wallet.{
  Wallet, amount, apply_changes, apply_update, apply_updates, WalletUpdate, WalletTx, WalletError,
  wallet_negative,
}
use ultimate_game_server.Economy.Balance.{wrap_int64-IsBalance, wrap_int64-exact, add_ℤ_zero}
use ultimate_game_server.Economy.ChangesOk.{
  Balances, DeltasInRange, total, amount-insert, insert-Balances, add_step, amount_here,
}
use ultimate_game_server.Economy.WalletOk.{
  view, TxOk, noted, user_total, UpdatesOk, Applied, apply_update_inv, apply_update_lem, two_steps,
}
use mathlib.Core.Path.{subst}

abbrev pub OutOfBounds : ℤ → Type 0
OutOfBounds a = (a <ℤ pos 0) ⊎ (pos (2 ^ 63 - 1) <ℤ a)

-- A sum that is negative as an `int64` is no balance.
wrap_int64-OutOfBounds : (a : ℤ) → ltb_ℤ (wrap_int64 a) (pos 0) ≡ true → OutOfBounds a
unfolding wrap_int64
wrap_int64-OutOfBounds (pos a) h = inr (ground arith)
wrap_int64-OutOfBounds (negsuc a) h = inl (ground arith)

-- A change that a wallet does not stand, after those before it.
record ChangeRefused (user : String) (w : Wallet) (changes : List (String × ℤ)) (e : WalletError)
    : Type 0 where
  done : List (String × ℤ)
  currency : String
  delta : ℤ
  left : List (String × ℤ)
  balance : ℤ
  parts : changes ≡ done ++ (currency, delta) ∷ left
  adds_up : balance ≡ add_ℤ (amount currency w) (total currency done)
  error : e ≡ wallet_negative user currency balance delta
  beyond : OutOfBounds (add_ℤ balance delta)

apply_changes-ChangeRefused :
    (user : String) (changes : List (String × ℤ)) (w : Wallet) (e : WalletError)
    → Balances w
    → DeltasInRange changes
    → apply_changes user changes w ≡ inl e
    → ChangeRefused user w changes e
unfolding apply_changes total
apply_changes-ChangeRefused user [] w e b r h = ground arith
apply_changes-ChangeRefused user ((k, d) ∷ changes) w e b r h =
    let n = wrap_int64 (add_ℤ (amount k w) d) in
    elim (Bool-cases (ltb_ℤ n (pos 0))) [
      | inl q ↦ record {
        done = [];
        currency = k;
        delta = d;
        left = changes;
        balance = amount k w;
        parts = refl;
        adds_up = sym (add_ℤ_zero (amount k w));
        error = ground (arith, q);
        beyond = wrap_int64-OutOfBounds (add_ℤ (amount k w) d) q;
      }
      | inr q ↦
          let exact : n ≡ add_ℤ (amount k w) d = wrap_int64-exact (amount k w) d (b k) r.0 q in
          let b1 = insert-Balances k n w (wrap_int64-IsBalance (add_ℤ (amount k w) d) q) b in
          let f =
            apply_changes-ChangeRefused user changes (insert k n w) e b1 r.1 (ground (arith, q)) in
          let c = f.currency in
          record {
            done = (k, d) ∷ f.done;
            currency = c;
            delta = f.delta;
            left = f.left;
            balance = f.balance;
            parts = ap (λ l. (k, d) ∷ l) f.parts;
            adds_up =
                add_step (same c k) f.balance (amount c w) (amount k w) n d (total c f.done)
                  (amount_here c k w) exact
                  (f.adds_up ∙ ap (λ m. add_ℤ m (total c f.done)) (amount-insert c k n w));
            error = f.error;
            beyond = f.beyond;
          }
    ]

-- A change of a batch that the user's wallet does not stand: with what the updates before and the
-- changes before in its own update have given, it takes the balance below zero or beyond an `int64`.
pub record Overdraft (wallet_of : String → Option Wallet) (xs : List WalletUpdate) (e : WalletError)
    : Type 0 where
  pub before : List WalletUpdate
  pub update : WalletUpdate
  pub after : List WalletUpdate
  pub done : List (String × ℤ)
  pub currency : String
  pub delta : ℤ
  pub left : List (String × ℤ)
  pub wallet : Wallet
  pub balance : ℤ
  pub updates : xs ≡ before ++ update ∷ after
  pub changes : update.changeset ≡ done ++ (currency, delta) ∷ left
  pub found : wallet_of update.user_id ≡ some wallet
  pub adds_up :
      balance
      ≡ add_ℤ
          (add_ℤ (amount currency wallet) (user_total update.user_id currency before))
          (total currency done)
  pub error : e ≡ wallet_negative update.user_id currency balance delta
  pub beyond : OutOfBounds (add_ℤ balance delta)

-- Every wallet that is seen holds balances.
abbrev pub AllBalances : (String → Option Wallet) → Type 0
AllBalances wallet_of = (u : String) (w : Wallet) → wallet_of u ≡ some w → Balances w

-- An update gives nobody a wallet.
view-none :
    (users : Dict String Wallet) (ids : List String) (ledger : Bool) (x : WalletUpdate)
    (t t1 : WalletTx) (u : String)
    → TxOk users ids t
    → elem x.user_id ids ≡ true
    → Applied ledger x t t1
    → view users u t ≡ none
    → view users u t1 ≡ none
view-none users ids ledger x t t1 u ok i (inl (q, e)) n = subst (λ s. view users u s ≡ none) e n
view-none users ids ledger x t t1 u ok i (inr (w, w', q, h, e)) n =
    let (_, seen) = noted users ids ledger x w w' t ok in
    subst (λ s. view users u s ≡ none) e
      (seen u ∙ elim (Bool-cases (same u x.user_id)) [
        | inl p ↦
            let here : u ≡ x.user_id = ground arith in
            let gone : lookup x.user_id t.wallets ≡ none =
              ok.0 x.user_id i ∙ subst (λ s. view users s t ≡ none) here n in
            ground (arith, q, gone)
        | inr p ↦ rw p n
      ])

tx_kept :
    (users : Dict String Wallet) (ids : List String) (ledger : Bool) (x : WalletUpdate)
    (t t1 : WalletTx)
    → TxOk users ids t
    → Applied ledger x t t1
    → TxOk users ids t1
tx_kept users ids ledger x t t1 ok (inl (_, e)) = subst (TxOk users ids) e ok
tx_kept users ids ledger x t t1 ok (inr (w, w', _, _, e)) =
    subst (TxOk users ids) e (noted users ids ledger x w w' t ok).0

-- What is seen after an update comes from what was seen before it.
abbrev CameFrom : Dict String Wallet → String → Wallet → WalletUpdate → WalletTx → Type 0
CameFrom users u w1 x t =
    (w : Wallet) × (view users u t ≡ some w)
    × Balances w1
    × ((c : String)
        → amount c w1
          ≡ add_ℤ (amount c w) (if same u x.user_id then total c x.changeset else pos 0))

came_from :
    (users : Dict String Wallet) (ids : List String) (ledger : Bool) (x : WalletUpdate)
    (t t1 : WalletTx) (u : String) (w1 : Wallet)
    → TxOk users ids t
    → elem x.user_id ids ≡ true
    → DeltasInRange x.changeset
    → AllBalances (λ a. view users a t)
    → Applied ledger x t t1
    → view users u t1 ≡ some w1
    → CameFrom users u w1 x t
came_from users ids ledger x t t1 u w1 ok i r b a v1 = elim (Option-cases (view users u t)) [
  | inl q ↦ ground (arith, view-none users ids ledger x t t1 u ok i a q, v1)
  | inr (w, q) ↦
      let (_, (w', v', b', f)) =
        apply_update_lem users ids ledger u x w t t1 ok i r q (b u w q) a in
      let here : w' ≡ w1 = ground (arith, v', v1) in
      (w, q, subst Balances here b', λ c. ap (amount c) (sym here) ∙ f c)
]

later-Overdraft :
    (users : Dict String Wallet) (x : WalletUpdate) (xs : List WalletUpdate) (t t1 : WalletTx)
    (e : WalletError)
    → ((u : String) (w1 : Wallet) → view users u t1 ≡ some w1 → CameFrom users u w1 x t)
    → Overdraft (λ u. view users u t1) xs e
    → Overdraft (λ u. view users u t) (x ∷ xs) e
unfolding user_total
later-Overdraft users x xs t t1 e back f =
    let u = f.update.user_id in
    let c = f.currency in
    let (w, v, _, g) = back u f.wallet f.found in
    let rest = user_total u c f.before in
    record {
      before = x ∷ f.before;
      update = f.update;
      after = f.after;
      done = f.done;
      currency = c;
      delta = f.delta;
      left = f.left;
      wallet = w;
      balance = f.balance;
      updates = ap (λ l. x ∷ l) f.updates;
      changes = f.changes;
      found = v;
      adds_up =
          f.adds_up
          ∙ ap (λ m. add_ℤ m (total c f.done))
              (two_steps (same u x.user_id) (add_ℤ (amount c f.wallet) rest) (amount c w)
                (amount c f.wallet) (total c x.changeset) rest (g c) refl);
      error = f.error;
      beyond = f.beyond;
    }

first-Overdraft :
    (look : String → Option Wallet) (x : WalletUpdate) (xs : List WalletUpdate) (w : Wallet)
    (e : WalletError)
    → look x.user_id ≡ some w
    → ChangeRefused x.user_id w x.changeset e
    → Overdraft look (x ∷ xs) e
unfolding user_total
first-Overdraft look x xs w e v f = record {
  before = [];
  update = x;
  after = xs;
  done = f.done;
  currency = f.currency;
  delta = f.delta;
  left = f.left;
  wallet = w;
  balance = f.balance;
  updates = refl;
  changes = f.parts;
  found = v;
  adds_up =
      f.adds_up
      ∙ ap (λ m. add_ℤ m (total f.currency f.done)) (sym (add_ℤ_zero (amount f.currency w)));
  error = f.error;
  beyond = f.beyond;
}

apply_update_refused :
    (ledger : Bool) (x : WalletUpdate) (t : WalletTx) (e : WalletError)
    → apply_update ledger x t ≡ inl e
    → (w : Wallet) × (lookup x.user_id t.wallets ≡ some w)
      × (apply_changes x.user_id x.changeset w ≡ inl e)
unfolding apply_update
apply_update_refused ledger x t e h = elim (Option-cases (lookup x.user_id t.wallets)) [
  | inl q ↦ ground (arith, q)
  | inr (w, q) ↦ elim (sum-cases (apply_changes x.user_id x.changeset w)) [
    | inl (e', r) ↦ (w, q, r ∙ ground (arith, q, r))
    | inr (w', r) ↦ ground (arith, q, r)
  ]
]

pub apply_updates-Overdraft :
    (users : Dict String Wallet) (ids : List String) (ledger : Bool) (xs : List WalletUpdate)
    (t : WalletTx) (e : WalletError)
    → TxOk users ids t
    → UpdatesOk ids xs
    → AllBalances (λ u. view users u t)
    → apply_updates ledger xs t ≡ inl e
    → Overdraft (λ u. view users u t) xs e
unfolding apply_updates
apply_updates-Overdraft users ids ledger [] t e ok o b h = ground arith
apply_updates-Overdraft users ids ledger (x ∷ xs) t e ok o b h =
    elim (sum-cases (apply_update ledger x t)) [
      | inl (e', r) ↦
          let (w, q, s) = apply_update_refused ledger x t e (r ∙ ground (arith, r)) in
          let v = sym (ok.0 x.user_id o.0.0) ∙ q in
          first-Overdraft (λ u. view users u t) x xs w e v
            (apply_changes-ChangeRefused x.user_id x.changeset w e (b x.user_id w v) o.0.1 s)
      | inr (t1, r) ↦
          let a = apply_update_inv ledger x t t1 r in
          let back : (u : String) (w1 : Wallet)
              → view users u t1 ≡ some w1
              → CameFrom users u w1 x t =
            λ u w1. came_from users ids ledger x t t1 u w1 ok o.0.0 o.0.1 b a in
          later-Overdraft users x xs t t1 e back (
            apply_updates-Overdraft users ids ledger xs t1 e (tx_kept users ids ledger x t t1 ok a)
              o.1 (λ u w1 v. let (_, _, k, _) = back u w1 v in k) (ground (arith, r)))
    ]
