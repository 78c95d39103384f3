-- ===== src/Economy/WalletOk.antt =====
-- internal/economy/wallet.go: a batch of updates adds up, and no balance becomes negative.
use ultimate_game_server.Prelude.{
  String, ◌≡◌, refl, sym, ap, ◌∙◌, ◌⊎◌, inl, inr, Bool, true, false, Option, none, some, List, [],
  ◌∷◌, arith, if◌then◌else◌, Bool-cases, sum-cases, Option-cases, All, same, elem, add_ℤ, ℤ, pos,
  string_key,
}
use ultimate_game_server.Dict.{Dict, lookup, Distinct, lookup-insert, insert-Distinct}
use ultimate_game_server.Economy.Wallet.{
  Wallet, amount, apply_changes, note_update, apply_update, and_then, apply_updates, WalletUpdate,
  WalletTx,
}
use ultimate_game_server.Economy.Balance.{add_ℤ_assoc, add_ℤ_zero}
use ultimate_game_server.Economy.ChangesOk.{Balances, DeltasInRange, total, apply_changes_lem}
use mathlib.Core.Path.{subst}

-- What the users have once the rows are written.
abbrev pub view : Dict String Wallet → String → WalletTx → Option Wallet
view users u t = elim (lookup u t.writes) [ none ↦ lookup u users | some w ↦ some w ]

-- The wallets that were read are kept up to date.
abbrev pub TxOk : Dict String Wallet → List String → WalletTx → Type 0
TxOk users ids t =
    ((u : String) → elem u ids ≡ true → lookup u t.wallets ≡ view users u t) × Distinct t.writes

pub noted :
    (users : Dict String Wallet) (ids : List String) (ledger : Bool) (x : WalletUpdate)
    (w w' : Wallet) (t : WalletTx)
    → TxOk users ids t
    → TxOk users ids (note_update ledger x w w' t)
      × ((u : String)
          → view users u (note_update ledger x w w' t)
            ≡ (if same u x.user_id then some w' else view users u t))
unfolding note_update
noted users ids ledger x w w' t (ok, d) = (
  (
    (λ u e. ground (
      arith,
      ok u e,
      lookup-insert u x.user_id w' t.wallets,
      lookup-insert u x.user_id w' t.writes,
    )),
    insert-Distinct x.user_id w' t.writes d,
  ),
  λ u. ground (arith, lookup-insert u x.user_id w' t.writes),
)

-- What a batch gives to a currency of a user.
unfoldable pub user_total : String → String → List WalletUpdate → ℤ
unfolding total
user_total u c [] = pos 0
user_total u c (x ∷ xs) =
    let rest = user_total u c xs in
    if same u x.user_id then add_ℤ (total c x.changeset) rest else rest

-- A user's wallet after some updates.
abbrev pub Credited : Dict String Wallet → String → Wallet → List WalletUpdate → WalletTx → Type 0
Credited users u w xs t =
    (w' : Wallet) × (view users u t ≡ some w')
    × Balances w'
    × ((c : String) → amount c w' ≡ add_ℤ (amount c w) (user_total u c xs))

abbrev pub UpdatesOk : List String → List WalletUpdate → Type 0
UpdatesOk ids xs = All (λ x. (elem x.user_id ids ≡ true) × DeltasInRange x.changeset) xs

then_inv {ℓ} :
    {E A B : Type ℓ} (r : E ⊎ A) (f : A → E ⊎ B) (b : B)
    → and_then r f ≡ inr b
    → (a : A) × (r ≡ inr a) × (f a ≡ inr b)
then_inv (inl e) f b h = ground arith
then_inv (inr a) f b h = (a, refl, h)

-- An update that is applied: the user is missing, or the changes went through.
abbrev pub Applied : Bool → WalletUpdate → WalletTx → WalletTx → Type 0
Applied ledger x t t1 =
    ((lookup x.user_id t.wallets ≡ none) × (t ≡ t1))
    ⊎ ((w : Wallet) × (w' : Wallet) × (lookup x.user_id t.wallets ≡ some w)
        × (apply_changes x.user_id x.changeset w ≡ inr w')
        × (note_update ledger x w w' t ≡ t1))

pub apply_update_inv :
    (ledger : Bool) (x : WalletUpdate) (t t1 : WalletTx)
    → apply_update ledger x t ≡ inr t1
    → Applied ledger x t t1
unfolding apply_update
apply_update_inv ledger x t t1 h = elim (Option-cases (lookup x.user_id t.wallets)) [
  | inl q ↦ inl (q, ground (arith, q))
  | inr (w, q) ↦ elim (sum-cases (apply_changes x.user_id x.changeset w)) [
    | inl (e, r) ↦ ground (arith, q, r)
    | inr (w', r) ↦ inr (w, w', q, r, ground (arith, q, r))
  ]
]

-- What the user has after one update.
abbrev pub CreditedBy : Dict String Wallet → String → Wallet → WalletUpdate → WalletTx → Type 0
CreditedBy users u w x t =
    (w' : Wallet) × (view users u t ≡ some w')
    × Balances w'
    × ((c : String)
        → amount c w'
          ≡ add_ℤ (amount c w) (if same u x.user_id then total c x.changeset else pos 0))

unchanged :
    (users : Dict String Wallet) (u : String) (w : Wallet) (x : WalletUpdate) (t : WalletTx)
    → same u x.user_id ≡ false
    → view users u t ≡ some w
    → Balances w
    → CreditedBy users u w x t
unchanged users u w x t q v b = (w, v, b, λ c. rw q (sym (add_ℤ_zero (amount c w))))

-- The wallet that was read for an update is the one the user is seen to have.
read_for :
    (users : Dict String Wallet) (ids : List String) (u : String) (x : WalletUpdate) (w : Wallet)
    (t : WalletTx)
    → TxOk users ids t
    → elem x.user_id ids ≡ true
    → view users u t ≡ some w
    → same u x.user_id ≡ true
    → lookup x.user_id t.wallets ≡ some w
read_for users ids u x w t ok i v p =
    let here : u ≡ x.user_id = ground arith in
    ok.0 x.user_id i ∙ subst (λ s. view users s t ≡ some w) here v

pub apply_update_lem :
    (users : Dict String Wallet) (ids : List String) (ledger : Bool) (u : String) (x : WalletUpdate)
    (w : Wallet) (t t1 : WalletTx)
    → TxOk users ids t
    → elem x.user_id ids ≡ true
    → DeltasInRange x.changeset
    → view users u t ≡ some w
    → Balances w
    → Applied ledger x t t1
    → TxOk users ids t1 × CreditedBy users u w x t1
apply_update_lem users ids ledger u x w t t1 ok i r v b (inl (q, e)) =
    let other : same u x.user_id ≡ false = elim (Bool-cases (same u x.user_id)) [
      | inl p ↦ ground (arith, q, read_for users ids u x w t ok i v p)
      | inr p ↦ p
    ] in
    (
      subst (TxOk users ids) e ok,
      subst (CreditedBy users u w x) e (unchanged users u w x t other v b),
    )
apply_update_lem users ids ledger u x w t t1 ok i r v b (inr (wx, w', q, h, e)) =
    let (ok', seen) = noted users ids ledger x wx w' t ok in
    (
      subst (TxOk users ids) e ok',
      subst (CreditedBy users u w x) e (elim (Bool-cases (same u x.user_id)) [
        | inl p ↦
            let same_wallet : w ≡ wx = ground (arith, q, read_for users ids u x w t ok i v p) in
            let (b', f) =
              apply_changes_lem x.user_id x.changeset wx w' (subst Balances same_wallet b) r h in
            (
              w',
              seen u ∙ rw p refl,
              b',
              λ c.
                  rw p (f c ∙ ap (λ m. add_ℤ (amount c m) (total c x.changeset)) (sym same_wallet)),
            )
        | inr p ↦ unchanged users u w x (note_update ledger x wx w' t) p (seen u ∙ rw p v) b
      ]),
    )

pub two_steps :
    (hit : Bool) (x a b t rest : ℤ)
    → b ≡ add_ℤ a (if hit then t else pos 0)
    → x ≡ add_ℤ b rest
    → x ≡ add_ℤ a (if hit then add_ℤ t rest else rest)
two_steps true x a b t rest e f = f ∙ ap (λ m. add_ℤ m rest) e ∙ add_ℤ_assoc a t rest
two_steps false x a b t rest e f = f ∙ ap (λ m. add_ℤ m rest) (e ∙ add_ℤ_zero a)

pub apply_updates_lem :
    (users : Dict String Wallet) (ids : List String) (ledger : Bool) (u : String)
    (xs : List WalletUpdate) (w : Wallet) (t t' : WalletTx)
    → TxOk users ids t
    → UpdatesOk ids xs
    → view users u t ≡ some w
    → Balances w
    → apply_updates ledger xs t ≡ inr t'
    → Credited users u w xs t' × Distinct t'.writes
unfolding apply_updates user_total
apply_updates_lem users ids ledger u [] w t t' (ok, d) o v b e =
    let same_tx : t ≡ t' = ground arith in
    (
      (w, subst (λ r. view users u r ≡ some w) same_tx v, b, λ c. sym (add_ℤ_zero (amount c w))),
      subst (λ r. Distinct r.writes) same_tx d,
    )
apply_updates_lem users ids ledger u (x ∷ xs) w t t' ok o v b e =
    let (t1, r, e') = then_inv (apply_update ledger x t) (apply_updates ledger xs) t' e in
    let (ok1, (w1, v1, b1, f1)) =
      apply_update_lem users ids ledger u x w t t1 ok o.0.0 o.0.1 v b
        (apply_update_inv ledger x t t1 r) in
    let ((w2, v2, b2, f2), d) = apply_updates_lem users ids ledger u xs w1 t1 t' ok1 o.1 v1 b1 e' in
    (
      (
        w2,
        v2,
        b2,
        λ c.
            two_steps (same u x.user_id) (amount c w2) (amount c w) (amount c w1)
              (total c x.changeset) (user_total u c xs) (f1 c) (f2 c),
      ),
      d,
    )
