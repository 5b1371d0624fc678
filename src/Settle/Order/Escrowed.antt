-- ===== src/Settle/Order/Escrowed.antt =====
-- engine/stockmesh/programs/stocklana-settle/src/order.rs: the balances that `place` compares.
use xtxc.Common.{ℕ, ◌≡◌, refl, ap, subst, ◌∙◌, Bool, false, List, [], ◌∷◌, set}
use xtxc.Settle.{ok, index, >>=-eq-ok, ok-inj, AccountInfo}
use xtxc.Settle.Order.{Derivation}
use xtxc.Settle.Asset.{checked_asset}
use xtxc.Settle.Asset.Amounts.{Amount, checked_asset-amount, first_amount, second_amount}
use xtxc.Settle.Order.Cancel.{Invoke}
use xtxc.Settle.Order.Place.{System, escrowed}

module _ (find_program_address : Derivation) (token token_2022 program : List ℕ)
    (invoke_signed : Invoke) (system : System) where
  -- The balances do not depend on the data of the order, and are the amounts of the token accounts.
  pub escrowed-set :
      (c : List AccountInfo) (order : AccountInfo) (state : List ℕ) (inspect : Bool)
      → index c 1 ≡ ok order
      → escrowed find_program_address token token_2022 program invoke_signed system
          (set c 1 (record order { data_bytes = state }))
          inspect
        ≡ escrowed find_program_address token token_2022 program invoke_signed system c inspect
  unfolding escrowed checked_asset
  escrowed-set [] order state inspect h = cc
  escrowed-set (x ∷ []) order state inspect h = cc
  escrowed-set (x ∷ y ∷ xs) order state inspect h =
      subst
        (λ (o : AccountInfo).
          escrowed find_program_address token token_2022 program invoke_signed system
            (x ∷ record o { data_bytes = state } ∷ xs) inspect
          ≡ escrowed find_program_address token token_2022 program invoke_signed system (x ∷ y ∷ xs)
              inspect)
        (ok-inj h) refl

  pub escrowed-amounts :
      (a : List AccountInfo) (inspect : Bool) (held locked : ℕ)
      → escrowed find_program_address token token_2022 program invoke_signed system a inspect
        ≡ ok (held, locked)
      → Amount a 2 held × Amount a 3 locked
  unfolding escrowed
  escrowed-amounts a inspect held locked h =
      let (owner, _, h1) = >>=-eq-ok (index a 0) _ h in
      let (order, _, h2) = >>=-eq-ok (index a 1) _ h1 in
      let (source, e2, h3) = >>=-eq-ok (index a 2) _ h2 in
      let (escrow, e3, h4) = >>=-eq-ok (index a 3) _ h3 in
      let (mint, _, h5) = >>=-eq-ok (index a 6) _ h4 in
      let (token_program, _, h6) = >>=-eq-ok (index a 7) _ h5 in
      let (s, e4, h7) =
        >>=-eq-ok (checked_asset token token_2022 owner source mint token_program inspect) _ h6 in
      let (e, e5, h8) =
        >>=-eq-ok (checked_asset token token_2022 order escrow mint token_program false) _ h7 in
      (
        (
          source,
          e2,
          checked_asset-amount token token_2022 owner source mint token_program inspect s e4
              ∙ ap ok (first_amount s e held locked h8),
        ),
        (
          escrow,
          e3,
          checked_asset-amount token token_2022 order escrow mint token_program false e e5
              ∙ ap ok (second_amount s e held locked h8),
        ),
      )
