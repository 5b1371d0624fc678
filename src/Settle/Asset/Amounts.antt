-- ===== src/Settle/Asset/Amounts.antt =====
-- engine/stockmesh/programs/stocklana-settle/src/graph.rs: that `checked_asset` gives the amount of the token account.
use xtxc.Common.{ℕ, ◌≡◌, ap, Bool, false, not, ◌&&◌, ◌||◌, List, leb, ◌==◌, length, get_or}
use xtxc.Settle.{Program, ok, identity, need, index, AccountInfo, same_bytes, >>=-eq-ok, ok-inj}
use xtxc.Settle.Bytes.{slice, u64_at}
use xtxc.Settle.Exposure.{all_zero_bytes}
use xtxc.Settle.Asset.{check_data, inspect, checked_asset}

-- The token account in this place holds that amount: the word at offset 64 of its data.
abbrev pub Amount : List AccountInfo → ℕ → ℕ → Type 0
Amount a place n = (t : AccountInfo) × (index a place ≡ ok t) × (u64_at t.data_bytes 64 ≡ ok n)

module _ (token token_2022 : List ℕ) where
  pub checked_asset-amount :
      (wallet t m p : AccountInfo) (inspected : Bool) (n : ℕ)
      → checked_asset token token_2022 wallet t m p inspected ≡ ok n
      → u64_at t.data_bytes 64 ≡ ok n
  unfolding checked_asset
  checked_asset-amount wallet t m p inspected n h =
      let usable : Bool =
        (same_bytes p.key token || same_bytes p.key token_2022)
        && p.executable
        && same_bytes t.owner p.key
        && same_bytes m.owner p.key
        && t.is_writable
        && not m.is_writable in
      let (_, _, h1) = >>=-eq-ok (need usable identity) _ h in
      let form : Bool =
        leb 165 (length t.data_bytes)
        && get_or t.data_bytes 108 0 == 1
        && all_zero_bytes (slice t.data_bytes 72 4)
        && all_zero_bytes (slice t.data_bytes 121 8)
        && all_zero_bytes (slice t.data_bytes 129 4)
        && same_bytes (slice t.data_bytes 0 32) m.key
        && same_bytes (slice t.data_bytes 32 32) wallet.key in
      let (_, _, h2) = >>=-eq-ok (need form identity) _ h1 in
      let (_, _, h3) =
        >>=-eq-ok (check_data (same_bytes p.key token) t.data_bytes false 165) _ h2 in
      let (_, _, h4) = >>=-eq-ok (inspect token token_2022 inspected m p) _ h3 in h4

pub first_amount : (s e n k : ℕ) → ◌≡◌ {A = Program (ℕ × ℕ)} (ok (s, e)) (ok (n, k)) → s ≡ n
first_amount s e n k h = ap (λ (t : ℕ × ℕ). t.0) (ok-inj h)

pub second_amount : (s e n k : ℕ) → ◌≡◌ {A = Program (ℕ × ℕ)} (ok (s, e)) (ok (n, k)) → e ≡ k
second_amount s e n k h = ap (λ (t : ℕ × ℕ). t.1) (ok-inj h)
