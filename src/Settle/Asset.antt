-- ===== src/Settle/Asset.antt =====
-- engine/stockmesh/programs/stocklana-settle/src/graph.rs: the checks of a token account, `checked_asset`. The ids of the two token
-- programs are parameters.
pub mod Amounts
use xtxc.Common.{
  ℕ, zero, suc, ◌+◌, ◌^◌, bit_or, Bool, true, false, not, ◌&&◌, ◌||◌, List, [], ◌∷◌, ltb, leb, ◌==◌,
  if◌then◌else◌, length, drop, get_or,
}
use xtxc.Optimizer.{bit}
use xtxc.Settle.{Program, ok, panic, identity, need, ◌>>◌, AccountInfo, same_bytes}
use xtxc.Settle.Bytes.{from_le_bytes, slice, u64_at}
use xtxc.Settle.Exposure.{all_zero_bytes}

unfoldable pub contains : List ℕ → ℕ → Bool
contains [] kind = false
contains (k ∷ ks) kind = k == kind || contains ks kind

unfoldable pub allowed : Bool → ℕ → Bool
allowed true kind = contains (1 ∷ 3 ∷ 4 ∷ 6 ∷ 10 ∷ 12 ∷ 14 ∷ 16 ∷ 18 ∷ 19 ∷ 25 ∷ 26 ∷ []) kind
allowed false kind = contains (2 ∷ 7 ∷ 15 ∷ 27 ∷ []) kind

-- `match (mint, kind)`, for the allowed kinds.
unfoldable pub harmless : Bool → ℕ → List ℕ → Bool
harmless true kind ext =
    if kind == 14
    then length ext == 64 && all_zero_bytes (drop 32 ext)
    else if kind == 16
    then length ext == 129
    else if kind == 26
    then length ext == 33 && get_or ext 32 0 == 0
    else if kind == 6
    then length ext == 1 && get_or ext 0 0 == 1
    else true
harmless false kind ext =
    if kind == 15
    then length ext == 1 && get_or ext 0 0 == 0
    else if kind == 27 || kind == 7
    then length ext == 0
    else if kind == 2
    then length ext == 8
    else true

-- `while p < d.len()`, on fuel: every extension takes at least four bytes.
unfoldable pub check_extensions : ℕ → List ℕ → Bool → ℕ → ℕ → Program (Unit {0})
check_extensions zero d mint p seen = panic
check_extensions (suc fuel) d mint p seen = elim (leb (length d) p || all_zero_bytes (drop p d)) [
  | true ↦ ok tt
  | false ↦
      let kind = from_le_bytes (slice d p 2) in
      let len = from_le_bytes (slice d (p + 2) 2) in
      do
        need (leb (p + 4) (length d)) identity
        need (allowed mint kind && ltb kind 64 && not (bit seen kind)) identity
        need (leb (p + 4 + len) (length d)) identity
        need (harmless mint kind (slice d (p + 4) len)) identity
        check_extensions fuel d mint (p + 4 + len) (bit_or seen (2 ^ kind))
]

unfoldable pub extensions : List ℕ → Bool → Program (Unit {0})
extensions d mint = elim (length d == (if mint then 82 else 165)) [
  | true ↦ ok tt
  | false ↦ do
    need (leb 166 (length d) && get_or d 165 0 == (if mint then 1 else 2)) identity
    need (not mint || all_zero_bytes (slice d 82 83)) identity
    check_extensions (suc (length d)) d mint 166 0
]

-- A token account of classic tokens has no extensions, one of Token-2022 harmless ones.
unfoldable pub check_data : Bool → List ℕ → Bool → ℕ → Program (Unit {0})
check_data classic d mint size =
    if classic then need (length d == size) identity else extensions d mint

module _ (token token_2022 : List ℕ) where
  -- `if inspect_mint { ... }`
  unfoldable pub inspect : Bool → AccountInfo → AccountInfo → Program (Unit {0})
  inspect false m p = ok tt
  inspect true m p = do
    need (leb 82 (length m.data_bytes) && get_or m.data_bytes 45 0 == 1) identity
    check_data (same_bytes p.key token) m.data_bytes true 82

  -- The balance of the token account `t`, which belongs to `wallet` and holds `m` of the program `p`.
  unfoldable pub checked_asset :
      AccountInfo → AccountInfo → AccountInfo → AccountInfo → Bool → Program ℕ
  checked_asset wallet t m p inspect_mint = do
    need
        ((same_bytes p.key token || same_bytes p.key token_2022)
          && p.executable
          && same_bytes t.owner p.key
          && same_bytes m.owner p.key
          && t.is_writable
          && not m.is_writable)
        identity
    need
        (leb 165 (length t.data_bytes)
          && get_or t.data_bytes 108 0 == 1
          && all_zero_bytes (slice t.data_bytes 72 4)
          && all_zero_bytes (slice t.data_bytes 121 8)
          && all_zero_bytes (slice t.data_bytes 129 4)
          && same_bytes (slice t.data_bytes 0 32) m.key
          && same_bytes (slice t.data_bytes 32 32) wallet.key)
        identity
    check_data (same_bytes p.key token) t.data_bytes false 165
    inspect inspect_mint m p
    u64_at t.data_bytes 64
