-- ===== src/Settle/Policy/Permits.antt =====
-- engine/stockmesh/programs/stocklana-settle/src/stock.rs: what an accepted policy permits, and for how long.
use xtxc.Common.{
  ℕ, ◌+◌, ◌≡◌, ◌≤◌, arith, Bool, true, not, ◌&&◌, List, [], ◌∷◌, ltb, leb, ◌==◌, length, get_or,
}
use xtxc.Settle.{
  ok, index, >>=-eq-ok, need-eq-ok, same_bytes, AccountInfo, need, identity, bounds, expired,
}
use xtxc.Settle.Bytes.{slice, u64_at}
use xtxc.Settle.Order.{Derivation, Clock}
use xtxc.Settle.Policy.{
  Demand, key_at, has_word, stock2, policy_tag, policy_len, is_current, is_tradable, check_policy,
  validate_policy_for_pair,
}

-- The window of a policy.
pub record Window (slot updated expires max_age deadline : ℕ) : Type 0 where
  pub not_before : updated ≤ slot
  pub lately : slot ≤ updated + max_age
  pub not_after : slot ≤ expires
  pub in_time : deadline ≤ expires

is_current-Window :
    (slot updated expires max_age deadline : ℕ)
    → is_current slot updated expires max_age deadline ≡ true
    → Window slot updated expires max_age deadline
is_current-Window slot updated expires max_age deadline h = record {
  not_before = ground arith;
  lately = ground arith;
  not_after = ground arith;
  in_time = ground arith;
}

current_later :
    (slot later updated expires max_age deadline : ℕ)
    → Window slot updated expires max_age deadline
    → slot ≤ later
    → later ≤ updated + max_age
    → later ≤ expires
    → is_current later updated expires max_age deadline ≡ true
current_later slot later updated expires max_age deadline w h age end =
    let start = w.not_before in let due = w.in_time in ground arith

module _ (find_program_address : Derivation) (program : List ℕ) where
  -- What the data of a policy grants at a slot, and later.
  pub record Granted (policy input_mint output_mint : AccountInfo) (demand : Demand) (slot : ℕ)
      : Type 0 where
    pub updated : ℕ
    pub expires : ℕ
    pub updated_at : u64_at policy.data_bytes 208 ≡ ok updated
    pub expires_at : u64_at policy.data_bytes 216 ≡ ok expires
    pub window : Window slot updated expires demand.max_age demand.deadline
    pub tradable :
        is_tradable (get_or policy.data_bytes 224 0) demand.allow_underlying_closed ≡ true
    pub stays :
        (later : Clock)
        → slot ≤ later.slot
        → later.slot ≤ updated + demand.max_age
        → later.slot ≤ expires
        → check_policy find_program_address program policy input_mint output_mint demand later
          ≡ ok tt

  -- The checks of a policy's data, one by one.
  passes :
      (policy input_mint output_mint : AccountInfo) (demand : Demand) (clock : Clock)
      (authority instrument input output rights : List ℕ) (updated expires : ℕ)
      → (length policy.data_bytes == policy_len
          && same_bytes (slice policy.data_bytes 0 8) policy_tag)
        ≡ true
      → key_at policy.data_bytes 8 ≡ ok authority
      → key_at policy.data_bytes 40 ≡ ok instrument
      → key_at policy.data_bytes 104 ≡ ok input
      → key_at policy.data_bytes 136 ≡ ok output
      → key_at policy.data_bytes 168 ≡ ok rights
      → (same_bytes policy.key
            (find_program_address
              (stock2 ∷ authority ∷ instrument ∷ input ∷ output ∷ rights ∷ [])
              program).0
          && has_word policy.data_bytes 200 8 demand.version)
        ≡ true
      → u64_at policy.data_bytes 208 ≡ ok updated
      → u64_at policy.data_bytes 216 ≡ ok expires
      → is_current clock.slot updated expires demand.max_age demand.deadline ≡ true
      → is_tradable (get_or policy.data_bytes 224 0) demand.allow_underlying_closed ≡ true
      → need (same_bytes input_mint.key input && same_bytes output_mint.key output) identity ≡ ok tt
      → check_policy find_program_address program policy input_mint output_mint demand clock ≡ ok tt
  unfolding check_policy
  passes policy input_mint output_mint demand clock authority instrument input output rights updated
        expires form e1 e2 e3 e4 e5 named e7 e8 current tradable mints =
      rw form (
        rw e1 (
          rw e2
            (rw e3 (rw e4 (rw e5 (rw named (rw e7 (rw e8 (rw current (rw tradable mints))))))))))

  check_policy-Granted :
      (policy input_mint output_mint : AccountInfo) (demand : Demand) (clock : Clock)
      → check_policy find_program_address program policy input_mint output_mint demand clock ≡ ok tt
      → Granted policy input_mint output_mint demand clock.slot
  unfolding check_policy
  check_policy-Granted policy input_mint output_mint demand clock h =
      let p : List ℕ = policy.data_bytes in
      let form : Bool = length p == policy_len && same_bytes (slice p 0 8) policy_tag in
      let (_, n0, h0) = >>=-eq-ok (need form identity) _ h in
      let (authority, e1, h1) = >>=-eq-ok (key_at p 8) _ h0 in
      let (instrument, e2, h2) = >>=-eq-ok (key_at p 40) _ h1 in
      let (input, e3, h3) = >>=-eq-ok (key_at p 104) _ h2 in
      let (output, e4, h4) = >>=-eq-ok (key_at p 136) _ h3 in
      let (rights, e5, h5) = >>=-eq-ok (key_at p 168) _ h4 in
      let named : Bool =
        same_bytes policy.key
          (find_program_address (stock2 ∷ authority ∷ instrument ∷ input ∷ output ∷ rights ∷ [])
            program).0
        && has_word p 200 8 demand.version in
      let (_, n6, h6) = >>=-eq-ok (need named identity) _ h5 in
      let (updated, e7, h7) = >>=-eq-ok (u64_at p 208) _ h6 in
      let (expires, e8, h8) = >>=-eq-ok (u64_at p 216) _ h7 in
      let current : Bool = is_current clock.slot updated expires demand.max_age demand.deadline in
      let (_, n9, h9) = >>=-eq-ok (need current expired) _ h8 in
      let tradable : Bool = is_tradable (get_or p 224 0) demand.allow_underlying_closed in
      let (_, n10, h10) = >>=-eq-ok (need tradable expired) _ h9 in
      let window =
        is_current-Window clock.slot updated expires demand.max_age demand.deadline
          (need-eq-ok current expired n9) in
      record {
        updated = updated;
        expires = expires;
        updated_at = e7;
        expires_at = e8;
        window = window;
        tradable = need-eq-ok tradable expired n10;
        stays = λ later after age end.
            passes policy input_mint output_mint demand later authority instrument input output
              rights updated expires (need-eq-ok form identity n0) e1 e2 e3 e4 e5
              (need-eq-ok named identity n6) e7 e8
              (current_later clock.slot later.slot updated expires demand.max_age demand.deadline
                window after age end)
              (need-eq-ok tradable expired n10) h10;
      }

  -- What an accepted policy is and grants.
  pub record Permitted (a : List AccountInfo) (place input_index output_index : ℕ) (demand : Demand)
      (slot : ℕ) : Type 0 where
    pub policy : AccountInfo
    pub input_mint : AccountInfo
    pub output_mint : AccountInfo
    pub policy_at : index a place ≡ ok policy
    pub granted : Granted policy input_mint output_mint demand slot
    pub stays :
        (later : Clock)
        → slot ≤ later.slot
        → later.slot ≤ granted.updated + demand.max_age
        → later.slot ≤ granted.expires
        → validate_policy_for_pair find_program_address program a place demand input_index
            output_index later
          ≡ ok tt

  pair_passes :
      (a : List AccountInfo) (place input_index output_index : ℕ) (demand : Demand) (clock : Clock)
      (policy input_mint output_mint : AccountInfo)
      → (ltb place (length a) && ltb 1 place && leb 1 demand.max_age && leb demand.max_age 150)
        ≡ true
      → (ltb input_index (length a) && ltb output_index (length a)) ≡ true
      → index a place ≡ ok policy
      → (same_bytes policy.owner program && not policy.is_writable && not policy.executable) ≡ true
      → index a input_index ≡ ok input_mint
      → index a output_index ≡ ok output_mint
      → check_policy find_program_address program policy input_mint output_mint demand clock ≡ ok tt
      → validate_policy_for_pair find_program_address program a place demand input_index
          output_index clock
        ≡ ok tt
  unfolding validate_policy_for_pair
  pair_passes a place input_index output_index demand clock policy input_mint output_mint placed
        mints e2 owned e4 e5 checked =
      rw placed (rw mints (rw e2 (rw owned (rw e4 (rw e5 checked)))))

  -- An accepted policy was updated no later than the slot and no more than the demanded age before, the
  -- slot and the deadline are no later than its end, secondary trade is on and not halted, and the
  -- underlying is open unless a closed one is allowed. It stays accepted at every later slot up to that
  -- age and that end.
  pub validate_policy_for_pair-Permitted :
      (a : List AccountInfo) (place input_index output_index : ℕ) (demand : Demand) (clock : Clock)
      → validate_policy_for_pair find_program_address program a place demand input_index
          output_index clock
        ≡ ok tt
      → Permitted a place input_index output_index demand clock.slot
  unfolding validate_policy_for_pair
  validate_policy_for_pair-Permitted a place input_index output_index demand clock h =
      let placed : Bool =
        ltb place (length a) && ltb 1 place && leb 1 demand.max_age && leb demand.max_age 150 in
      let (_, n0, h0) = >>=-eq-ok (need placed bounds) _ h in
      let mints : Bool = ltb input_index (length a) && ltb output_index (length a) in
      let (_, n1, h1) = >>=-eq-ok (need mints bounds) _ h0 in
      let (policy, e2, h2) = >>=-eq-ok (index a place) _ h1 in
      let owned : Bool =
        same_bytes policy.owner program && not policy.is_writable && not policy.executable in
      let (_, n3, h3) = >>=-eq-ok (need owned identity) _ h2 in
      let (input_mint, e4, h4) = >>=-eq-ok (index a input_index) _ h3 in
      let (output_mint, e5, h5) = >>=-eq-ok (index a output_index) _ h4 in
      let granted = check_policy-Granted policy input_mint output_mint demand clock h5 in
      record {
        policy = policy;
        input_mint = input_mint;
        output_mint = output_mint;
        policy_at = e2;
        granted = granted;
        stays = λ later after age end.
            pair_passes a place input_index output_index demand later policy input_mint output_mint
              (need-eq-ok placed bounds n0) (need-eq-ok mints bounds n1) e2
              (need-eq-ok owned identity n3) e4 e5 (granted.stays later after age end);
      }
