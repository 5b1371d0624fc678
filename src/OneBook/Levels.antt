-- ===== src/OneBook/Levels.antt =====
-- engine/stockmesh/onebook/mod.rs: `compile_virtual_book`.
use xtxc.Common.{
  ℕ, ◌*◌, Bool, true, false, ◌&&◌, ◌||◌, List, [], ◌∷◌, ltb, leb, ◌==◌, ◌!=◌, if◌then◌else◌, length,
}
use xtxc.Common.Outcome.{
  bounds, invalid_amount, identity, arithmetic, reject, index, ceil_div, as_u64, checked_add,
  max_atoms, u128_mod, scale,
}
use xtxc.Common.Meter.{Metered, charge, ◌>>=◌, ◌>>◌, lift, pure}

abbrev pub max_virtual_levels : ℕ
max_virtual_levels = 32

pub record ExecutableSlice : Type 0 where
  pub claim : ℕ
  pub source : ℕ
  pub state_hash : ℕ
  pub input_usdc_atoms : ℕ
  pub exposure_q32 : ℕ
  pub conversion_bps : ℕ
  pub expires_at_slot : ℕ

pub record VirtualLevel : Type 0 where
  pub claim : ℕ
  pub source : ℕ
  pub state_hash : ℕ
  pub price_q32 : ℕ
  pub exposure_q32 : ℕ
  pub input_usdc_atoms : ℕ
  pub conversion_bps : ℕ
  pub expires_at_slot : ℕ

pub record VirtualBook : Type 0 where
  pub levels : List VirtualLevel
  pub total_exposure_q32 : ℕ
  pub state_hash : ℕ

-- `(prior.price_q32, prior.claim, prior.source) <= (level...)`
unfoldable pub stays : VirtualLevel → VirtualLevel → Bool
stays prior level =
    ltb prior.price_q32 level.price_q32
    || (prior.price_q32 == level.price_q32
        && (ltb prior.claim level.claim
            || (prior.claim == level.claim && leb prior.source level.source)))

-- The source moves a level down from the end past all that do not stay; `rises` in front of the
-- first of the levels at the end that all do not stay.
unfoldable pub all_move : VirtualLevel → List VirtualLevel → Bool
all_move level [] = true
all_move level (prior ∷ priors) =
    (if stays prior level then false else true) && all_move level priors

unfoldable pub insert : VirtualLevel → List VirtualLevel → List VirtualLevel
insert level [] = level ∷ []
insert level (prior ∷ priors) =
    if all_move level (prior ∷ priors) then level ∷ prior ∷ priors else prior ∷ insert level priors

unfoldable pub refuses : ℕ → ℕ → ExecutableSlice → Bool
refuses slot state_hash s =
    s.claim == 0
    || s.source == 0
    || s.state_hash != state_hash
    || s.input_usdc_atoms == 0
    || ltb max_atoms s.input_usdc_atoms
    || s.exposure_q32 == 0
    || ltb max_atoms s.exposure_q32
    || ltb 10_000 s.conversion_bps
    || ltb s.expires_at_slot slot

abbrev pub level_of : ℕ → ExecutableSlice → ℕ → VirtualLevel
level_of state_hash s price = record {
  claim = s.claim;
  source = s.source;
  state_hash = state_hash;
  price_q32 = price;
  exposure_q32 = s.exposure_q32;
  input_usdc_atoms = s.input_usdc_atoms;
  conversion_bps = s.conversion_bps;
  expires_at_slot = s.expires_at_slot;
}

-- The loop over the slices. The product is at most 10 ^ 14 * 2 ^ 64, which fits u128.
unfoldable pub add_slices : ℕ → List ExecutableSlice → VirtualBook → Metered VirtualBook
add_slices slot [] b = pure b
add_slices slot (s ∷ ss) b = do
  charge 1
  lift (reject (refuses slot b.state_hash s) invalid_amount)
  wide ← lift (ceil_div (s.input_usdc_atoms * scale * scale) s.exposure_q32)
  price ← lift (as_u64 wide)
  total ← lift (checked_add u128_mod b.total_exposure_q32 s.exposure_q32 arithmetic)
  add_slices slot ss (record {
    levels = insert (level_of b.state_hash s price) b.levels;
    total_exposure_q32 = total;
    state_hash = b.state_hash;
  })

unfoldable pub compile_virtual_book : List ExecutableSlice → ℕ → Metered VirtualBook
compile_virtual_book slices slot = do
  lift (reject (length slices == 0 || ltb max_virtual_levels (length slices)) bounds)
  first ← lift (index slices 0)
  lift (reject (first.state_hash == 0) identity)
  add_slices slot slices
      (record { levels = []; total_exposure_q32 = 0; state_hash = first.state_hash })
