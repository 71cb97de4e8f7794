-- ===== src/Tests/Runtime.antt =====
-- Runs of the definitions of the runtime.
use can_bus.Base.{
  ℕ, ◌+◌, ◌*◌, ◌≤◌, ◌^◌, ◌<◌, ◌≡◌, some, none, List, [], ◌∷◌, refl, arith, replicate, ◌++◌,
}
use can_bus.Runtime.Address.{address_to_asset_id, asset_id_to_address}
use can_bus.Runtime.Address.RoundTrip.{asset_id_to_address-address_to_asset_id}
use can_bus.Runtime.Mint.{halving_mint_config}
use can_bus.Runtime.Rewards.{rewards, native_rewards_within_cap}
use can_bus.Mint.State.{Storage, running, stopped}
use can_bus.Mint.Supply.{run}
use can_bus.Tests.Data.{Books, tokens, fraction, books, mint_books}
use can_bus.Runtime.Filter.{
  DispatchInfo, RuntimeCall, assets_transfer, assets_other, other_pallet, yes, no, normal,
}

abbrev address : List ℕ
address = replicate 4 255 ++ replicate 14 0 ++ 3 ∷ 232 ∷ []

asset_id_to_address-address_to_asset_id_example :
    (1000 < 2 ^ 128) × (asset_id_to_address 1000 ≡ address)
unfolding address_to_asset_id
asset_id_to_address-address_to_asset_id_example =
    asset_id_to_address-address_to_asset_id address 1000 refl (ground arith) refl

abbrev info_of : RuntimeCall → DispatchInfo
info_of (assets_transfer id target amount) = record { class = normal; pays_fee = yes }
info_of (assets_other n) = record { class = normal; pays_fee = yes }
info_of (other_pallet n) = record { class = normal; pays_fee = no }

-- Block 11 is the first for which tokens are minted.
abbrev before_start : Storage Books
before_start = record {
  block_number = 9;
  mint_state = running;
  on_token_minted_state = stopped;
  start_block = some 11;
  skipped_blocks = 0;
  world = books;
  events = [];
}

abbrev deposit_creating : ℕ → ℕ → Books → Books
deposit_creating who n w = (mint_books none who n w).1

native_rewards_within_cap_example :
    rewards tokens fraction 90 91 deposit_creating
      (run
        (halving_mint_config 91 deposit_creating)
        (running ∷ stopped ∷ running ∷ [])
        before_start).world
    ≤ 1000 + 21000000 * 10 ^ 18
native_rewards_within_cap_example =
    native_rewards_within_cap tokens fraction 90 91 deposit_creating (λ who n w. ground arith)
      (running ∷ stopped ∷ running ∷ []) before_start 11 refl (omega arith) (omega arith)
