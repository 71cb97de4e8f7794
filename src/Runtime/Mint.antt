-- ===== src/Runtime/Mint.antt =====
-- The configuration of pallets/halving-mint in runtime/src/lib.rs.
use can_bus.Base.{ℕ, ◌+◌, ◌*◌, ◌/◌, ◌^◌, ◌≤◌, ◌<◌, ◌≡◌, some, List, length, arith}
use can_bus.Mint.State.{MintState, Storage, Config}
use can_bus.Mint.Supply.{run, total_minted, run_within_issuance}

abbrev unit : ℕ
unit = 10 ^ 18

abbrev millisecs_per_block : ℕ
millisecs_per_block = 6000

-- In blocks.
abbrev minutes : ℕ
minutes = 60000 / millisecs_per_block

abbrev hours : ℕ
hours = minutes * 60

abbrev years : ℕ
years = hours * 8766

-- `impl pallet_halving_mint::Config for Runtime`, with `OnTokenMinted = ()`. The currency and the
-- account of the pallet's id are not part of the repository.
unfoldable pub halving_mint_config : {W : Type 0} → ℕ → (ℕ → ℕ → W → W) → Config W
halving_mint_config beneficiary deposit_creating = record {
  total_issuance = 21000000 * unit;
  halving_interval = 5 * years;
  beneficiary = beneficiary;
  deposit_creating = deposit_creating;
  token_minted = λ who amount w. w;
}

-- With the intervals of this runtime: from a storage whose start block is not yet reached, whatever
-- blocks follow and however minting is stopped and resumed between them, the amounts that the events
-- name as minted grow by at most 21 million units of 18 decimals, if the start block, the skipped
-- blocks and the blocks of the run together fit in 32 bits.
pub runtime_mints_within_cap :
    {W : Type 0} (beneficiary : ℕ) (deposit_creating : ℕ → ℕ → W → W) (states : List MintState)
    (s : Storage W) (b : ℕ)
    → s.start_block ≡ some b
    → b + s.skipped_blocks + length states < 2 ^ 32
    → s.block_number < b
    → total_minted (run (halving_mint_config beneficiary deposit_creating) states s).events
      ≤ total_minted s.events + 21000000000000000000000000
unfolding halving_mint_config
runtime_mints_within_cap beneficiary deposit_creating states s b =
    run_within_issuance (halving_mint_config beneficiary deposit_creating) (omega arith)
      (omega arith) states s b
