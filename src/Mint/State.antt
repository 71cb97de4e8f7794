-- ===== src/Mint/State.antt =====
-- The storage, events and configuration of pallets/halving-mint/src/lib.rs.
use can_bus.Base.{ℕ, Bool, true, false, Option, List, ◌∷◌}
use can_bus.Frame.Call.{Call, modify}

-- `State`
pub data MintState : Type 0 where
  stopped running : MintState

abbrev pub same : MintState → MintState → Bool
same stopped stopped = true
same running running = true
same stopped running = false
same running stopped = false

pub data Event : Type 0 where
  mint_state_changed on_token_minted_state_changed : MintState → Event
  mint_started : ℕ → Event
  minted : ℕ → ℕ → Event

pub record Storage (W : Type 0) : Type 0 where
  pub block_number : ℕ
  pub mint_state : MintState
  pub on_token_minted_state : MintState
  pub start_block : Option ℕ
  pub skipped_blocks : ℕ
  pub world : W
  -- The newest event stands first.
  pub events : List Event

-- The currency pallet and the `OnTokenMinted` hook stand outside the pallet: `deposit_creating`
-- and `token_minted` are what they do to the storage of the others.
pub record Config (W : Type 0) : Type 0 where
  pub total_issuance : ℕ
  pub halving_interval : ℕ
  -- `beneficiary_account()`
  pub beneficiary : ℕ
  pub deposit_creating : ℕ → ℕ → W → W
  pub token_minted : ℕ → ℕ → W → W

-- `GenesisConfig`
pub record GenesisConfig : Type 0 where
  pub mint_state : MintState
  pub on_token_minted_state : MintState
  pub start_block : Option ℕ

abbrev pub deposit_event : {W : Type 0} → Event → Call (Storage W) (Unit {0})
deposit_event e = modify (λ s. record s { events = e ∷ s.events })
