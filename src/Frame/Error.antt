-- ===== src/Frame/Error.antt =====
-- The error enumerations of the pallets, and `DispatchError` over all of them.
use can_bus.Base.{ℕ}

-- pallets/stable-staking/src/lib.rs, `Error`.
pub data StakingError : Type 0 where
  reward_already_existed pool_already_started pool_already_ended : StakingError
  pool_already_existed pool_cap_limit pool_not_ended pool_not_existed : StakingError
  pool_not_started bad_metadata cannot_claim_future epoch_already_ended : StakingError
  epoch_not_existed no_asset_id type_incompatible_or_arithmetic_error : StakingError

-- pallets/bridge/src/lib.rs, `Error`.
pub data BridgeError : Type 0 where
  threshold_not_set invalid_chain_id invalid_threshold chain_not_whitelisted : BridgeError
  chain_already_whitelisted resource_does_not_exist relayer_already_exists : BridgeError
  relayer_invalid must_be_relayer relayer_already_voted proposal_already_exists : BridgeError
  proposal_does_not_exist proposal_not_complete proposal_already_complete : BridgeError
  proposal_expired nonce_over_flow : BridgeError

-- pallets/assets-handler/src/lib.rs, `Error`.
pub data HandlerError : Type 0 where
  invalid_resource_id cannot_pay_as_fee : HandlerError

-- pallets/halving-mint/src/lib.rs, `Error`.
pub data MintError : Type 0 where
  mint_state_unchanged on_token_minted_state_unchanged mint_already_started : MintError
  mint_not_started start_block_too_early skipped_blocks_overflow : MintError

-- pallets/template/src/lib.rs, `Error`.
pub data TemplateError : Type 0 where
  none_value storage_overflow : TemplateError

pub data ArithmeticError : Type 0 where
  overflow underflow division_by_zero : ArithmeticError

-- `other n` is an error of a pallet outside the repository.
pub data DispatchError : Type 0 where
  bad_origin : DispatchError
  arithmetic : ArithmeticError → DispatchError
  staking : StakingError → DispatchError
  bridge : BridgeError → DispatchError
  handler : HandlerError → DispatchError
  mint : MintError → DispatchError
  template : TemplateError → DispatchError
  other : ℕ → DispatchError
