-- ===== src/Precompile/Staking/Calls.antt =====
-- The methods that dispatch a call of the pallet. A pool id and a balance have 128 bits and a block
-- number 32, as in runtime/src/lib.rs. A call is dispatched as FRAME does, undone if it fails.
pub mod Refines
use can_bus.Base.{ℕ}
use can_bus.Frame.Call.{Call, signed}
use can_bus.Staking.State.{Storage, Config}
use can_bus.Staking.Calls.{
  Request, dispatch, stakes, solve_pending_stakes, claim_natives, claim_stables, withdraws,
}
use can_bus.Precompile.Host.{
  Host, Evm, value_is_too_large, pool_index_type, balance_type, block_number_type, pure, try_into,
  ◌>>=◌, ◌>>◌,
}

-- The conversions, with the texts of their errors.
module _ {H : Type 0} where
  abbrev pub into_pool_id : ℕ → Evm H ℕ
  into_pool_id pool = try_into 128 pool (value_is_too_large pool_index_type)

  abbrev pub into_balance : ℕ → Evm H ℕ
  into_balance amount = try_into 128 amount (value_is_too_large balance_type)

  abbrev pub into_block_number : ℕ → Evm H ℕ
  into_block_number n = try_into 32 n (value_is_too_large block_number_type)

module _ (c : Config) (host : Host (Storage c.tokens.World)) where
  open host use {Handle, caller, into_account_id}

  -- `RuntimeHelper::try_dispatch(handle, Some(origin).into(), call)`
  abbrev pub dispatch_as_caller : Request → Evm Handle (Unit {0})
  dispatch_as_caller call = host.try_dispatch (dispatch c (signed (into_account_id caller)) call)

  unfoldable pub stake : ℕ → ℕ → Evm Handle (Unit {0})
  stake pool amount = do
    pool_id ← into_pool_id pool
    converted ← into_balance amount
    dispatch_as_caller (stakes pool_id converted)

  unfoldable pub solve_pending_stake : Evm Handle (Unit {0})
  solve_pending_stake = dispatch_as_caller solve_pending_stakes

  unfoldable pub claim_native : ℕ → Evm Handle (Unit {0})
  claim_native until_time = do
    converted ← into_block_number until_time
    dispatch_as_caller (claim_natives converted)

  unfoldable pub claim_stable : ℕ → ℕ → Evm Handle (Unit {0})
  claim_stable pool until_time = do
    pool_id ← into_pool_id pool
    converted ← into_block_number until_time
    dispatch_as_caller (claim_stables pool_id converted)

  unfoldable pub withdraw : ℕ → Evm Handle (Unit {0})
  withdraw pool = do pool_id ← into_pool_id pool; dispatch_as_caller (withdraws pool_id)

-- The methods with their arguments.
pub data Method : Type 0 where
  stakes_of : ℕ → ℕ → Method
  solves : Method
  claims_native : ℕ → Method
  claims_stable : ℕ → ℕ → Method
  withdraws_from : ℕ → Method

module _ (c : Config) (host : Host (Storage c.tokens.World)) where
  unfoldable pub run : Method → Evm host.Handle (Unit {0})
  run (stakes_of pool amount) = stake c host pool amount
  run solves = solve_pending_stake c host
  run (claims_native until_time) = claim_native c host until_time
  run (claims_stable pool until_time) = claim_stable c host pool until_time
  run (withdraws_from pool) = withdraw c host pool
