-- ===== src/Precompile/Erc20/Calls.antt =====
-- The methods of the ERC-20 precompile that change state. The address zero is `H160::default()`.
pub mod Approve
pub mod Dispatches
use can_bus.Base.{ℕ, ◌-◌, ◌^◌, not, ◌==◌, Bool, true, some, if◌then◌else◌, ltb}
use can_bus.Frame.Call.{signed}
use can_bus.Precompile.Host.{
  Host, Evm, RevertReason, value_is_too_large, in_field_value, balance_type, pure, gets, try_into,
  ◌>>=◌, ◌>>◌, selector_log_transfer, selector_log_approval, Selector, Log,
}
use can_bus.Precompile.Erc20.Assets.{Assets}

-- `value.try_into().unwrap_or_else(|_| Bounded::max_value())`
abbrev pub saturated : ℕ → ℕ
saturated value = if ltb value (2 ^ 128) then value else 2 ^ 128 - 1

-- `Self::u256_to_amount(value).in_field("value")`
abbrev pub u256_to_amount : {H : Type 0} → ℕ → Evm H ℕ
u256_to_amount value = try_into 128 value (in_field_value (value_is_too_large balance_type))

module _ {W : Type 0} (host : Host W) (assets : Assets W) where
  open host use {Handle, caller, address, into_account_id}

  abbrev pub log_of : Selector → ℕ → ℕ → ℕ → Log
  log_of selector from to value = record {
    address = address;
    topic0 = selector;
    topic1 = from;
    topic2 = some to;
    value = value;
  }

  -- "If previous approval exists, we need to clean it".
  unfoldable pub clean_approval : ℕ → ℕ → ℕ → Evm Handle (Unit {0})
  clean_approval asset_id owner spender = do
    old ← gets (λ h. assets.allowance asset_id owner spender (host.view h).world)
    if not (old == 0)
        then host.try_dispatch (assets.cancel_approval (signed owner) asset_id spender)
        else pure tt

  unfoldable pub approve_inner : ℕ → ℕ → ℕ → ℕ → Evm Handle (Unit {0})
  unfolding clean_approval
  approve_inner asset_id owner spender value = do
    let owner_id = into_account_id owner
    let spender_id = into_account_id spender
    host.record_db_read 148
    clean_approval asset_id owner_id spender_id
    host.try_dispatch
        (assets.approve_transfer (signed owner_id) asset_id spender_id (saturated value))

  unfoldable pub approve : ℕ → ℕ → ℕ → Evm Handle Bool
  unfolding approve_inner
  approve asset_id spender value = do
    host.record_log_costs_manual 3 32
    approve_inner asset_id caller spender value
    host.record_log (log_of selector_log_approval caller spender value)
    pure true

  unfoldable pub transfer : ℕ → ℕ → ℕ → Evm Handle Bool
  transfer asset_id to value = do
    host.record_log_costs_manual 3 32
    amount ← u256_to_amount value
    host.try_dispatch
        (assets.transfer (signed (into_account_id caller)) asset_id (into_account_id to) amount)
    host.record_log (log_of selector_log_transfer caller to amount)
    pure true

  unfoldable pub transfer_from : ℕ → ℕ → ℕ → ℕ → Evm Handle Bool
  transfer_from asset_id from to value = do
    host.record_log_costs_manual 3 32
    amount ← u256_to_amount value
    let caller_id = into_account_id caller
    let from_id = into_account_id from
    let to_id = into_account_id to
    host.try_dispatch (
        if not (caller_id == from_id)
        then assets.transfer_approved (signed caller_id) asset_id from_id to_id amount
        else assets.transfer (signed from_id) asset_id to_id amount)
    host.record_log (log_of selector_log_transfer from to amount)
    pure true

  unfoldable pub mint : ℕ → ℕ → ℕ → Evm Handle Bool
  mint asset_id to value = do
    host.record_log_costs_manual 3 32
    amount ← u256_to_amount value
    host.try_dispatch
        (assets.mint (signed (into_account_id caller)) asset_id (into_account_id to) amount)
    host.record_log (log_of selector_log_transfer 0 to amount)
    pure true

  unfoldable pub burn : ℕ → ℕ → ℕ → Evm Handle Bool
  burn asset_id from value = do
    host.record_log_costs_manual 3 32
    amount ← u256_to_amount value
    host.try_dispatch
        (assets.burn (signed (into_account_id caller)) asset_id (into_account_id from) amount)
    host.record_log (log_of selector_log_transfer from 0 amount)
    pure true

-- The methods with their arguments, after the asset.
pub data Method : Type 0 where
  transfers : ℕ → ℕ → Method
  transfers_from : ℕ → ℕ → ℕ → Method
  mints burns : ℕ → ℕ → Method

module _ {W : Type 0} (host : Host W) (assets : Assets W) where
  unfoldable pub run : ℕ → Method → Evm host.Handle Bool
  run asset_id (transfers to value) = transfer host assets asset_id to value
  run asset_id (transfers_from from to value) = transfer_from host assets asset_id from to value
  run asset_id (mints to value) = mint host assets asset_id to value
  run asset_id (burns from value) = burn host assets asset_id from value
