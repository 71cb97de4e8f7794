-- ===== src/Precompile/Erc20/Views.antt =====
-- The methods of the ERC-20 precompile that read, and the choice of the asset by the address.
use can_bus.Base.{ℕ, ◌+◌, ◌*◌, Option, none, some, List, ltb, is_some, if◌then◌else◌}
use can_bus.Precompile.Host.{Host, Evm, gets, ◌>>◌}
use can_bus.Precompile.Erc20.Assets.{Assets}

-- `DiscriminantResult`, with the extra cost where it names it.
pub data DiscriminantResult : Type 0 where
  is_asset : ℕ → ℕ → DiscriminantResult
  no_asset : ℕ → DiscriminantResult
  out_of_gas : DiscriminantResult

module _ {W : Type 0} (host : Host W) (assets : Assets W) where
  open host use {Handle, into_account_id}

  abbrev world_of : Handle → W
  world_of h = (host.view h).world

  abbrev discriminant_with : Option ℕ → ℕ → Handle → DiscriminantResult
  discriminant_with none extra_cost h = no_asset extra_cost
  discriminant_with (some asset_id) extra_cost h =
      if is_some (assets.maybe_total_supply asset_id (world_of h))
      then is_asset asset_id extra_cost
      else no_asset extra_cost

  -- `extra_cost` is `db_read_gas_cost()`, and `address_to_asset_id` the runtime's.
  unfoldable pub discriminant :
      {Address : Type 0} → (Address → Option ℕ) → ℕ → Address → ℕ → Handle → DiscriminantResult
  discriminant address_to_asset_id extra_cost address gas h =
      if ltb gas extra_cost
      then out_of_gas
      else discriminant_with (address_to_asset_id address) extra_cost h

  unfoldable pub total_supply : ℕ → Evm Handle ℕ
  total_supply asset_id = do
    host.record_db_read 223
    gets (λ h. assets.total_issuance asset_id (world_of h))

  unfoldable pub balance_of : ℕ → ℕ → Evm Handle ℕ
  balance_of asset_id who = do
    host.record_db_read (99 + assets.extra_max_encoded_len)
    gets (λ h. assets.balance asset_id (into_account_id who) (world_of h))

  unfoldable pub allowance : ℕ → ℕ → ℕ → Evm Handle ℕ
  allowance asset_id owner spender = do
    host.record_db_read 148
    gets (λ h.
        assets.allowance asset_id (into_account_id owner) (into_account_id spender) (world_of h))

  unfoldable pub name : ℕ → Evm Handle (List ℕ)
  name asset_id = do
    host.record_db_read (50 + 2 * assets.string_limit)
    gets (λ h. assets.name asset_id (world_of h))

  unfoldable pub symbol : ℕ → Evm Handle (List ℕ)
  symbol asset_id = do
    host.record_db_read (50 + 2 * assets.string_limit)
    gets (λ h. assets.symbol asset_id (world_of h))

  unfoldable pub decimals : ℕ → Evm Handle ℕ
  decimals asset_id = do
    host.record_db_read (50 + 2 * assets.string_limit)
    gets (λ h. assets.decimals asset_id (world_of h))

  unfoldable pub minimum_balance : ℕ → Evm Handle ℕ
  minimum_balance asset_id = do
    host.record_db_read 207
    gets (λ h. assets.minimum_balance asset_id (world_of h))
