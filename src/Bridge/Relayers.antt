-- ===== src/Bridge/Relayers.antt =====
-- The administration of pallets/bridge/src/lib.rs: threshold, whitelist and relayers; and the
-- signals of transfers to other chains.
pub mod Count
pub mod Nonces
use can_bus.Base.{
  ℕ, ◌+◌, ◌-◌, ◌%◌, ◌^◌, min, Bool, true, false, not, Option, none, some, List, [], ◌∷◌, ◌++◌, ltb,
  ◌==◌, is_some, if◌then◌else◌, checked_add,
}
use can_bus.Frame.Error.{
  bridge, bad_origin, invalid_chain_id, invalid_threshold, chain_not_whitelisted,
  chain_already_whitelisted, relayer_already_exists, relayer_invalid, nonce_over_flow,
}
use can_bus.Frame.Call.{
  Call, Origin, root, signed, unsigned, pure, fail, gets, modify, ok_or, ensure, ◌>>=◌, ◌>>◌,
}
use can_bus.Frame.Storage.{insert}
use can_bus.Bridge.State.{
  Storage, Config, deposit_event, fungible_transfer, relayer_threshold_changed,
  chain_whitelisted_event, relayer_added, relayer_removed, transferred,
}

-- `unwrap_or_default`
abbrev pub nonce_or_zero : Option ℕ → ℕ
nonce_or_zero none = 0
nonce_or_zero (some n) = n

module _ {W : Type 0} where
  abbrev pub is_relayer : ℕ → Call (Storage W) Bool
  is_relayer who = gets (λ s. s.relayers who)

  abbrev pub chain_whitelisted : ℕ → Call (Storage W) Bool
  chain_whitelisted id = gets (λ s. is_some (s.chain_nonces id))

  unfoldable pub bump_nonce : ℕ → Call (Storage W) ℕ
  bump_nonce id = do
    nonce ← gets (λ s. nonce_or_zero (s.chain_nonces id))
    new_nonce ← ok_or (checked_add 64 nonce 1) (bridge nonce_over_flow)
    modify (λ s. record s { chain_nonces = insert id (some new_nonce) s.chain_nonces })
    pure new_nonce

  unfoldable pub set_relayer_threshold : ℕ → Call (Storage W) (Unit {0})
  set_relayer_threshold threshold = do
    ensure (ltb 0 threshold) (bridge invalid_threshold)
    modify (λ s. record s { relayer_threshold = threshold })
    deposit_event (relayer_threshold_changed threshold)

  unfoldable pub whitelist : Config W → ℕ → Call (Storage W) (Unit {0})
  whitelist c id = do
    ensure (not (id == c.bridge_chain_id)) (bridge invalid_chain_id)
    listed ← chain_whitelisted id
    ensure (not listed) (bridge chain_already_whitelisted)
    modify (λ s. record s { chain_nonces = insert id (some 0) s.chain_nonces })
    deposit_event (chain_whitelisted_event id)

  -- `*i += 1` on u32, unchecked.
  unfoldable pub register_relayer : ℕ → Call (Storage W) (Unit {0})
  register_relayer relayer = do
    known ← is_relayer relayer
    ensure (not known) (bridge relayer_already_exists)
    modify (λ s. record s { relayers = insert relayer true s.relayers })
    modify (λ s. record s { relayer_count = (s.relayer_count + 1) % 2 ^ 32 })
    deposit_event (relayer_added relayer)

  -- `*i -= 1` on u32, unchecked.
  unfoldable pub unregister_relayer : ℕ → Call (Storage W) (Unit {0})
  unregister_relayer relayer = do
    known ← is_relayer relayer
    ensure known (bridge relayer_invalid)
    modify (λ s. record s { relayers = insert relayer false s.relayers })
    modify (λ s. record s { relayer_count = (s.relayer_count + 2 ^ 32 - 1) % 2 ^ 32 })
    deposit_event (relayer_removed relayer)

  unfoldable pub signal_transfer_fungible : ℕ → List ℕ → List ℕ → ℕ → Call (Storage W) (Unit {0})
  unfolding bump_nonce
  signal_transfer_fungible dest_id resource_id to amount = do
    listed ← chain_whitelisted dest_id
    ensure listed (bridge chain_not_whitelisted)
    nonce ← bump_nonce dest_id
    modify (λ s. record s {
      bridge_events =
          s.bridge_events
          ++ fungible_transfer dest_id nonce resource_id (min amount (2 ^ 128 - 1)) to ∷ [];
    })
    deposit_event
        (transferred (fungible_transfer dest_id nonce resource_id (min amount (2 ^ 128 - 1)) to))

  -- `EnsureBridge::try_origin`
  unfoldable pub ensure_bridge : Config W → Origin → Call (Storage W) ℕ
  ensure_bridge c (signed who) = if who == c.account_id then pure c.account_id else fail bad_origin
  ensure_bridge c root = fail bad_origin
  ensure_bridge c unsigned = fail bad_origin
