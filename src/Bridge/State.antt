-- ===== src/Bridge/State.antt =====
-- The storage, events and configuration of pallets/bridge/src/lib.rs. A proposal is a call of the
-- runtime, which the pallet compares and dispatches and never looks into: it is a number, its
-- encoding. `world` is the storage of the other pallets.
use can_bus.Base.{ℕ, Bool, Option, List, ◌∷◌}
use can_bus.Frame.Call.{Call, modify}
use can_bus.Frame.Storage.{StorageMap, StorageDoubleMap}
use can_bus.Bridge.Votes.{ProposalVotes}

-- `BridgeEvent`, which the relayer program reads.
pub data BridgeEvent : Type 0 where
  fungible_transfer : ℕ → ℕ → List ℕ → ℕ → List ℕ → BridgeEvent
  non_fungible_transfer : ℕ → ℕ → List ℕ → List ℕ → List ℕ → List ℕ → BridgeEvent
  generic_transfer : ℕ → ℕ → List ℕ → List ℕ → BridgeEvent

-- `Event`. The three constructors that `BridgeEvent` has too are `transferred` around one of them.
pub data Event : Type 0 where
  relayer_threshold_changed : ℕ → Event
  chain_whitelisted_event : ℕ → Event
  relayer_added relayer_removed : ℕ → Event
  transferred : BridgeEvent → Event
  voted_for voted_against : ℕ → ℕ → ℕ → Event
  proposal_approved proposal_rejected proposal_succeeded proposal_failed : ℕ → ℕ → Event

pub record Storage (W : Type 0) : Type 0 where
  pub block_number : ℕ
  pub chain_nonces : StorageMap (Option ℕ)
  pub relayer_threshold : ℕ
  pub relayers : StorageMap Bool
  pub relayer_count : ℕ
  -- `Votes`, keyed by the chain and the pair of nonce and proposal.
  pub votes : StorageMap (StorageDoubleMap (Option ProposalVotes))
  pub bridge_events : List BridgeEvent
  pub world : W
  -- The newest event stands first.
  pub events : List Event

pub record Config (W : Type 0) : Type 0 where
  pub bridge_chain_id : ℕ
  pub proposal_lifetime : ℕ
  -- `account_id()`, which `MODULE_ID` gives.
  pub account_id : ℕ
  -- `call.dispatch(RawOrigin::Signed(account))`: it may run any call of the runtime.
  pub dispatch_call : ℕ → ℕ → Call (Storage W) (Unit {0})

module _ {W : Type 0} where
  abbrev pub deposit_event : Event → Call (Storage W) (Unit {0})
  deposit_event e = modify (λ s. record s { events = e ∷ s.events })

  -- A call of another pallet.
  abbrev pub on_world : {A : Type 0} → Call W A → Call (Storage W) A
  on_world m s = let (r, w) = m s.world in (r, record s { world = w })
