-- ===== src/Runtime/Crossing.antt =====
-- How pallets/bridge, pallets/bridge-transfer and pallets/assets-handler meet in runtime/src/lib.rs:
-- a proposal is a call of the runtime, which the bridge dispatches when it is approved. Of the calls of
-- the runtime, `transfer` of pallets/bridge-transfer is the one that brings tokens in; `others`
-- stands for all that are not: those of pallets/bridge itself (`other_calls`), and those of the other
-- pallets, which are a parameter (`foreign`). A proposal is a number, its encoding, and `decode` and `own`
-- say which calls of the first two kinds it stands for.
pub mod Mints
pub mod Once
use can_bus.Base.{ℕ, zero, suc, Option, none, some, List}
use can_bus.Frame.Call.{Call, fail, signed}
use can_bus.Frame.Error.{other}
use can_bus.Bridge.Calls.{Request, dispatch}
use can_bus.Bridge.State as Bridge
use can_bus.Handler.State as Handler
use can_bus.Transfer.Calls.{S, transfer}

-- The arguments of `BridgeTransfer::transfer`.
pub record Transfer : Type 0 where
  pub to : ℕ
  pub amount : ℕ
  pub rid : List ℕ

module _ (h : Handler.Config) (account : ℕ) (decode : ℕ → Option Transfer)
    (others : ℕ → ℕ → Call (S h) (Unit {0})) where
  -- `impl pallet_bridge::Config for Runtime`, as far as it does not depend on the runtime's calls.
  abbrev pub pallet_bridge_config : Bridge.Config (Handler.Storage h.tokens.World)
  pallet_bridge_config = record {
    bridge_chain_id = 2;
    proposal_lifetime = 50400;
    account_id = account;
    dispatch_call = others;
  }

  abbrev pub dispatch_decoded : Option Transfer → ℕ → ℕ → Call (S h) (Unit {0})
  dispatch_decoded (some t) who call =
      transfer h pallet_bridge_config (signed who) t.to t.amount t.rid
  dispatch_decoded none who call = others who call

  -- `Proposal = RuntimeCall`
  abbrev pub dispatch_proposal : ℕ → ℕ → Call (S h) (Unit {0})
  dispatch_proposal who call = dispatch_decoded (decode call) who call

  abbrev pub bridge_config : Bridge.Config (Handler.Storage h.tokens.World)
  bridge_config = record pallet_bridge_config { dispatch_call = dispatch_proposal }

module _ (h : Handler.Config) (account : ℕ) (decode : ℕ → Option Transfer)
    (own : ℕ → Option Request) (foreign : ℕ → ℕ → Call (S h) (Unit {0})) where
  abbrev pub dispatch_own :
      Option Request
      → (Request → Call (S h) (Unit {0}))
      → Call (S h) (Unit {0})
      → Call (S h) (Unit {0})
  dispatch_own (some r) chain_bridge elsewhere = chain_bridge r
  dispatch_own none chain_bridge elsewhere = elsewhere

  -- The calls other than transfers in, with the number of calls of pallets/bridge that may stand inside
  -- one another: the framework refuses to decode a call that is nested deeper than a fixed limit.
  unfoldable pub other_calls : ℕ → ℕ → ℕ → Call (S h) (Unit {0})
  other_calls zero who call = dispatch_own (own call) (λ r. fail (other 0)) (foreign who call)
  other_calls (suc depth) who call =
      dispatch_own (own call)
        (λ r. dispatch (bridge_config h account decode (other_calls depth)) (signed who) r)
        (foreign who call)

  -- The bridge with all calls of the runtime.
  abbrev pub runtime_bridge : ℕ → Bridge.Config (Handler.Storage h.tokens.World)
  runtime_bridge depth = bridge_config h account decode (other_calls depth)
