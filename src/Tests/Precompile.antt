-- ===== src/Tests/Precompile.antt =====
-- Runs of the precompiles.
use can_bus.Base.{
  ◌≤◌, ℕ, ◌+◌, ◌-◌, ◌^◌, ◌<◌, min, ◌≡◌, ◌≢◌, ◌⊎◌, Bool, true, some, [], ◌∷◌, refl, arith,
}
use can_bus.Frame.Call.{signed, ok}
use can_bus.Bridge.State as Bridge
use can_bus.Bridge.State.{fungible_transfer}
use can_bus.Handler.State as Handler
use can_bus.Handler.State.{AssetInfo}
use can_bus.Staking.Info.{PoolSetting}
use can_bus.Staking.State.{Storage}
use can_bus.Staking.Calls.{dispatch}
use can_bus.Precompile.Host.{Host, View, done, selector_log_approval}
use can_bus.Precompile.Erc20.Calls as Erc20
use can_bus.Precompile.Erc20.Calls.{log_of, transfers_from, mints}
use can_bus.Precompile.Erc20.Calls.Approve.{approve_sets}
use can_bus.Precompile.Erc20.Calls.Dispatches.{run_dispatches, call_for, log_for}
use can_bus.Precompile.Staking.Calls as Staking
use can_bus.Precompile.Staking.Calls.{stakes_of}
use can_bus.Precompile.Staking.Calls.Refines.{Fits, Refused, request_of, run_refines}
use can_bus.Precompile.Staking.Views.{PrecompilePoolSetting, staking_pool_setting}
use can_bus.Precompile.Staking.Views.Reads.{staking_pool_setting_answer}
use can_bus.Precompile.Bridge.{transfer_assets}
use can_bus.Precompile.Bridge.Conserves.{transfer_assets_by_contract}
use can_bus.Transfer.Calls as Transfer
use can_bus.Handler.Calls.{prepare_token_bridge_out}
use can_bus.Bridge.Relayers.{signal_transfer_fungible}
use can_bus.Tests.Data.{Books, tokens, tokens-TokenLaws, books}
use can_bus.Tests.Host.{Ledger, host_of, host-HostLaws, assets, assets-AssetsLaws, ledger}
use can_bus.Tests.Staking as Pools
use can_bus.Tests.Staking.{open_pool, setting}
use can_bus.Tests.Transfer as Sent
use can_bus.Tests.Transfer.{bridged, resource, members, asset}

abbrev seen : {W : Type 0} → W → View W
seen w = record { world = w; logs = [] }

abbrev erc20_host : Host Ledger
erc20_host = host_of 5

-- Account 5 moves 6 of what account 3 lets it spend.
abbrev moved : View Ledger
moved = (Erc20.run erc20_host assets 1 (transfers_from 3 4 6) (seen ledger)).1

run_dispatches_example :
    (◌≡◌ {A = Bool} true true)
    × (6 < 2 ^ 128)
    × ((w : Ledger) × (call_for erc20_host assets 1 (transfers_from 3 4 6) 6 ledger ≡ (ok tt, w))
        × (moved
            ≡ record { world = w; logs = log_for erc20_host assets (transfers_from 3 4 6) 6 ∷ [] }))
unfolding Erc20.run Erc20.transfer_from
run_dispatches_example =
    run_dispatches erc20_host assets (host-HostLaws 5) 1 (transfers_from 3 4 6) (seen ledger) moved
      true refl

abbrev allowing : View Ledger
allowing = (Erc20.approve erc20_host assets 1 4 60 (seen ledger)).1

approve_sets_example :
    (◌≡◌ {A = Bool} true true)
    × (assets.allowance 1 5 4 allowing.world ≡ min 60 (2 ^ 128 - 1))
    × ((i o d : ℕ)
        → (i ≢ 1) ⊎ ((o ≢ 5) ⊎ (d ≢ 4))
        → assets.allowance i o d allowing.world ≡ assets.allowance i o d ledger)
    × (allowing.logs ≡ log_of erc20_host assets selector_log_approval 5 4 60 ∷ [])
unfolding Erc20.approve Erc20.approve_inner Erc20.clean_approval
approve_sets_example =
    approve_sets erc20_host assets (host-HostLaws 5) assets-AssetsLaws 1 4 60 (seen ledger) allowing
      true refl

abbrev staking_host : Host (Storage Books)
staking_host = host_of 3

run_refines_example :
    let h = seen open_pool in
    let out = Staking.run Pools.config staking_host (stakes_of 1 60) h in
    ((Fits (stakes_of 1 60) × (out.0 ≡ done tt))
      × ((w : Storage Books) × (dispatch Pools.config
              (signed 3)
              (request_of (stakes_of 1 60))
              open_pool
            ≡ (ok tt, w))
          × (out.1 ≡ record h { world = w })))
    ⊎ (Refused out.0 × (out.1 ≡ h))
run_refines_example =
    run_refines Pools.config staking_host (host-HostLaws 3) (stakes_of 1 60) (seen open_pool)

abbrev answer : PrecompilePoolSetting
answer = record {
  start_time = 100;
  epoch = 100;
  epoch_range = 50;
  setup_time = 20;
  pool_cap = 1000;
}

staking_pool_setting_answer_example :
    (1 < 2 ^ 128)
    × ((s : PoolSetting) × (some setting ≡ some s)
        × (100 ≡ s.start_time)
        × (50 ≡ s.epoch_range)
        × (20 ≡ s.setup_time)
        × (1000 ≡ s.pool_cap)
        × (100 ≡ s.start_time))
    × (seen open_pool ≡ seen open_pool)
unfolding staking_pool_setting
staking_pool_setting_answer_example =
    staking_pool_setting_answer staking_host (host-HostLaws 3) 1 answer (seen open_pool)
      (seen open_pool) refl

abbrev Sides : Type 0
Sides = Bridge.Storage (Handler.Storage Books)

abbrev bridge_host : Host Sides
bridge_host = host_of 8

abbrev gone : View Sides
gone = (transfer_assets Sent.config members bridge_host 100 2 resource (4 ∷ []) (seen bridged)).1

transfer_assets_by_contract_example :
    (100 < 2 ^ 128)
    × ((sent : ℕ) × (info : AssetInfo) × (some asset ≡ some info)
        × (100 ≤ sent + info.fee)
        × (tokens.balance info.asset 8 gone.world.world.world + (sent + info.fee)
            ≤ tokens.balance info.asset 8 books)
        × (tokens.balance info.asset 99 gone.world.world.world
            ≡ tokens.balance info.asset 99 books + info.fee)
        × (tokens.issuance info.asset gone.world.world.world + sent
            ≤ tokens.issuance info.asset books)
        × (gone.world.bridge_events ≡ fungible_transfer 2 7 resource sent (4 ∷ []) ∷ []))
unfolding transfer_assets Transfer.transfer_assets prepare_token_bridge_out signal_transfer_fungible
transfer_assets_by_contract_example =
    transfer_assets_by_contract Sent.config members bridge_host (host-HostLaws 8) tokens-TokenLaws
      100 2 resource (4 ∷ []) (seen bridged) gone (ground arith) refl
