-- ===== src/Tests/Mint.antt =====
-- Runs of pallets/halving-mint/src/lib.rs.
use can_bus.Base.{ℕ, ◌+◌, ◌≤◌, ◌≡◌, some, [], refl, arith}
use can_bus.Mint.State.{stopped, running, Storage, Config}
use can_bus.Mint.Supply.{total_minted}
use can_bus.Mint.Calls.{on_initialize, dispatch, set_mint_states}
use can_bus.Mint.History.{here, calls, blocks, path_within_issuance}
use can_bus.Frame.Call.{root}

abbrev config : Config ℕ
config = record {
  total_issuance = 1000;
  halving_interval = 2;
  beneficiary = 7;
  deposit_creating = λ who n w. w + n;
  token_minted = λ who n w. w;
}

abbrev started : Storage ℕ
started = record {
  block_number = 9;
  mint_state = running;
  on_token_minted_state = running;
  start_block = some 10;
  skipped_blocks = 0;
  world = 0;
  events = [];
}

-- Minting runs for a block, is stopped for one, and runs again.
abbrev first : Storage ℕ
first = on_initialize config 10 started

abbrev paused : Storage ℕ
paused = (dispatch root (set_mint_states stopped) first).1

abbrev second : Storage ℕ
second = on_initialize config (paused.block_number + 1) paused

abbrev resumed : Storage ℕ
resumed = (dispatch root (set_mint_states running) second).1

abbrev third : Storage ℕ
third = on_initialize config (resumed.block_number + 1) resumed

path_within_issuance_example :
    (total_minted third.events ≤ 0 + 1000) × (third.start_block ≡ some 10)
path_within_issuance_example =
    path_within_issuance config (ground arith) (ground arith) 10 3 started third refl (ground arith)
      (ground arith)
      (blocks (
        calls (blocks (calls (blocks here) root (set_mint_states stopped))) root
          (set_mint_states running)))
