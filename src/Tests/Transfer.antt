-- ===== src/Tests/Transfer.antt =====
-- Runs of pallets/assets-handler/src/lib.rs and pallets/bridge-transfer/src/lib.rs.
use can_bus.Base.{
  inr, ◌≤◌, ℕ, ◌+◌, ◌<◌, ◌≡◌, ◌≢◌, Bool, true, false, none, some, List, [], ◌∷◌, refl, arith,
  bytes_eq, ◌==◌, if◌then◌else◌,
}
use can_bus.Frame.Call.{signed, err, ok}
use can_bus.Frame.Error.{other}
use can_bus.Bridge.State as Bridge
use can_bus.Bridge.State.{fungible_transfer}
use can_bus.Bridge.Relayers.{signal_transfer_fungible, ensure_bridge}
use can_bus.Handler.State as Handler
use can_bus.Handler.State.{AssetInfo}
use can_bus.Handler.Calls.{prepare_token_bridge_in, prepare_token_bridge_out}
use can_bus.Transfer.Calls.{transfer_assets, transfer}
use can_bus.Transfer.Conserves.{transfer_assets_conserves}
use can_bus.Transfer.RoundTrip.{transfer_assets-transfer}
use can_bus.Tests.Data.{Books, tokens, tokens-TokenLaws, books}

abbrev pub config : Handler.Config
config = record { tokens = tokens; treasury_account = 99 }

-- Resource 1 2 is asset 5 with a fee of 3.
abbrev pub resource : List ℕ
resource = 1 ∷ 2 ∷ []

abbrev pub asset : AssetInfo
asset = record { fee = 3; asset = some 5 }

abbrev handled : Handler.Storage Books
handled = record {
  resource_to_asset_info = λ r. if bytes_eq r resource then some asset else none;
  world = books;
  events = [];
}

abbrev pub bridged : Bridge.Storage (Handler.Storage Books)
bridged = record {
  block_number = 1;
  chain_nonces = λ id. if id == 2 then some 6 else none;
  relayer_threshold = 1;
  relayers = λ a. false;
  relayer_count = 0;
  votes = λ i j k. none;
  bridge_events = [];
  world = handled;
  events = [];
}

abbrev bridge_config : Bridge.Config (Handler.Storage Books)
bridge_config = record {
  bridge_chain_id = 1;
  proposal_lifetime = 100;
  account_id = 42;
  dispatch_call = λ a call s. (err (other 0), s);
}

abbrev pub members : ℕ → Bool
members a = a == 8

abbrev sent_out : Bridge.Storage (Handler.Storage Books)
sent_out = (transfer_assets config members (signed 8) 100 (4 ∷ []) 2 resource bridged).1

transfer_assets_conserves_example :
    (who sent : ℕ) × (info : AssetInfo) × (signed 8 ≡ signed who)
    × (members who ≡ true)
    × (some asset ≡ some info)
    × (0 < sent)
    × (100 ≤ sent + info.fee)
    × (tokens.balance info.asset who sent_out.world.world + (sent + info.fee)
        ≤ tokens.balance info.asset who books)
    × (tokens.balance info.asset 99 sent_out.world.world
        ≡ tokens.balance info.asset 99 books + info.fee)
    × (tokens.issuance info.asset sent_out.world.world + sent ≤ tokens.issuance info.asset books)
    × (sent_out.chain_nonces 2 ≡ some 7)
    × (sent_out.bridge_events ≡ fungible_transfer 2 7 resource sent (4 ∷ []) ∷ [])
unfolding transfer_assets prepare_token_bridge_out signal_transfer_fungible
transfer_assets_conserves_example =
    transfer_assets_conserves config tokens-TokenLaws members (signed 8) 100 2 (4 ∷ []) resource
      bridged sent_out (ground arith) refl

abbrev brought_back : Bridge.Storage (Handler.Storage Books)
brought_back = (transfer config bridge_config (signed 42) 8 97 resource sent_out).1

out_runs :
    transfer_assets config members (signed 8) 100 (4 ∷ []) 2 resource bridged ≡ (ok tt, sent_out)
unfolding transfer_assets prepare_token_bridge_out signal_transfer_fungible
out_runs = refl

back_runs : transfer config bridge_config (signed 42) 8 97 resource sent_out ≡ (ok tt, brought_back)
unfolding transfer ensure_bridge prepare_token_bridge_in transfer_assets prepare_token_bridge_out
    signal_transfer_fungible
back_runs = refl

not_treasury : ◌≢◌ {A = ℕ} 8 99
not_treasury = λ e. ground arith

transfer_assets-transfer_example :
    (tokens.issuance (some 5) brought_back.world.world ≡ tokens.issuance (some 5) books)
    × (tokens.balance (some 5) 8 brought_back.world.world + 3 ≡ tokens.balance (some 5) 8 books)
    × (tokens.balance (some 5) 99 brought_back.world.world ≡ tokens.balance (some 5) 99 books + 3)
    × (brought_back ≡ record sent_out { world = brought_back.world })
transfer_assets-transfer_example =
    transfer_assets-transfer config tokens-TokenLaws members bridge_config (signed 42) 8 100 2
      (4 ∷ []) resource asset bridged sent_out brought_back not_treasury refl (inr (omega arith))
      out_runs back_runs
