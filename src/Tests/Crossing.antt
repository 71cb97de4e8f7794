-- ===== src/Tests/Crossing.antt =====
-- Runs of the bridge in the runtime, from a relayer's vote to the tokens of the receiver.
use can_bus.Base.{ℕ, [], ◌∷◌, ◌≡◌, Option, none, some, true, refl, ◌==◌, is_some, if◌then◌else◌}
use can_bus.Frame.Error.{DispatchError}
use can_bus.Frame.Call.{Call, signed, ok, err}
use can_bus.Bridge.Votes.{ProposalVotes, initiated, approved, try_to_complete}
use can_bus.Bridge.State as Bridge
use can_bus.Bridge.Relayers.{ensure_bridge}
use can_bus.Bridge.Proposals.{vote_for}
use can_bus.Bridge.Calls.{
  Request, eval_vote_states, eval_vote_state, acknowledge_proposal, acknowledge_proposals, dispatch,
  on_initialize,
}
use can_bus.Bridge.History.{here, next, calls, blocks}
use can_bus.Handler.State as Handler
use can_bus.Handler.Calls.{prepare_token_bridge_in}
use can_bus.Transfer.Calls.{S, transfer}
use can_bus.Runtime.Crossing.{Transfer, other_calls, runtime_bridge}
use can_bus.Runtime.Crossing.Mints.{Mints, Acknowledges, acknowledged_transfer}
use can_bus.Runtime.Crossing.Once.{minted_once}
use can_bus.Tests.Data.{Books, tokens-TokenLaws}
use can_bus.Tests.Transfer.{config, resource, bridged}

-- Proposal 5 brings account 8 a hundred of the resource, proposal 6 is the evaluation of proposal 9
-- on chain 2 under nonce 3, and every other call clears the events of the assets handler.
abbrev brings : Transfer
brings = record { to = 8; amount = 100; rid = resource }

abbrev decode : ℕ → Option Transfer
decode call = if call == 5 then some brings else none

abbrev own : ℕ → Option Request
own call = if call == 6 then some (eval_vote_states 3 2 9) else none

abbrev foreign : ℕ → ℕ → Call (S config) (Unit {0})
foreign a call s = (ok tt, record s { world = record s.world { events = [] } })

abbrev rest : ℕ → ℕ → Call (S config) (Unit {0})
rest = other_calls config 42 decode own foreign 2

abbrev runtime : Bridge.Config (Handler.Storage Books)
runtime = runtime_bridge config 42 decode own foreign 2

-- The relayer's vote for proposal 9, which has not been evaluated.
abbrev voted : ProposalVotes
voted = record { votes_for = 7 ∷ []; votes_against = []; status = initiated; expiry = 100 }

-- Account 7 is the one relayer.
abbrev manned : Bridge.Storage (Handler.Storage Books)
manned = record bridged {
  relayers = λ a. a == 7;
  relayer_count = 1;
  votes = λ i j k. if k == 9 then (if j == 3 then some voted else none) else none;
}

abbrev acknowledged : Bridge.Storage (Handler.Storage Books)
acknowledged = (dispatch runtime (signed 7) (acknowledge_proposals 1 2 resource 5) manned).1

runs :
    dispatch runtime (signed 7) (acknowledge_proposals 1 2 resource 5) manned
    ≡ (ok tt, acknowledged)
unfolding dispatch acknowledge_proposal vote_for transfer ensure_bridge prepare_token_bridge_in
runs = refl

acknowledged_transfer_example :
    (manned.relayers 7 ≡ true)
    × (is_some (manned.chain_nonces 2) ≡ true)
    × Acknowledges config 42 decode rest tokens-TokenLaws 2 1 5 brings refl 7 manned acknowledged
acknowledged_transfer_example =
    acknowledged_transfer config 42 decode rest tokens-TokenLaws 2 1 5 brings refl 7 resource manned
      acknowledged runs

-- The relayer acknowledges proposal 6, and the bridge dispatches a call of its own.
abbrev evaluated : Bridge.Storage (Handler.Storage Books)
evaluated = (dispatch runtime (signed 7) (acknowledge_proposals 2 2 resource 6) acknowledged).1

evaluated_runs : evaluated.votes 2 3 9 ≡ some (record voted { status = approved })
unfolding dispatch acknowledge_proposal vote_for other_calls eval_vote_state transfer ensure_bridge
    prepare_token_bridge_in
evaluated_runs = refl

minted_once_example :
    Mints config brings manned acknowledged
    × ((e : DispatchError) × (dispatch runtime
            (signed 7)
            (acknowledge_proposals 1 2 resource 5)
            (on_initialize 2 evaluated)
          ≡ (err e, on_initialize 2 evaluated)))
unfolding try_to_complete
minted_once_example =
    minted_once config 42 decode own foreign 2 (λ src nonce prop v done a call s e. e)
      tokens-TokenLaws 2 1 5 brings refl 7 resource manned acknowledged runs refl
      (on_initialize 2 evaluated) (signed 7) resource
      (next (next here (calls (signed 7) (acknowledge_proposals 2 2 resource 6) acknowledged))
        (blocks 2 evaluated))
