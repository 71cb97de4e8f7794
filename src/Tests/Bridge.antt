-- ===== src/Tests/Bridge.antt =====
-- Runs of pallets/bridge/src/lib.rs.
use can_bus.Base.{
  inr, ℕ, ◌+◌, ◌^◌, ◌≤◌, ◌<◌, ◌≡◌, ◌≢◌, ◌↔◌, true, none, some, [], ◌∷◌, ◌++◌, refl, arith, ◌==◌,
  replicate, if◌then◌else◌,
}
use can_bus.Frame.Call.{signed, ok, err}
use can_bus.Frame.Error.{bridge, proposal_already_complete}
use can_bus.Bridge.Votes.{ProposalVotes, initiated, approved, rejected, try_to_complete}
use can_bus.Bridge.Votes.Tally.{try_to_complete_verdict, rejected_is_final}
use can_bus.Bridge.State.{Storage, Config, fungible_transfer}
use can_bus.Bridge.Relayers.{nonce_or_zero, signal_transfer_fungible, unregister_relayer}
use can_bus.Bridge.Relayers.Count.{IsCounted, administration-IsCounted}
use can_bus.Bridge.Relayers.Nonces.{
  IsConsecutive, signal_transfer_fungible_next, signal_transfer_fungible-IsConsecutive,
}
use can_bus.Bridge.Proposals.{vote_for, vote_against, try_resolve_proposal}
use can_bus.Bridge.Proposals.Honest.{IsHonest}
use can_bus.Bridge.Proposals.Frozen.{IsFrozen}
use can_bus.Bridge.Calls.Frozen.{dispatch-IsFrozen}
use can_bus.Bridge.History.{here, next, calls, blocks, decided_forever}
use can_bus.Bridge.Calls.{on_initialize, dispatch, acknowledge_proposals}
use can_bus.Bridge.Calls.Honest.{dispatch-IsHonest}
use can_bus.Bridge.Resource.{derive_resource_id}
use can_bus.Bridge.Resource.Layout.{derive_resource_id-layout}

-- A dispatched call counts itself in the world.
abbrev config : Config ℕ
config = record {
  bridge_chain_id = 1;
  proposal_lifetime = 100;
  account_id = 42;
  dispatch_call = λ a call s. (ok tt, record s { world = s.world + call });
}

-- Relayers 3 and 4 of threshold 2, and chain 2 at nonce 6.
abbrev start : Storage ℕ
start = record {
  block_number = 10;
  chain_nonces = λ id. if id == 2 then some 6 else none;
  relayer_threshold = 2;
  relayers = λ a. if a == 3 then true else a == 4;
  relayer_count = 2;
  votes = λ i j k. none;
  bridge_events = [];
  world = 0;
  events = [];
}

-- Relayer 3 has voted for proposal 5.
abbrev voted : Storage ℕ
voted = (vote_for config 3 7 2 5 start).1

-- Relayer 4 has too.
abbrev finished : Storage ℕ
finished = (vote_for config 4 7 2 5 voted).1

dispatch-IsHonest_example :
    IsHonest config (dispatch config (signed 4) (acknowledge_proposals 7 2 [] 5) start).1
dispatch-IsHonest_example =
    dispatch-IsHonest config (λ a call s h. record { once = h.once }) (signed 4)
      (acknowledge_proposals 7 2 [] 5) start (record { once = λ i j k. tt })

abbrev complete : ProposalVotes
complete = record { votes_for = 3 ∷ 4 ∷ []; votes_against = []; status = approved; expiry = 110 }

dispatch-IsFrozen_example :
    IsFrozen config 2 7 5 complete
      (dispatch config (signed 4) (acknowledge_proposals 7 2 [] 5) finished).1
unfolding vote_for
dispatch-IsFrozen_example =
    dispatch-IsFrozen config 2 7 5 complete (ground arith)
      (λ a call s h. record { stays = h.stays }) (signed 4) (acknowledge_proposals 7 2 [] 5)
      finished (record { stays = refl })

-- Relayer 3 votes for another proposal, and a block begins.
abbrev afterwards : Storage ℕ
afterwards =
    on_initialize 11 (dispatch config (signed 3) (acknowledge_proposals 8 2 [] 6) finished).1

decided_forever_example :
    (afterwards.votes 2 7 5 ≡ some complete)
    × (vote_for config 4 7 2 5 afterwards ≡ (err (bridge proposal_already_complete), afterwards))
    × (vote_against config 4 7 2 5 afterwards
        ≡ (err (bridge proposal_already_complete), afterwards))
    × (try_resolve_proposal config 7 2 5 afterwards
        ≡ (err (bridge proposal_already_complete), afterwards))
unfolding vote_for
decided_forever_example =
    decided_forever config 2 7 5 complete (ground arith) (λ a call s h. record { stays = h.stays })
      4 finished afterwards refl
      (next (next here (calls (signed 3) (acknowledge_proposals 8 2 [] 6) finished))
        (blocks 11 (dispatch config (signed 3) (acknowledge_proposals 8 2 [] 6) finished).1))

try_to_complete_verdict_example :
    let v = complete in
    let r = try_to_complete v 2 3 in
    ((r.1 ≡ approved) ↔ (2 ≤ 2))
    × ((r.1 ≡ rejected) ↔ ((2 < 2) × (2 ≤ 3) × (3 < 0 + 2)))
    × (r.0.votes_for ≡ v.votes_for)
    × (r.0.votes_against ≡ v.votes_against)
    × (r.0.expiry ≡ v.expiry)
    × (r.1 ≢ initiated → r.0.status ≡ r.1)
    × (r.1 ≡ initiated → r.0 ≡ v)
try_to_complete_verdict_example = try_to_complete_verdict complete 2 3 (ground arith)

-- Two of three relayers are against where two must be in favour.
abbrev opposed : ProposalVotes
opposed = record { votes_for = []; votes_against = 3 ∷ 4 ∷ []; status = initiated; expiry = 110 }

rejected_is_final_example : 0 + 1 < 2
unfolding try_to_complete
rejected_is_final_example = rejected_is_final opposed 2 3 1 (ground arith) refl (ground arith)

signal_transfer_fungible_next_example :
    let out = signal_transfer_fungible {W = ℕ} 2 (1 ∷ []) (4 ∷ []) 50 start in
    ((out.0 ≡ ok tt) ↔ ((true ≡ true) × (7 < 2 ^ 64)))
    × (out.0 ≡ ok tt
        → (out.1.chain_nonces 2 ≡ some 7)
          × (out.1.bridge_events ≡ fungible_transfer 2 7 (1 ∷ []) 50 (4 ∷ []) ∷ [])
          × ((id : ℕ) → id ≢ 2 → out.1.chain_nonces id ≡ start.chain_nonces id))
    × (out.0 ≢ ok tt → out.1 ≡ start)
signal_transfer_fungible_next_example = signal_transfer_fungible_next 2 50 (1 ∷ []) (4 ∷ []) start

abbrev signalled : Storage ℕ
signalled = (signal_transfer_fungible 2 (1 ∷ []) (4 ∷ []) 50 start).1

signal_transfer_fungible-IsConsecutive_example : IsConsecutive signalled
unfolding signal_transfer_fungible
signal_transfer_fungible-IsConsecutive_example =
    signal_transfer_fungible-IsConsecutive 2 50 (1 ∷ []) (4 ∷ []) start signalled refl (record {
      from = λ id. nonce_or_zero (start.chain_nonces id);
      sent = λ id. 0;
      nonces = λ id. refl;
      stored = λ id. ground arith;
    })

counted : IsCounted start
counted = record {
  members = 3 ∷ 4 ∷ [];
  distinct = ground arith;
  listed = λ a. ground arith;
  counted = refl;
}

administration-IsCounted_example : IsCounted (unregister_relayer 4 start).1
unfolding unregister_relayer
administration-IsCounted_example =
    administration-IsCounted 4 start (unregister_relayer 4 start).1 (inr refl) counted

derive_resource_id-layout_example :
    derive_resource_id 9 (1 ∷ 2 ∷ []) ≡ replicate 29 0 ++ (1 ∷ 2 ∷ 9 ∷ [])
derive_resource_id-layout_example = derive_resource_id-layout 9 (1 ∷ 2 ∷ []) (ground arith)
