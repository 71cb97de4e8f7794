-- ===== src/Bridge/History.antt =====
-- What may happen to the bridge's storage over time: calls, new blocks, and what other pallets do.
use can_bus.Base.{ℕ, ◌≡◌, ◌≢◌, some}
use can_bus.Frame.Error.{bridge, proposal_already_complete}
use can_bus.Frame.Call.{Origin, err}
use can_bus.Bridge.Votes.{ProposalVotes, initiated}
use can_bus.Bridge.State.{Storage, Config}
use can_bus.Bridge.Proposals.{vote_for, vote_against, try_resolve_proposal}
use can_bus.Bridge.Proposals.Voting.{complete_is_final}
use can_bus.Bridge.Proposals.Frozen.{IsFrozen, votes-IsFrozen}
use can_bus.Bridge.Calls.{Request, dispatch, on_initialize}
use can_bus.Bridge.Calls.Frozen.{dispatch-IsFrozen}

module _ {W : Type 0} (c : Config W) where
  pub data Step : Storage W → Storage W → Type 0 where
    calls : (o : Origin) (r : Request) (s : Storage W) → Step s (dispatch c o r s).1
    blocks : (n : ℕ) (s : Storage W) → Step s (on_initialize n s)
    -- `Votes` is written by this pallet alone.
    others : (s t : Storage W) → t.votes ≡ s.votes → Step s t

  pub data Reaches (s : Storage W) : Storage W → Type 0 where
    here : Reaches s s
    next : {t u : Storage W} → Reaches s t → Step t u → Reaches s u

  module _ (src_id nonce prop : ℕ) (v : ProposalVotes) (done : v.status ≢ initiated)
      (keeps : (a call : ℕ) (s : Storage W)
        → IsFrozen c src_id nonce prop v s
        → IsFrozen c src_id nonce prop v (c.dispatch_call a call s).1) where
    Step-IsFrozen :
        {s t : Storage W}
        → Step s t
        → IsFrozen c src_id nonce prop v s
        → IsFrozen c src_id nonce prop v t
    unfolding on_initialize
    Step-IsFrozen (calls o r s) h = dispatch-IsFrozen c src_id nonce prop v done keeps o r s h
    Step-IsFrozen (blocks n s) h = record { stays = h.stays }
    Step-IsFrozen (others s t e) h = votes-IsFrozen c src_id nonce prop v s t e h

    Reaches-IsFrozen :
        {s t : Storage W}
        → Reaches s t
        → IsFrozen c src_id nonce prop v s
        → IsFrozen c src_id nonce prop v t
    Reaches-IsFrozen here h = h
    Reaches-IsFrozen (next before step) h = Step-IsFrozen step (Reaches-IsFrozen before h)

    -- If the calls that approved proposals dispatch do not change it: a proposal that was once approved
    -- or rejected has the same votes, status and expiry after any calls of the pallet by whatever
    -- origins, any blocks and anything that other pallets do, and every further vote on it and every
    -- evaluation of it is refused and changes nothing, so that it is not dispatched again.
    pub decided_forever :
        (who : ℕ) (s t : Storage W)
        → s.votes src_id nonce prop ≡ some v
        → Reaches s t
        → (t.votes src_id nonce prop ≡ some v)
          × (vote_for c who nonce src_id prop t ≡ (err (bridge proposal_already_complete), t))
          × (vote_against c who nonce src_id prop t ≡ (err (bridge proposal_already_complete), t))
          × (try_resolve_proposal c nonce src_id prop t
              ≡ (err (bridge proposal_already_complete), t))
    decided_forever who s t e path =
        let stays = (Reaches-IsFrozen path (record { stays = e })).stays in
        let (favour, against, tally) = complete_is_final c who nonce src_id prop t v stays done in
        (stays, favour, against, tally)
