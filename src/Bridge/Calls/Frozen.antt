-- ===== src/Bridge/Calls/Frozen.antt =====
-- No call changes a complete proposal.
use can_bus.Base.{ℕ, ◌≢◌}
use can_bus.Frame.Call.{Origin}
use can_bus.Bridge.Votes.{ProposalVotes, initiated}
use can_bus.Bridge.State.{Storage, Config}
use can_bus.Bridge.Proposals.Frozen.{
  IsFrozen, votes-IsFrozen, vote_for-IsFrozen, vote_against-IsFrozen, try_resolve_proposal-IsFrozen,
}
use can_bus.Bridge.Calls.{Request, dispatch}
use can_bus.Bridge.Calls.Keeps.{dispatch-keeps}

module _ {W : Type 0} (c : Config W) where
  -- Once a proposal is approved or rejected, no call of the pallet, by whatever origin, changes its
  -- votes, its status or its expiry any more, if the calls that approved proposals dispatch do not.
  pub dispatch-IsFrozen :
      (src_id nonce prop : ℕ) (v : ProposalVotes)
      → v.status ≢ initiated
      → ((a call : ℕ) (s : Storage W)
          → IsFrozen c src_id nonce prop v s
          → IsFrozen c src_id nonce prop v (c.dispatch_call a call s).1)
      → (o : Origin) (r : Request) (s : Storage W) → IsFrozen c src_id nonce prop v s
      → IsFrozen c src_id nonce prop v (dispatch c o r s).1
  dispatch-IsFrozen src_id nonce prop v done keeps =
      dispatch-keeps c (IsFrozen c src_id nonce prop v) (votes-IsFrozen c src_id nonce prop v)
        (vote_for-IsFrozen c src_id nonce prop v done keeps)
        (vote_against-IsFrozen c src_id nonce prop v done keeps)
        (try_resolve_proposal-IsFrozen c src_id nonce prop v done keeps)
