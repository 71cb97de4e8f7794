-- ===== src/Bridge/Proposals.antt =====
-- Voting on proposals, and their execution, in pallets/bridge/src/lib.rs.
pub mod Voting
pub mod Once
pub mod Honest
pub mod Frozen
use can_bus.Base.{
  ℕ, ◌+◌, ◌%◌, ◌^◌, Bool, true, false, not, Option, none, some, [], ◌∷◌, ◌++◌, if◌then◌else◌,
}
use can_bus.Frame.Error.{
  bridge, relayer_already_voted, proposal_does_not_exist, proposal_already_complete,
  proposal_expired,
}
use can_bus.Frame.Call.{Call, pure, fail, gets, modify, ensure, ◌>>=◌, ◌>>◌}
use can_bus.Frame.Storage.{insert, insert₂}
use can_bus.Bridge.Votes.{
  ProposalVotes, ProposalStatus, initiated, approved, rejected, new_votes, try_to_complete,
  is_complete, has_voted, is_expired,
}
use can_bus.Bridge.State.{
  Storage, Config, deposit_event, voted_for, voted_against, proposal_approved, proposal_rejected,
  proposal_succeeded,
}

-- The votes that a new vote is added to.
abbrev pub votes_or_new : Option ProposalVotes → ℕ → ProposalVotes
votes_or_new (some votes) expiry = votes
votes_or_new none expiry = new_votes expiry

-- `votes.votes_for.push(who)` or `votes.votes_against.push(who)`.
abbrev pub push_vote : ProposalVotes → ℕ → Bool → ProposalVotes
push_vote votes who true = record votes { votes_for = votes.votes_for ++ who ∷ [] }
push_vote votes who false = record votes { votes_against = votes.votes_against ++ who ∷ [] }

module _ {W : Type 0} (c : Config W) where
  abbrev pub S : Type 0
  S = Storage W

  abbrev pub put_votes : ℕ → ℕ → ℕ → ProposalVotes → Call S (Unit {0})
  put_votes src_id nonce prop v = modify (λ s. record s {
    votes = insert src_id (insert₂ nonce prop (some v) (s.votes src_id)) s.votes;
  })

  -- `now + ProposalLifetime::get()` on u32, unchecked.
  unfoldable pub commit_vote : ℕ → ℕ → ℕ → ℕ → Bool → Call S (Unit {0})
  commit_vote who nonce src_id prop in_favour = do
    now ← gets (λ s. s.block_number)
    stored ← gets (λ s. s.votes src_id nonce prop)
    let v = votes_or_new stored ((now + c.proposal_lifetime) % 2 ^ 32)
    ensure (not (is_complete v)) (bridge proposal_already_complete)
    ensure (not (is_expired v now)) (bridge proposal_expired)
    ensure (not (has_voted v who)) (bridge relayer_already_voted)
    deposit_event (if in_favour then voted_for src_id nonce who else voted_against src_id nonce who)
    put_votes src_id nonce prop (push_vote v who in_favour)

  unfoldable pub finalize_execution : ℕ → ℕ → ℕ → Call S (Unit {0})
  finalize_execution src_id nonce call = do
    deposit_event (proposal_approved src_id nonce)
    c.dispatch_call c.account_id call
    deposit_event (proposal_succeeded src_id nonce)

  unfoldable pub cancel_execution : ℕ → ℕ → Call S (Unit {0})
  cancel_execution src_id nonce = deposit_event (proposal_rejected src_id nonce)

  -- The `match status` of `try_resolve_proposal`.
  unfoldable pub conclude : ProposalStatus → ℕ → ℕ → ℕ → Call S (Unit {0})
  unfolding finalize_execution cancel_execution
  conclude approved nonce src_id prop = finalize_execution src_id nonce prop
  conclude rejected nonce src_id prop = cancel_execution src_id nonce
  conclude initiated nonce src_id prop = pure tt

  unfoldable pub resolve_with : Option ProposalVotes → ℕ → ℕ → ℕ → Call S (Unit {0})
  unfolding try_to_complete conclude
  resolve_with none nonce src_id prop = fail (bridge proposal_does_not_exist)
  resolve_with (some v) nonce src_id prop = do
    now ← gets (λ s. s.block_number)
    ensure (not (is_complete v)) (bridge proposal_already_complete)
    ensure (not (is_expired v now)) (bridge proposal_expired)
    threshold ← gets (λ s. s.relayer_threshold)
    total ← gets (λ s. s.relayer_count)
    put_votes src_id nonce prop (try_to_complete v threshold total).0
    conclude (try_to_complete v threshold total).1 nonce src_id prop

  unfoldable pub try_resolve_proposal : ℕ → ℕ → ℕ → Call S (Unit {0})
  unfolding resolve_with
  try_resolve_proposal nonce src_id prop = do
    stored ← gets (λ s. s.votes src_id nonce prop)
    resolve_with stored nonce src_id prop

  unfoldable pub vote_for : ℕ → ℕ → ℕ → ℕ → Call S (Unit {0})
  unfolding commit_vote try_resolve_proposal
  vote_for who nonce src_id prop = do
    commit_vote who nonce src_id prop true
    try_resolve_proposal nonce src_id prop

  unfoldable pub vote_against : ℕ → ℕ → ℕ → ℕ → Call S (Unit {0})
  unfolding commit_vote try_resolve_proposal
  vote_against who nonce src_id prop = do
    commit_vote who nonce src_id prop false
    try_resolve_proposal nonce src_id prop
