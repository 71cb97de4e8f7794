-- ===== src/Bridge/Proposals/Voting.antt =====
-- What one vote does, on every branch.
use can_bus.Base.{ℕ, ◌+◌, ◌%◌, ◌^◌, ◌≡◌, ◌≢◌, ◌⊎◌, true, false, some, ◌∷◌, refl, arith}
use can_bus.Frame.Error.{bridge, relayer_already_voted, proposal_already_complete, proposal_expired}
use can_bus.Frame.Call.{err}
use can_bus.Frame.Storage.{insert, insert₂}
use can_bus.Bridge.Votes.{
  ProposalVotes, initiated, try_to_complete, is_complete, has_voted, is_expired,
}
use can_bus.Bridge.State.{Storage, Config, voted_for}
use can_bus.Bridge.Proposals.{
  votes_or_new, push_vote, conclude, try_resolve_proposal, vote_for, vote_against,
}

module _ {W : Type 0} (c : Config W) where
  -- The votes that a vote cast now is added to: those stored, or new ones that expire after the
  -- proposal lifetime.
  abbrev pub current : Storage W → ℕ → ℕ → ℕ → ProposalVotes
  current s src_id nonce prop =
      votes_or_new (s.votes src_id nonce prop) ((s.block_number + c.proposal_lifetime) % 2 ^ 32)

  -- A vote in favour is refused, and changes nothing, on a complete proposal, else on an expired one,
  -- else by a relayer who has voted on it before.
  pub vote_for_refused :
      (who nonce src_id prop : ℕ) (s : Storage W)
      → let v = current s src_id nonce prop in
        let out = vote_for c who nonce src_id prop s in
        (is_complete v ≡ true → out ≡ (err (bridge proposal_already_complete), s))
        × (is_complete v ≡ false
            → is_expired v s.block_number ≡ true
            → out ≡ (err (bridge proposal_expired), s))
        × (is_complete v ≡ false
            → is_expired v s.block_number ≡ false
            → has_voted v who ≡ true
            → out ≡ (err (bridge relayer_already_voted), s))
  unfolding vote_for
  vote_for_refused who nonce src_id prop s =
      ((λ h. ground arith), (λ h k. ground arith), (λ h k l. ground arith))

  -- A complete proposal is final: a vote for it, a vote against it and an evaluation of it are all
  -- refused and leave the whole storage as it was, so that nothing is dispatched again.
  pub complete_is_final :
      (who nonce src_id prop : ℕ) (s : Storage W) (v : ProposalVotes)
      → s.votes src_id nonce prop ≡ some v
      → v.status ≢ initiated
      → (vote_for c who nonce src_id prop s ≡ (err (bridge proposal_already_complete), s))
        × (vote_against c who nonce src_id prop s ≡ (err (bridge proposal_already_complete), s))
        × (try_resolve_proposal c nonce src_id prop s ≡ (err (bridge proposal_already_complete), s))
  unfolding vote_for vote_against
  complete_is_final who nonce src_id prop s v e done = (ground arith, ground arith, ground arith)

  -- Everything but the votes on one proposal and the events is as it was.
  pub record Votes (src_id nonce prop : ℕ) (v : ProposalVotes) (s s' : Storage W) : Type 0 where
    pub here : s'.votes src_id nonce prop ≡ some v
    pub others :
        (i j k : ℕ) → (i ≢ src_id) ⊎ ((j ≢ nonce) ⊎ (k ≢ prop)) → s'.votes i j k ≡ s.votes i j k
    pub relayers : s'.relayers ≡ s.relayers
    pub relayer_count : s'.relayer_count ≡ s.relayer_count
    pub relayer_threshold : s'.relayer_threshold ≡ s.relayer_threshold
    pub chain_nonces : s'.chain_nonces ≡ s.chain_nonces
    pub bridge_events : s'.bridge_events ≡ s.bridge_events
    pub world : s'.world ≡ s.world

  module _ (who nonce src_id prop : ℕ) (s : Storage W)
      (running : is_complete (current s src_id nonce prop) ≡ false)
      (alive : is_expired (current s src_id nonce prop) s.block_number ≡ false)
      (new : has_voted (current s src_id nonce prop) who ≡ false) where
    -- The storage when the tally of a vote in favour has been stored.
    abbrev tallied : Storage W
    tallied =
        let w = push_vote (current s src_id nonce prop) who true in
        let r = try_to_complete w s.relayer_threshold s.relayer_count in
        let cast = insert src_id (insert₂ nonce prop (some w) (s.votes src_id)) s.votes in
        record s {
          votes = insert src_id (insert₂ nonce prop (some r.0) (cast src_id)) cast;
          events = voted_for src_id nonce who ∷ s.events;
        }

    -- A vote in favour on a proposal that is neither complete nor expired, by one who has not voted on
    -- it, is stored with the tally that it brings about, nothing else of the
    -- storage changes but for the event, and from there the call does what the verdict asks for:
    -- it dispatches the proposal if the tally is approved.
    pub vote_for_accepted :
        let w = push_vote (current s src_id nonce prop) who true in
        let r = try_to_complete w s.relayer_threshold s.relayer_count in
        (t : Storage W) × Votes src_id nonce prop r.0 s t
        × (t.events ≡ voted_for src_id nonce who ∷ s.events)
        × (vote_for c who nonce src_id prop s ≡ conclude c r.1 nonce src_id prop t)
    unfolding vote_for
    vote_for_accepted = (
      tallied,
      record {
        here = ground arith;
        others = λ i j k ne. ground arith;
        relayers = refl;
        relayer_count = refl;
        relayer_threshold = refl;
        chain_nonces = refl;
        bridge_events = refl;
        world = refl;
      },
      refl,
      ground arith,
    )
