-- ===== src/Bridge/Proposals/Honest.antt =====
-- No relayer votes twice on a proposal.
use can_bus.Base.{
  ℕ, ◌+◌, ◌%◌, ◌^◌, Bool-cases, inl, inr, ◌≡◌, ◌⊎◌, Bool, true, false, Option, none, some, ◌∷◌,
  arith,
}
use can_bus.Frame.Call.{>>=-keeps}
use can_bus.Frame.Storage.{insert, insert₂}
use can_bus.Bridge.Votes.{
  ProposalVotes, ProposalStatus, is_complete, is_expired, has_voted, try_to_complete, approved,
  rejected, initiated,
}
use can_bus.Bridge.State.{Storage, Config, deposit_event, proposal_approved, proposal_succeeded}
use can_bus.Bridge.Proposals.{
  votes_or_new, push_vote, put_votes, commit_vote, conclude, resolve_with, try_resolve_proposal,
  vote_for, vote_against,
}
use can_bus.Bridge.Proposals.Once.{
  IsOnce, IsOnceAt, push_vote-IsOnce, try_to_complete-IsOnce, votes_or_new-IsOnce, insert-IsOnceIn,
}

module _ {W : Type 0} (c : Config W) where
  -- On every stored proposal each account has voted at most once.
  pub record IsHonest (s : Storage W) : Type 0 where
    pub once : (src_id nonce prop : ℕ) → IsOnceAt (s.votes src_id nonce prop)

  put_votes-IsHonest :
      (src_id nonce prop : ℕ) (v : ProposalVotes) (s : Storage W)
      → IsOnce v
      → IsHonest s
      → IsHonest (put_votes c src_id nonce prop v s).1
  put_votes-IsHonest src_id nonce prop v s new h = record {
    once = insert-IsOnceIn src_id nonce prop v s.votes new h.once;
  }

  pub commit_vote_cases :
      (who nonce src_id prop : ℕ) (in_favour : Bool) (s : Storage W)
      → let v =
          votes_or_new
            (s.votes src_id nonce prop)
            ((s.block_number + c.proposal_lifetime) % 2 ^ 32) in
        let out = (commit_vote c who nonce src_id prop in_favour s).1 in
        ((has_voted v who ≡ false)
          × (out.votes
              ≡ insert src_id
                  (insert₂ nonce prop (some (push_vote v who in_favour)) (s.votes src_id))
                  s.votes))
        ⊎ (out.votes ≡ s.votes)
  unfolding commit_vote
  commit_vote_cases who nonce src_id prop in_favour s =
      let v =
        votes_or_new (s.votes src_id nonce prop)
          ((s.block_number + c.proposal_lifetime) % 2 ^ 32) in
      elim (Bool-cases (is_complete v)) [
        | inl e ↦ inr (ground arith)
        | inr e ↦ elim (Bool-cases (is_expired v s.block_number)) [
          | inl f ↦ inr (ground arith)
          | inr f ↦ elim (Bool-cases (has_voted v who)) [
            | inl g ↦ inr (ground arith)
            | inr g ↦ inl (g, ground arith)
          ]
        ]
      ]

  commit_vote-IsHonest :
      (who nonce src_id prop : ℕ) (in_favour : Bool) (s : Storage W)
      → IsHonest s
      → IsHonest (commit_vote c who nonce src_id prop in_favour s).1
  commit_vote-IsHonest who nonce src_id prop in_favour s h =
      let expiry = (s.block_number + c.proposal_lifetime) % 2 ^ 32 in
      let v = votes_or_new (s.votes src_id nonce prop) expiry in
      let fine =
        votes_or_new-IsOnce (s.votes src_id nonce prop) expiry (h.once src_id nonce prop) in
      elim (commit_vote_cases who nonce src_id prop in_favour s) [
        | inr e ↦ record { once = λ i j k. rw e (h.once i j k) }
        | inl (new, e) ↦ record {
          once = λ i j k. rw e (
              insert-IsOnceIn src_id nonce prop (push_vote v who in_favour) s.votes
                (push_vote-IsOnce v who in_favour fine new) h.once i j k);
        }
      ]

  module _
      (keeps : (a call : ℕ) (s : Storage W)
        → IsHonest s
        → IsHonest (c.dispatch_call a call s).1) where
    conclude-IsHonest :
        (status : ProposalStatus) (nonce src_id prop : ℕ) (s : Storage W)
        → IsHonest s
        → IsHonest (conclude c status nonce src_id prop s).1
    unfolding conclude
    conclude-IsHonest initiated nonce src_id prop s h = h
    conclude-IsHonest rejected nonce src_id prop s h = record { once = h.once }
    conclude-IsHonest approved nonce src_id prop s h =
        let noted = record s { events = proposal_approved src_id nonce ∷ s.events } in
        >>=-keeps IsHonest (c.dispatch_call c.account_id prop)
          (λ _. deposit_event (proposal_succeeded src_id nonce)) noted
          (keeps c.account_id prop noted (record { once = h.once }))
          (λ _ t k. record { once = k.once })

    resolve_with-IsHonest :
        (stored : Option ProposalVotes) (nonce src_id prop : ℕ) (s : Storage W)
        → IsOnceAt stored
        → IsHonest s
        → IsHonest (resolve_with c stored nonce src_id prop s).1
    unfolding resolve_with
    resolve_with-IsHonest none nonce src_id prop s fine h = h
    resolve_with-IsHonest (some v) nonce src_id prop s fine h =
        let r = try_to_complete v s.relayer_threshold s.relayer_count in
        elim (Bool-cases (is_complete v)) [
          | inl e ↦ rw e h
          | inr e ↦ rw e (elim (Bool-cases (is_expired v s.block_number)) [
            | inl f ↦ rw f h
            | inr f ↦ rw f (
                conclude-IsHonest r.1 nonce src_id prop (put_votes c src_id nonce prop r.0 s).1 (
                  put_votes-IsHonest src_id nonce prop r.0 s
                    (try_to_complete-IsOnce v s.relayer_threshold s.relayer_count fine) h))
          ])
        ]

    pub try_resolve_proposal-IsHonest :
        (nonce src_id prop : ℕ) (s : Storage W)
        → IsHonest s
        → IsHonest (try_resolve_proposal c nonce src_id prop s).1
    unfolding try_resolve_proposal
    try_resolve_proposal-IsHonest nonce src_id prop s h =
        resolve_with-IsHonest (s.votes src_id nonce prop) nonce src_id prop s
          (h.once src_id nonce prop) h

    pub vote_for-IsHonest :
        (who nonce src_id prop : ℕ) (s : Storage W)
        → IsHonest s
        → IsHonest (vote_for c who nonce src_id prop s).1
    unfolding vote_for
    vote_for-IsHonest who nonce src_id prop s h =
        >>=-keeps IsHonest (commit_vote c who nonce src_id prop true)
          (λ _. try_resolve_proposal c nonce src_id prop) s
          (commit_vote-IsHonest who nonce src_id prop true s h)
          (λ _ t. try_resolve_proposal-IsHonest nonce src_id prop t)

    pub vote_against-IsHonest :
        (who nonce src_id prop : ℕ) (s : Storage W)
        → IsHonest s
        → IsHonest (vote_against c who nonce src_id prop s).1
    unfolding vote_against
    vote_against-IsHonest who nonce src_id prop s h =
        >>=-keeps IsHonest (commit_vote c who nonce src_id prop false)
          (λ _. try_resolve_proposal c nonce src_id prop) s
          (commit_vote-IsHonest who nonce src_id prop false s h)
          (λ _ t. try_resolve_proposal-IsHonest nonce src_id prop t)
