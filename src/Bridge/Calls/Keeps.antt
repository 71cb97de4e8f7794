-- ===== src/Bridge/Calls/Keeps.antt =====
-- What every call of pallets/bridge/src/lib.rs keeps.
use can_bus.Base.{ℕ, List, Bool-cases, inl, inr, is_some, ◌≡◌, arith, ap}
use can_bus.Frame.Call.{Origin, root, signed, unsigned, transactional-keeps}
use can_bus.Bridge.State.{Storage, Config}
use can_bus.Bridge.Relayers.{set_relayer_threshold, whitelist, register_relayer, unregister_relayer}
use can_bus.Bridge.Proposals.{vote_for, vote_against, try_resolve_proposal}
use can_bus.Bridge.Calls.{
  set_threshold, whitelist_chain, add_relayer, remove_relayer, acknowledge_proposal,
  reject_proposal, eval_vote_state, Request, call_of, dispatch, set_thresholds, whitelist_chains,
  add_relayers, remove_relayers, acknowledge_proposals, reject_proposals, eval_vote_states,
}

module _ {W : Type 0} (c : Config W) where
  -- The administrative calls leave the votes alone.
  administration_votes :
      (o : Origin) (n : ℕ) (s : Storage W)
      → ((set_threshold c o n s).1.votes ≡ s.votes)
        × ((whitelist_chain c o n s).1.votes ≡ s.votes)
        × ((add_relayer c o n s).1.votes ≡ s.votes)
        × ((remove_relayer c o n s).1.votes ≡ s.votes)
  unfolding set_threshold whitelist_chain add_relayer remove_relayer set_relayer_threshold whitelist
      register_relayer unregister_relayer
  administration_votes root n s = (ground arith, ground arith, ground arith, ground arith)
  administration_votes (signed a) n s = (ground arith, ground arith, ground arith, ground arith)
  administration_votes unsigned n s = (ground arith, ground arith, ground arith, ground arith)

  -- What depends on the votes alone, and is kept by voting and by resolving, every call keeps.
  module _ (P : Storage W → Type 0) (same_votes : (s t : Storage W) → t.votes ≡ s.votes → P s → P t)
      (voting_for : (who nonce src_id prop : ℕ) (s : Storage W)
        → P s
        → P (vote_for c who nonce src_id prop s).1)
      (voting_against : (who nonce src_id prop : ℕ) (s : Storage W)
        → P s
        → P (vote_against c who nonce src_id prop s).1)
      (resolving : (nonce src_id prop : ℕ) (s : Storage W)
        → P s
        → P (try_resolve_proposal c nonce src_id prop s).1) where
    acknowledge_proposal_keeps :
        (o : Origin) (nonce src_id : ℕ) (r_id : List ℕ) (prop : ℕ) (s : Storage W)
        → P s
        → P (acknowledge_proposal c o nonce src_id r_id prop s).1
    unfolding acknowledge_proposal
    acknowledge_proposal_keeps root nonce src_id r_id prop s h = h
    acknowledge_proposal_keeps unsigned nonce src_id r_id prop s h = h
    acknowledge_proposal_keeps (signed who) nonce src_id r_id prop s h =
        let out = acknowledge_proposal c (signed who) nonce src_id r_id prop s in
        elim (Bool-cases (s.relayers who)) [
          | inr e ↦ let same : out.1 ≡ s = ground arith in rw same h
          | inl e ↦ elim (Bool-cases (is_some (s.chain_nonces src_id))) [
            | inr f ↦ let same : out.1 ≡ s = ground arith in rw same h
            | inl f ↦
                let same : out ≡ vote_for c who nonce src_id prop s = ground arith in
                rw same (voting_for who nonce src_id prop s h)
          ]
        ]

    reject_proposal_keeps :
        (o : Origin) (nonce src_id : ℕ) (r_id : List ℕ) (prop : ℕ) (s : Storage W)
        → P s
        → P (reject_proposal c o nonce src_id r_id prop s).1
    unfolding reject_proposal
    reject_proposal_keeps root nonce src_id r_id prop s h = h
    reject_proposal_keeps unsigned nonce src_id r_id prop s h = h
    reject_proposal_keeps (signed who) nonce src_id r_id prop s h =
        let out = reject_proposal c (signed who) nonce src_id r_id prop s in
        elim (Bool-cases (s.relayers who)) [
          | inr e ↦ let same : out.1 ≡ s = ground arith in rw same h
          | inl e ↦ elim (Bool-cases (is_some (s.chain_nonces src_id))) [
            | inr f ↦ let same : out.1 ≡ s = ground arith in rw same h
            | inl f ↦
                let same : out ≡ vote_against c who nonce src_id prop s = ground arith in
                rw same (voting_against who nonce src_id prop s h)
          ]
        ]

    eval_vote_state_keeps :
        (o : Origin) (nonce src_id prop : ℕ) (s : Storage W)
        → P s
        → P (eval_vote_state c o nonce src_id prop s).1
    unfolding eval_vote_state
    eval_vote_state_keeps root nonce src_id prop s h = h
    eval_vote_state_keeps unsigned nonce src_id prop s h = h
    eval_vote_state_keeps (signed who) nonce src_id prop s h = resolving nonce src_id prop s h

    call_of_keeps : (o : Origin) (r : Request) (s : Storage W) → P s → P (call_of c o r s).1
    call_of_keeps o (set_thresholds n) s h =
        same_votes s (set_threshold c o n s).1 (administration_votes o n s).0 h
    call_of_keeps o (whitelist_chains n) s h =
        same_votes s (whitelist_chain c o n s).1 (administration_votes o n s).1 h
    call_of_keeps o (add_relayers n) s h =
        same_votes s (add_relayer c o n s).1 (administration_votes o n s).2 h
    call_of_keeps o (remove_relayers n) s h =
        same_votes s (remove_relayer c o n s).1 (administration_votes o n s).3 h
    call_of_keeps o (acknowledge_proposals n id r p) s h = acknowledge_proposal_keeps o n id r p s h
    call_of_keeps o (reject_proposals n id r p) s h = reject_proposal_keeps o n id r p s h
    call_of_keeps o (eval_vote_states n id p) s h = eval_vote_state_keeps o n id p s h

    pub dispatch-keeps : (o : Origin) (r : Request) (s : Storage W) → P s → P (dispatch c o r s).1
    unfolding dispatch
    dispatch-keeps o r s h =
        transactional-keeps P (call_of c o r) s
          (λ a t e. let done = call_of_keeps o r s h in rw (ap (λ (x : _). x.1) e) at done) h
