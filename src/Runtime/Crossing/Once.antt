-- ===== src/Runtime/Crossing/Once.antt =====
-- A proposal to bring tokens in is executed once.
use can_bus.Base.{
  ℕ, zero, suc, ap, ◌∙◌, Option-cases, ◌≡◌, ◌≢◌, Option, none, some, List, ◌==◌, true, Bool-cases,
  inl, inr, is_some, arith,
}
use can_bus.Frame.Error.{
  DispatchError, bridge, bad_origin, must_be_relayer, chain_not_whitelisted,
  proposal_already_complete,
}
use can_bus.Frame.Call.{Call, Origin, root, signed, unsigned, ok, err, outcome_cases}
use can_bus.Frame.Tokens.{TokenLaws}
use can_bus.Bridge.Votes.{ProposalVotes, initiated, approved, try_to_complete}
use can_bus.Bridge.State as Bridge
use can_bus.Bridge.Proposals.{push_vote, vote_for}
use can_bus.Bridge.Proposals.Voting.{current}
use can_bus.Bridge.Proposals.Frozen.{IsFrozen}
use can_bus.Bridge.Calls.Frozen.{dispatch-IsFrozen}
use can_bus.Bridge.Calls.{Request, acknowledge_proposal, acknowledge_proposals, dispatch}
use can_bus.Bridge.History.{Reaches, decided_forever}
use can_bus.Bridge.Relayers.{ensure_bridge}
use can_bus.Handler.Calls.{prepare_token_bridge_in}
use can_bus.Handler.State as Handler
use can_bus.Transfer.Calls.{S, transfer}
use can_bus.Runtime.Crossing.{
  Transfer, pallet_bridge_config, dispatch_decoded, bridge_config, other_calls, runtime_bridge,
}
use can_bus.Runtime.Crossing.Mints.{Mints, acknowledged_transfer}

complete_status :
    (v : ProposalVotes) (threshold total : ℕ)
    → (try_to_complete v threshold total).1 ≡ approved
    → (try_to_complete v threshold total).0.status ≢ initiated
unfolding try_to_complete
complete_status v threshold total e f = ground arith

-- The votes on one proposal are `v`.
abbrev pub Holds : {W : Type 0} → ℕ → ℕ → ℕ → ProposalVotes → Bridge.Storage W → Type 0
Holds src nonce prop v s = s.votes src nonce prop ≡ some v

module _ (h : Handler.Config) (account : ℕ) (decode : ℕ → Option Transfer) where
  transfer-votes :
      (rest : ℕ → ℕ → Call (S h) (Unit {0})) (t : Transfer) (a : ℕ) (s : S h)
      → (transfer h
          (pallet_bridge_config h account decode rest)
          (signed a)
          t.to
          t.amount
          t.rid
          s).1.votes
        ≡ s.votes
  unfolding transfer ensure_bridge
  transfer-votes rest t a s = elim (Bool-cases (a == account)) [
    | inr e ↦ ground arith
    | inl e ↦ elim (outcome_cases (prepare_token_bridge_in h t.rid t.to t.amount s.world)) [
      | inr (x, w, f) ↦ ground arith
      | inl (x, w, f) ↦ ground arith
    ]
  ]

  -- What every other call leaves alone, every proposal does.
  module _ (rest : ℕ → ℕ → Call (S h) (Unit {0})) (src nonce prop : ℕ) (v : ProposalVotes)
      (rest_holds : (a call : ℕ) (s : S h)
        → Holds src nonce prop v s
        → Holds src nonce prop v (rest a call s).1) where
    dispatch_decoded-Holds :
        (decoded : Option Transfer) (a call : ℕ) (s : S h)
        → Holds src nonce prop v s
        → Holds src nonce prop v (dispatch_decoded h account decode rest decoded a call s).1
    dispatch_decoded-Holds none a call s e = rest_holds a call s e
    dispatch_decoded-Holds (some t) a call s e =
        ap (λ m. m src nonce prop) (transfer-votes rest t a s) ∙ e

    pub keeps :
        (a call : ℕ) (s : S h)
        → IsFrozen (bridge_config h account decode rest) src nonce prop v s
        → IsFrozen
            (bridge_config h account decode rest)
            src
            nonce
            prop
            v
            ((bridge_config h account decode rest).dispatch_call a call s).1
    keeps a call s e = record { stays = dispatch_decoded-Holds (decode call) a call s e.stays }

  module _ (own : ℕ → Option Request) (foreign : ℕ → ℕ → Call (S h) (Unit {0})) (src nonce prop : ℕ)
      (v : ProposalVotes) (done : v.status ≢ initiated)
      (foreign_holds : (a call : ℕ) (s : S h)
        → Holds src nonce prop v s
        → Holds src nonce prop v (foreign a call s).1) where
    -- Calls of the bridge itself write votes, but not those of a proposal that is decided.
    pub other_calls-Holds :
        (depth a call : ℕ) (s : S h)
        → Holds src nonce prop v s
        → Holds src nonce prop v (other_calls h account decode own foreign depth a call s).1
    unfolding other_calls
    other_calls-Holds zero a call s e = elim (Option-cases (own call)) [
      | inl x ↦ rw x (foreign_holds a call s e)
      | inr (r, x) ↦ rw x e
    ]
    other_calls-Holds (suc depth) a call s e =
        let c = runtime_bridge h account decode own foreign depth in
        elim (Option-cases (own call)) [
          | inl x ↦ rw x (foreign_holds a call s e)
          | inr (r, x) ↦
              rw x
                (dispatch-IsFrozen c src nonce prop v done
                  (keeps (other_calls h account decode own foreign depth) src nonce prop v
                    (other_calls-Holds depth))
                  (signed a) r s (record { stays = e })).stays
        ]

module _ (h : Handler.Config) (account : ℕ) (decode : ℕ → Option Transfer)
    (rest : ℕ → ℕ → Call (S h) (Unit {0})) where
  abbrev c : Bridge.Config (Handler.Storage h.tokens.World)
  c = bridge_config h account decode rest

  refused :
      (o : Origin) (nonce src call : ℕ) (r_id : List ℕ) (t : S h)
      → ((who : ℕ) → vote_for c who nonce src call t ≡ (err (bridge proposal_already_complete), t))
      → (e : DispatchError) × (dispatch c o (acknowledge_proposals nonce src r_id call) t
          ≡ (err e, t))
  unfolding dispatch acknowledge_proposal
  refused root nonce src call r_id t blocked = (bad_origin, ground arith)
  refused unsigned nonce src call r_id t blocked = (bad_origin, ground arith)
  refused (signed who) nonce src call r_id t blocked = elim (Bool-cases (t.relayers who)) [
    | inr x ↦ (bridge must_be_relayer, ground arith)
    | inl x ↦ elim (Bool-cases (is_some (t.chain_nonces src))) [
      | inr y ↦ (bridge chain_not_whitelisted, ground arith)
      | inl y ↦ (bridge proposal_already_complete, ground (arith, blocked who))
    ]
  ]

-- The bridge in the runtime, whose approved proposals may be transfers in, calls of the bridge itself, up
-- to any depth of proposals inside one another, or calls of other pallets. If those of other pallets leave
-- the votes of a proposal that is approved or rejected as they are, and the token pallets obey their laws:
-- when a signed acknowledgement of a proposal that is a transfer in has succeeded and its verdict is
-- approval, exactly the amount has come into being for its receiver, and after any calls of the bridge,
-- any blocks and anything else that leaves its votes alone, every further acknowledgement of that
-- proposal, by whatever origin, fails and changes nothing.
pub minted_once :
    (h : Handler.Config) (account : ℕ) (decode : ℕ → Option Transfer) (own : ℕ → Option Request)
    (foreign : ℕ → ℕ → Call (S h) (Unit {0})) (depth : ℕ)
    → ((src nonce prop : ℕ) (v : ProposalVotes)
        → v.status ≢ initiated
        → (a call : ℕ) (s : S h) → Holds src nonce prop v s
        → Holds src nonce prop v (foreign a call s).1)
    → (laws : TokenLaws h.tokens) (src nonce call : ℕ) (t : Transfer) → decode call ≡ some t
    → (who : ℕ) (r_id : List ℕ) (s s' : S h)
    → dispatch
        (runtime_bridge h account decode own foreign depth)
        (signed who)
        (acknowledge_proposals nonce src r_id call)
        s
      ≡ (ok tt, s')
    → (try_to_complete
        (push_vote
          (current (runtime_bridge h account decode own foreign depth) s src nonce call)
          who
          true)
        s.relayer_threshold
        s.relayer_count).1
      ≡ approved
    → (u : S h) (o : Origin) (other_r_id : List ℕ)
    → Reaches (runtime_bridge h account decode own foreign depth) s' u
    → Mints h t s s'
      × ((e : DispatchError) × (dispatch
              (runtime_bridge h account decode own foreign depth)
              o
              (acknowledge_proposals nonce src other_r_id call)
              u
            ≡ (err e, u)))
minted_once h account decode own foreign depth foreign_holds laws src nonce call t is who r_id s s'
      e verdict u o other path =
    let rest = other_calls h account decode own foreign depth in
    let c = runtime_bridge h account decode own foreign depth in
    let w = push_vote (current c s src nonce call) who true in
    let (_, _, a) =
      acknowledged_transfer h account decode rest laws src nonce call t is who r_id s s' e in
    let v = (try_to_complete w s.relayer_threshold s.relayer_count).0 in
    let done = complete_status w s.relayer_threshold s.relayer_count verdict in
    let calls =
      other_calls-Holds h account decode own foreign src nonce call v done
        (foreign_holds src nonce call v done) depth in
    (
      rw verdict at a.follows,
      refused h account decode rest o nonce src call other u (λ (x : ℕ).
          (decided_forever c src nonce call v done
            (keeps h account decode rest src nonce call v calls) x s' u a.stored path).1),
    )
