-- ===== src/Runtime/Crossing/Mints.antt =====
-- What an acknowledged proposal to bring tokens in does, from the relayer's vote to the minted tokens.
use can_bus.Base.{
  ℕ, ◌+◌, ◌≡◌, ◌≢◌, ◌∙◌, ap, sym, Option, some, List, ◌∷◌, true, false, Bool-cases, inl, inr,
  is_some, arith,
}
use can_bus.Frame.Call.{Call, signed, ok, >>=-eq-ok}
use can_bus.Frame.Tokens.{TokenLaws}
use can_bus.Bridge.Votes.{
  ProposalStatus, initiated, approved, rejected, try_to_complete, is_complete, is_expired,
  has_voted,
}
use can_bus.Bridge.State as Bridge
use can_bus.Bridge.State.{deposit_event, proposal_approved, proposal_succeeded}
use can_bus.Bridge.Proposals.{push_vote, vote_for, conclude}
use can_bus.Bridge.Proposals.Voting.{current, vote_for_refused, vote_for_accepted}
use can_bus.Bridge.Calls.{acknowledge_proposal, acknowledge_proposals, dispatch}
use can_bus.Handler.State as Handler
use can_bus.Handler.State.{AssetInfo}
use can_bus.Transfer.Calls.{S, transfer}
use can_bus.Transfer.Conserves.{transfer_mints}
use can_bus.Runtime.Crossing.{Transfer, pallet_bridge_config, dispatch_decoded, bridge_config}

module _ (h : Handler.Config) where
  open h use {tokens}

  -- Exactly the amount comes into being, for the receiver, in the asset that the resource names.
  pub record Mints (t : Transfer) (s s' : S h) : Type 0 where
    pub info : AssetInfo
    pub known : s.world.resource_to_asset_info t.rid ≡ some info
    pub received :
        tokens.balance info.asset t.to s'.world.world
        ≡ tokens.balance info.asset t.to s.world.world + t.amount
    pub others :
        (a : ℕ)
        → a ≢ t.to
        → tokens.balance info.asset a s'.world.world ≡ tokens.balance info.asset a s.world.world
    pub issuance :
        tokens.issuance info.asset s'.world.world
        ≡ tokens.issuance info.asset s.world.world + t.amount

  -- A verdict, with what it means for the tokens.
  abbrev pub Follows : ProposalStatus → Transfer → S h → S h → Type 0
  Follows approved t s s' = Mints t s s'
  Follows rejected t s s' = s'.world ≡ s.world
  Follows initiated t s s' = s'.world ≡ s.world

module _ (h : Handler.Config) (account : ℕ) (decode : ℕ → Option Transfer)
    (rest : ℕ → ℕ → Call (S h) (Unit {0})) where
  abbrev c : Bridge.Config (Handler.Storage h.tokens.World)
  c = bridge_config h account decode rest

  module _ (laws : TokenLaws h.tokens) (src nonce call : ℕ) (t : Transfer)
      (is : decode call ≡ some t) where
    dispatched :
        (s s' : S h)
        → c.dispatch_call account call s ≡ (ok tt, s')
        → Mints h t s s' × (s' ≡ record s { world = s'.world })
    dispatched s s' e =
        let ran : transfer h (pallet_bridge_config h account decode rest) (signed account) t.to
              t.amount t.rid s
            ≡ (ok tt, s') =
          ap (λ o. dispatch_decoded h account decode rest o account call s) (sym is) ∙ e in
        let (info, _, known, received, others, issuance, only) =
          transfer_mints h laws (pallet_bridge_config h account decode rest) (signed account) t.to
            t.amount t.rid s s' ran in
        (
          record {
            info = info;
            known = known;
            received = received;
            others = others;
            issuance = issuance;
          },
          only,
        )

    concludes :
        (status : ProposalStatus) (s s' : S h)
        → conclude c status nonce src call s ≡ (ok tt, s')
        → Follows h status t s s' × (s'.votes ≡ s.votes)
    unfolding conclude
    concludes initiated s s' e = (ground arith, ground arith)
    concludes rejected s s' e = (ground arith, ground arith)
    concludes approved s s' e =
        let noted = record s { events = proposal_approved src nonce ∷ s.events } in
        let (_, u, ran, last) =
          >>=-eq-ok (c.dispatch_call account call)
            (λ _. deposit_event (proposal_succeeded src nonce)) noted e in
        let (m, only) = dispatched noted u ran in
        let same : s' ≡ record u { events = proposal_succeeded src nonce ∷ u.events } =
          ground arith in
        (
          rw same (record {
            info = m.info;
            known = m.known;
            received = m.received;
            others = m.others;
            issuance = m.issuance;
          }),
          rw same (ap (λ (x : S h). x.votes) only),
        )

    -- What a vote in favour that succeeded has found and done.
    pub record Acknowledges (who : ℕ) (s s' : S h) : Type 0 where
      pub running : is_complete (current c s src nonce call) ≡ false
      pub alive : is_expired (current c s src nonce call) s.block_number ≡ false
      pub new : has_voted (current c s src nonce call) who ≡ false
      pub stored :
          s'.votes src nonce call
          ≡ some
              (try_to_complete
                (push_vote (current c s src nonce call) who true)
                s.relayer_threshold
                s.relayer_count).0
      pub follows :
          Follows h
            (try_to_complete
              (push_vote (current c s src nonce call) who true)
              s.relayer_threshold
              s.relayer_count).1
            t
            s
            s'

    Follows-world :
        (status : ProposalStatus) (s u s' : S h)
        → u.world ≡ s.world
        → Follows h status t u s'
        → Follows h status t s s'
    Follows-world approved s u s' e m = record {
      info = m.info;
      known = rw e at m.known;
      received = rw e at m.received;
      others = λ a ne. rw e at (m.others a ne);
      issuance = rw e at m.issuance;
    }
    Follows-world rejected s u s' e m = m ∙ e
    Follows-world initiated s u s' e m = m ∙ e

    vote_for-Acknowledges :
        (who : ℕ) (s s' : S h)
        → vote_for c who nonce src call s ≡ (ok tt, s')
        → Acknowledges who s s'
    vote_for-Acknowledges who s s' e =
        let v = current c s src nonce call in
        let (complete, expired, again) = vote_for_refused c who nonce src call s in
        elim (Bool-cases (is_complete v)) [
          | inl x ↦ let k = complete x in absurd (ground arith)
          | inr x ↦ elim (Bool-cases (is_expired v s.block_number)) [
            | inl y ↦ let k = expired x y in absurd (ground arith)
            | inr y ↦ elim (Bool-cases (has_voted v who)) [
              | inl z ↦ let k = again x y z in absurd (ground arith)
              | inr z ↦
                  let (u, d, _, is_conclude) = vote_for_accepted c who nonce src call s x y z in
                  let r =
                    try_to_complete (push_vote v who true) s.relayer_threshold s.relayer_count in
                  let (follows, kept) = concludes r.1 u s' (sym is_conclude ∙ e) in
                  record {
                    running = x;
                    alive = y;
                    new = z;
                    stored = ap (λ m. m src nonce call) kept ∙ d.here;
                    follows = Follows-world r.1 s u s' d.world follows;
                  }
            ]
          ]
        ]

    acknowledge_by :
        (who : ℕ) (r_id : List ℕ) (s s' : S h)
        → dispatch c (signed who) (acknowledge_proposals nonce src r_id call) s ≡ (ok tt, s')
        → (s.relayers who ≡ true)
          × (is_some (s.chain_nonces src) ≡ true)
          × (vote_for c who nonce src call s ≡ (ok tt, s'))
    unfolding dispatch acknowledge_proposal
    acknowledge_by who r_id s s' e = (ground arith, ground arith, ground arith)

    -- Where the token pallets obey their laws: a signed acknowledgement of a proposal that is a transfer in, where it succeeds, comes from a relayer and
    -- names a listed chain; the proposal was neither complete nor expired, and the relayer had not voted on it;
    -- its votes are stored with the relayer's vote and the verdict that it brings about; if that verdict is
    -- approval, exactly the amount of the transfer has come into being for its receiver, and else
    -- the storage of the other pallets is as it was.
    pub acknowledged_transfer :
        (who : ℕ) (r_id : List ℕ) (s s' : S h)
        → dispatch c (signed who) (acknowledge_proposals nonce src r_id call) s ≡ (ok tt, s')
        → (s.relayers who ≡ true) × (is_some (s.chain_nonces src) ≡ true) × Acknowledges who s s'
    acknowledged_transfer who r_id s s' e =
        let (known, listed, votes) = acknowledge_by who r_id s s' e in
        (known, listed, vote_for-Acknowledges who s s' votes)
