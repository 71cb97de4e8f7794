-- ===== src/Bridge/Proposals/Frozen.antt =====
-- A complete proposal stays as it is.
use can_bus.Base.{
  ℕ, Bool-cases, inl, inr, ◌≡◌, ◌≢◌, ◌⊎◌, ◌∙◌, ap, Bool, true, false, Option, none, some, ◌∷◌, ◌==◌,
  arith,
}
use can_bus.Frame.Call.{>>=-keeps}
use can_bus.Frame.Storage.{StorageMap, StorageDoubleMap, insert, insert₂}
use can_bus.Bridge.Votes.{
  ProposalVotes, ProposalStatus, is_complete, is_expired, try_to_complete, approved, rejected,
  initiated,
}
use can_bus.Bridge.State.{Storage, Config, deposit_event, proposal_approved, proposal_succeeded}
use can_bus.Bridge.Proposals.{
  put_votes, commit_vote, conclude, resolve_with, try_resolve_proposal, vote_for, vote_against,
}
use can_bus.Bridge.Proposals.Voting.{complete_is_final}
use can_bus.Bridge.Proposals.Honest.{commit_vote_cases}

-- An insertion under the keys `a`, `b` and `d` leaves what stands under `i`, `j` and `k`.
abbrev pub Elsewhere : ℕ → ℕ → ℕ → ℕ → ℕ → ℕ → Type 0
Elsewhere i j k a b d =
    (w : Option ProposalVotes) (m : StorageMap (StorageDoubleMap (Option ProposalVotes)))
    → insert a (insert₂ b d w (m a)) m i j k ≡ m i j k

insertion_cases : (i j k a b d : ℕ) → ((i ≡ a) × (j ≡ b) × (k ≡ d)) ⊎ Elsewhere i j k a b d
insertion_cases i j k a b d = elim (Bool-cases (i == a)) [
  | inr e ↦ inr (λ w m. ground arith)
  | inl e ↦ elim (Bool-cases (j == b)) [
    | inr f ↦ inr (λ w m. ground arith)
    | inl f ↦ elim (Bool-cases (k == d)) [
      | inr g ↦ inr (λ w m. ground arith)
      | inl g ↦ inl (ground arith, ground arith, ground arith)
    ]
  ]
]

module _ {W : Type 0} (c : Config W) (i j k : ℕ) (v : ProposalVotes) where
  -- The votes on one proposal are `v`.
  pub record IsFrozen (s : Storage W) : Type 0 where
    pub stays : s.votes i j k ≡ some v

  pub votes-IsFrozen : (s t : Storage W) → t.votes ≡ s.votes → IsFrozen s → IsFrozen t
  votes-IsFrozen s t e h = record { stays = rw e h.stays }

  commit_vote-IsFrozen :
      (who nonce src_id prop : ℕ) (in_favour : Bool) (s : Storage W)
      → Elsewhere i j k src_id nonce prop
      → IsFrozen s
      → IsFrozen (commit_vote c who nonce src_id prop in_favour s).1
  commit_vote-IsFrozen who nonce src_id prop in_favour s away h =
      elim (commit_vote_cases c who nonce src_id prop in_favour s) [
        | inr e ↦ votes-IsFrozen s (commit_vote c who nonce src_id prop in_favour s).1 e h
        | inl (new, e) ↦ record { stays = rw e (away _ s.votes ∙ h.stays) }
      ]

  module _ (done : v.status ≢ initiated)
      (keeps : (a call : ℕ) (s : Storage W)
        → IsFrozen s
        → IsFrozen (c.dispatch_call a call s).1) where
    conclude-IsFrozen :
        (status : ProposalStatus) (nonce src_id prop : ℕ) (s : Storage W)
        → IsFrozen s
        → IsFrozen (conclude c status nonce src_id prop s).1
    unfolding conclude
    conclude-IsFrozen initiated nonce src_id prop s h = h
    conclude-IsFrozen rejected nonce src_id prop s h = record { stays = h.stays }
    conclude-IsFrozen approved nonce src_id prop s h =
        let noted = record s { events = proposal_approved src_id nonce ∷ s.events } in
        >>=-keeps IsFrozen (c.dispatch_call c.account_id prop)
          (λ _. deposit_event (proposal_succeeded src_id nonce)) noted
          (keeps c.account_id prop noted (record { stays = h.stays }))
          (λ _ t f. record { stays = f.stays })

    resolve_with-IsFrozen :
        (stored : Option ProposalVotes) (nonce src_id prop : ℕ) (s : Storage W)
        → Elsewhere i j k src_id nonce prop
        → IsFrozen s
        → IsFrozen (resolve_with c stored nonce src_id prop s).1
    unfolding resolve_with
    resolve_with-IsFrozen none nonce src_id prop s away h = h
    resolve_with-IsFrozen (some u) nonce src_id prop s away h =
        let r = try_to_complete u s.relayer_threshold s.relayer_count in
        elim (Bool-cases (is_complete u)) [
          | inl e ↦ rw e h
          | inr e ↦ rw e (elim (Bool-cases (is_expired u s.block_number)) [
            | inl f ↦ rw f h
            | inr f ↦ rw f (
                conclude-IsFrozen r.1 nonce src_id prop (put_votes c src_id nonce prop r.0 s).1
                  (record { stays = away (some r.0) s.votes ∙ h.stays }))
          ])
        ]

    pub try_resolve_proposal-IsFrozen :
        (nonce src_id prop : ℕ) (s : Storage W)
        → IsFrozen s
        → IsFrozen (try_resolve_proposal c nonce src_id prop s).1
    unfolding try_resolve_proposal
    try_resolve_proposal-IsFrozen nonce src_id prop s h =
        elim (insertion_cases i j k src_id nonce prop) [
          | inr away ↦ resolve_with-IsFrozen (s.votes src_id nonce prop) nonce src_id prop s away h
          | inl (a, b, d) ↦
              let at : s.votes src_id nonce prop ≡ some v = rw (a, b, d) at h.stays in
              let refused = (complete_is_final c 0 nonce src_id prop s v at done).2 in
              votes-IsFrozen s (try_resolve_proposal c nonce src_id prop s).1
                (ap (λ (x : _). x.1.votes) refused) h
        ]

    pub vote_for-IsFrozen :
        (who nonce src_id prop : ℕ) (s : Storage W)
        → IsFrozen s
        → IsFrozen (vote_for c who nonce src_id prop s).1
    unfolding vote_for
    vote_for-IsFrozen who nonce src_id prop s h = elim (insertion_cases i j k src_id nonce prop) [
      | inr away ↦
          >>=-keeps IsFrozen (commit_vote c who nonce src_id prop true)
            (λ _. try_resolve_proposal c nonce src_id prop) s
            (commit_vote-IsFrozen who nonce src_id prop true s away h)
            (λ _ t. try_resolve_proposal-IsFrozen nonce src_id prop t)
      | inl (a, b, d) ↦
          let at : s.votes src_id nonce prop ≡ some v = rw (a, b, d) at h.stays in
          let refused = (complete_is_final c who nonce src_id prop s v at done).0 in
          votes-IsFrozen s (vote_for c who nonce src_id prop s).1
            (ap (λ (x : _). x.1.votes) refused) h
    ]

    pub vote_against-IsFrozen :
        (who nonce src_id prop : ℕ) (s : Storage W)
        → IsFrozen s
        → IsFrozen (vote_against c who nonce src_id prop s).1
    unfolding vote_against
    vote_against-IsFrozen who nonce src_id prop s h =
        elim (insertion_cases i j k src_id nonce prop) [
          | inr away ↦
              >>=-keeps IsFrozen (commit_vote c who nonce src_id prop false)
                (λ _. try_resolve_proposal c nonce src_id prop) s
                (commit_vote-IsFrozen who nonce src_id prop false s away h)
                (λ _ t. try_resolve_proposal-IsFrozen nonce src_id prop t)
          | inl (a, b, d) ↦
              let at : s.votes src_id nonce prop ≡ some v = rw (a, b, d) at h.stays in
              let refused = (complete_is_final c who nonce src_id prop s v at done).1 in
              votes-IsFrozen s (vote_against c who nonce src_id prop s).1
                (ap (λ (x : _). x.1.votes) refused) h
        ]
