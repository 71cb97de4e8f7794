-- ===== src/Bridge/Votes/Tally.antt =====
-- When a tally is decided.
use can_bus.Base.{ℕ, ◌+◌, ◌≤◌, ◌<◌, ◌^◌, ◌≡◌, ◌↔◌, ◌≢◌, length, arith}
use can_bus.Bridge.Votes.{ProposalVotes, initiated, approved, rejected, try_to_complete}

-- `try_to_complete` where the votes against and the threshold add up to less than 2^32: the verdict is approval
-- exactly when the votes in favour reach the threshold; it is rejection exactly when they do not, there are
-- at least as many relayers as the threshold, and those who have not voted against are fewer than it;
-- the lists of votes and the expiry stay as they were, an approval or a rejection is stored as the status,
-- and with neither the votes are unchanged.
pub try_to_complete_verdict :
    (v : ProposalVotes) (threshold total : ℕ)
    → length v.votes_against + threshold < 2 ^ 32
    → let r = try_to_complete v threshold total in
      ((r.1 ≡ approved) ↔ (threshold ≤ length v.votes_for))
      × ((r.1 ≡ rejected) ↔ (
          (length v.votes_for < threshold)
          × (threshold ≤ total)
          × (total < length v.votes_against + threshold)))
      × (r.0.votes_for ≡ v.votes_for)
      × (r.0.votes_against ≡ v.votes_against)
      × (r.0.expiry ≡ v.expiry)
      × (r.1 ≢ initiated → r.0.status ≡ r.1)
      × (r.1 ≡ initiated → r.0 ≡ v)
unfolding try_to_complete
try_to_complete_verdict v threshold total small = (
  ((λ h. ground arith), (λ h. ground arith)),
  ((λ h. (ground arith, ground arith, ground arith)), (λ h. ground arith)),
  ground arith,
  ground arith,
  ground arith,
  (λ h. ground arith),
  (λ h. ground arith),
)

-- Where the votes against and the threshold add up to less than 2^32, and the votes of both kinds with
-- those still to come are at most as many as the relayers, a rejected proposal could not have been
-- approved by any votes still to come.
pub rejected_is_final :
    (v : ProposalVotes) (threshold total later : ℕ)
    → length v.votes_against + threshold < 2 ^ 32
    → (try_to_complete v threshold total).1 ≡ rejected
    → length v.votes_for + later + length v.votes_against ≤ total
    → length v.votes_for + later < threshold
rejected_is_final v threshold total later small h voters =
    let short = (try_to_complete_verdict v threshold total small).1.0 h in omega (arith, short.2)
