-- ===== src/Bridge/Votes.antt =====
-- `ProposalVotes` of pallets/bridge/src/lib.rs, with its methods.
pub mod Tally
use can_bus.Base.{
  ℕ, ◌+◌, ◌%◌, ◌^◌, Bool, true, false, ◌&&◌, ◌||◌, List, [], leb, ltb, if◌then◌else◌, length,
  contains,
}

pub data ProposalStatus : Type 0 where
  initiated approved rejected : ProposalStatus

pub record ProposalVotes : Type 0 where
  pub votes_for : List ℕ
  pub votes_against : List ℕ
  pub status : ProposalStatus
  pub expiry : ℕ

-- `ProposalVotes { expiry, ..Default::default() }`
abbrev pub new_votes : ℕ → ProposalVotes
new_votes expiry = record {
  votes_for = [];
  votes_against = [];
  status = initiated;
  expiry = expiry;
}

-- The number of votes against is cast to u32, and the sum wraps.
abbrev pub is_lost : ℕ → ℕ → ℕ → Bool
is_lost against threshold total =
    leb threshold total && ltb total ((against % 2 ^ 32 + threshold) % 2 ^ 32)

-- `try_to_complete`: the votes with their new status, and the status that it returns.
unfoldable pub try_to_complete : ProposalVotes → ℕ → ℕ → ProposalVotes × ProposalStatus
try_to_complete self threshold total =
    if leb threshold (length self.votes_for)
    then (record self { status = approved }, approved)
    else if is_lost (length self.votes_against) threshold total
    then (record self { status = rejected }, rejected)
    else (self, initiated)

abbrev pub is_complete_status : ProposalStatus → Bool
is_complete_status initiated = false
is_complete_status approved = true
is_complete_status rejected = true

abbrev pub is_complete : ProposalVotes → Bool
is_complete self = is_complete_status self.status

abbrev pub has_voted : ProposalVotes → ℕ → Bool
has_voted self who = contains who self.votes_for || contains who self.votes_against

abbrev pub is_expired : ProposalVotes → ℕ → Bool
is_expired self now = leb self.expiry now
