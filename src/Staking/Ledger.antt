-- ===== src/Staking/Ledger.antt =====
-- The staking pallet from outside: what each account has at stake in each pool, and what of it waits.
pub mod Moves
pub mod Refines
use can_bus.Base.{ℕ, ◌+◌, ◌≤◌, ◌≡◌, ◌≢◌, ◌⊎◌, Option, none}
use can_bus.Frame.Call.{Origin, signed}
use can_bus.Staking.Info.{StakingInfo}
use can_bus.Staking.State.{Storage}
use can_bus.Staking.Pending.Queue.{user_queued}
use can_bus.Staking.Pending.Solve.{user_staked}
use can_bus.Staking.Calls.{
  Request, create_staking_pools, update_metadatas, update_rewards, stakes, solve_pending_stakes,
  claim_natives, claim_stables, withdraws, regist_aiusds,
}

pub record Ledger : Type 0 where
  pub active : ℕ → ℕ → ℕ
  pub waiting : ℕ → ℕ → ℕ

abbrev pub ledger_of : {W : Type 0} → Storage W → Ledger
ledger_of s = record {
  active = λ a p. user_staked a p s;
  waiting = λ a p. user_queued a p s.pending_setup;
}

-- A user stakes only in a pool that has a checkpoint.
abbrev pub IsCovered : {W : Type 0} → Storage W → Type 0
IsCovered s = (a p : ℕ) → s.pool_checkpoint p ≡ none → s.user_pool_checkpoint a p ≡ none

-- Nothing moves.
pub record Stays (l l' : Ledger) : Type 0 where
  pub active : (a p : ℕ) → l'.active a p ≡ l.active a p
  pub waiting : (a p : ℕ) → l'.waiting a p ≡ l.waiting a p

-- Account `who` lets `amount` wait for pool `p`.
pub record Joins (who p amount : ℕ) (l l' : Ledger) : Type 0 where
  pub active : (a q : ℕ) → l'.active a q ≡ l.active a q
  pub waiting : l'.waiting who p ≡ l.waiting who p + amount
  pub others : (a q : ℕ) → (a ≢ who) ⊎ (q ≢ p) → l'.waiting a q ≡ l.waiting a q

-- What waits may become active.
pub record Matures (l l' : Ledger) : Type 0 where
  pub sum : (a p : ℕ) → l'.active a p + l'.waiting a p ≡ l.active a p + l.waiting a p
  pub grows : (a p : ℕ) → l.active a p ≤ l'.active a p

-- Account `who` takes out all that is active in pool `p`.
pub record Leaves (who p : ℕ) (l l' : Ledger) : Type 0 where
  pub gone : l'.active who p ≡ 0
  pub others : (a q : ℕ) → (a ≢ who) ⊎ (q ≢ p) → l'.active a q ≡ l.active a q
  pub waiting : (a q : ℕ) → l'.waiting a q ≡ l.waiting a q

-- What a call that succeeds may do.
abbrev pub Allows : Origin → Request → Ledger → Ledger → Type 0
Allows o (stakes p amount) l l' = (who : ℕ) × (o ≡ signed who) × Joins who p amount l l'
Allows o solve_pending_stakes l l' = Matures l l'
Allows o (withdraws p) l l' = (who : ℕ) × (o ≡ signed who) × Leaves who p l l'
Allows o (create_staking_pools p setting) l l' = Stays l l'
Allows o (update_metadatas p name description) l l' = Stays l l'
Allows o (update_rewards p epoch reward) l l' = Stays l l'
Allows o (claim_natives until_time) l l' = Stays l l'
Allows o (claim_stables p until_time) l l' = Stays l l'
Allows o (regist_aiusds asset_id) l l' = Stays l l'
