-- ===== src/Staking/Ledger/Moves.antt =====
-- What the parts of the staking calls do to the ledger.
use can_bus.Base.{ℕ, ◌+◌, ◌≡◌, ◌≢◌, ◌⊎◌, Option, List, arith}
use can_bus.Frame.Call.{Origin, root, signed, unsigned, ok}
use can_bus.Staking.Info.{withdraw, PoolSetting, claim, weight, weight_force, claim_based_on_weight}
use can_bus.Staking.State.{Config}
use can_bus.Staking.Epoch.{get_epoch_index}
use can_bus.Staking.Pending.Solve.{amount_of, staked, user_staked}
use can_bus.Staking.Claim.{
  native_claim_with, do_native_claim, stable_claim_with, do_stable_claim, withdraw_with,
  do_withdraw, withdraw_native, withdraw_user_native,
}
use can_bus.Staking.Calls.{
  S, create_staking_pool, update_metadata, update_reward, claim_native, claim_stable, regist_aiusd,
}
use can_bus.Staking.Ledger.{ledger_of, IsCovered, Stays}

module _ (c : Config) where
  open c use {tokens}

  -- No stake moves, and the queue and the covering of the stakes stay.
  pub record Rests (s s' : S c) : Type 0 where
    pub user : (a p : ℕ) → user_staked a p s' ≡ user_staked a p s
    pub pool : (p : ℕ) → staked p s' ≡ staked p s
    pub native : amount_of s'.native_checkpoint ≡ amount_of s.native_checkpoint
    pub user_native :
        (a : ℕ) → amount_of (s'.user_native_checkpoint a) ≡ amount_of (s.user_native_checkpoint a)
    pub queue : s'.pending_setup ≡ s.pending_setup
    pub covered : IsCovered s → IsCovered s'

  pub do_native_claim-Rests :
      (who until_time : ℕ) (s s' : S c)
      → do_native_claim c who until_time s ≡ (ok tt, s')
      → Rests s s'
  unfolding do_native_claim native_claim_with claim weight weight_force claim_based_on_weight
  do_native_claim-Rests who until_time s s' h = record {
    user = λ a p. ground arith;
    pool = λ p. ground arith;
    native = ground arith;
    user_native = λ a. ground arith;
    queue = ground arith;
    covered = λ v a p e. ground (arith, v a p);
  }

  pub do_stable_claim-Rests :
      (who p until_time : ℕ) (s s' : S c)
      → do_stable_claim c who p until_time s ≡ (ok tt, s')
      → Rests s s'
  unfolding do_stable_claim stable_claim_with claim weight weight_force claim_based_on_weight
  do_stable_claim-Rests who p until_time s s' h = record {
    user = λ a q. ground arith;
    pool = λ p. ground arith;
    native = ground arith;
    user_native = λ a. ground arith;
    queue = ground arith;
    covered = λ v a q e. ground (arith, v a q);
  }

  pub create_staking_pool-Rests :
      (o : Origin) (p : ℕ) (setting : PoolSetting) (s s' : S c)
      → create_staking_pool c o p setting s ≡ (ok tt, s')
      → Rests s s'
  unfolding create_staking_pool
  create_staking_pool-Rests o p setting s s' h = record {
    user = λ a q. ground arith;
    pool = λ p. ground arith;
    native = ground arith;
    user_native = λ a. ground arith;
    queue = ground arith;
    covered = λ v a q e. ground (arith, v a q);
  }

  pub update_metadata-Rests :
      (o : Origin) (p : ℕ) (name : Option (List ℕ)) (description : List ℕ) (s s' : S c)
      → update_metadata c o p name description s ≡ (ok tt, s')
      → Rests s s'
  unfolding update_metadata
  update_metadata-Rests o p name description s s' h = record {
    user = λ a q. ground arith;
    pool = λ p. ground arith;
    native = ground arith;
    user_native = λ a. ground arith;
    queue = ground arith;
    covered = λ v a q e. ground (arith, v a q);
  }

  pub update_reward-Rests :
      (o : Origin) (p epoch reward : ℕ) (s s' : S c)
      → update_reward c o p epoch reward s ≡ (ok tt, s')
      → Rests s s'
  unfolding update_reward get_epoch_index
  update_reward-Rests o p epoch reward s s' h = record {
    user = λ a q. ground arith;
    pool = λ p. ground arith;
    native = ground arith;
    user_native = λ a. ground arith;
    queue = ground arith;
    covered = λ v a q e. ground (arith, v a q);
  }

  pub regist_aiusd-Rests :
      (o : Origin) (asset : ℕ) (s s' : S c) → regist_aiusd c o asset s ≡ (ok tt, s') → Rests s s'
  unfolding regist_aiusd
  regist_aiusd-Rests o asset s s' h = record {
    user = λ a q. ground arith;
    pool = λ p. ground arith;
    native = ground arith;
    user_native = λ a. ground arith;
    queue = ground arith;
    covered = λ v a q e. ground (arith, v a q);
  }

  pub claim_native-Rests :
      (o : Origin) (until_time : ℕ) (s s' : S c)
      → claim_native c o until_time s ≡ (ok tt, s')
      → Rests s s'
  unfolding claim_native
  claim_native-Rests (signed who) until_time s s' h = do_native_claim-Rests who until_time s s' h
  claim_native-Rests root until_time s s' h = absurd (ground arith)
  claim_native-Rests unsigned until_time s s' h = absurd (ground arith)

  pub claim_stable-Rests :
      (o : Origin) (p until_time : ℕ) (s s' : S c)
      → claim_stable c o p until_time s ≡ (ok tt, s')
      → Rests s s'
  unfolding claim_stable
  claim_stable-Rests (signed who) p until_time s s' h =
      do_stable_claim-Rests who p until_time s s' h
  claim_stable-Rests root p until_time s s' h = absurd (ground arith)
  claim_stable-Rests unsigned p until_time s s' h = absurd (ground arith)

  pub Rests-Stays : {s s' : S c} → Rests s s' → Stays (ledger_of s) (ledger_of s')
  Rests-Stays r = record { active = r.user; waiting = λ a p. ground (arith, r.queue) }

  -- The stake of one user in one pool goes, out of the pool's.
  pub record Withdraws (who p : ℕ) (s s' : S c) : Type 0 where
    pub gone : user_staked who p s' ≡ 0
    pub others : (a q : ℕ) → (a ≢ who) ⊎ (q ≢ p) → user_staked a q s' ≡ user_staked a q s
    pub pool : staked p s' + user_staked who p s ≡ staked p s
    pub other_pools : (q : ℕ) → q ≢ p → staked q s' ≡ staked q s
    pub queue : s'.pending_setup ≡ s.pending_setup
    pub covered : IsCovered s'

  pub do_withdraw-Withdraws :
      (who p : ℕ) (s s' : S c)
      → do_withdraw c who p s ≡ (ok tt, s')
      → IsCovered s
      → Withdraws who p s s'
  unfolding do_withdraw withdraw_with withdraw_native withdraw_user_native withdraw
  do_withdraw-Withdraws who p s s' h v = record {
    gone = ground (arith, v who p);
    others = λ a q ne. ground arith;
    pool = ground (arith, v who p);
    other_pools = λ q ne. ground arith;
    queue = ground arith;
    covered = λ a q e. ground (arith, v a q);
  }
