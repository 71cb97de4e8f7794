-- ===== src/Staking/Claim/Native.antt =====
-- What a native claim pays.
use can_bus.Base.{ℕ, ◌≤◌, ◌≡◌, ◌∷◌, none, some, arith}
use can_bus.Frame.Call.{ok, >>=-eq-ok}
use can_bus.Frame.Perquintill.{PerquintillLaws}
use can_bus.Staking.Info.{StakingInfo}
use can_bus.Staking.State.{Config, native_reward_claimed}
use can_bus.Staking.Claim.{Claimed, S, claim_share, pay_native, native_claim_with, do_native_claim}
use can_bus.Staking.Claim.Rewards.{Shares, claim_share-Shares}

module _ (c : Config) (laws : PerquintillLaws c.perquintill) where
  open c use {tokens, native_token_beneficiary}

  -- The native rewards that are there to be paid.
  abbrev pub reward_pool : S c → ℕ
  reward_pool s = tokens.balance none native_token_beneficiary s.world

  do_native_claim_step :
      (who until_time : ℕ) (pool user : StakingInfo) (s s' : S c)
      → s.native_checkpoint ≡ some pool
      → s.user_native_checkpoint who ≡ some user
      → do_native_claim c who until_time s ≡ (ok tt, s')
      → (r : Claimed) × (until_time ≤ s.block_number)
        × Shares c laws pool user until_time (reward_pool s) r
        × (pay_native c who until_time r s ≡ (ok tt, s'))
  unfolding do_native_claim native_claim_with
  do_native_claim_step who until_time pool user s s' e e' h =
      let (r, t, first, rest) =
        >>=-eq-ok (claim_share c pool user until_time (reward_pool s)) (pay_native c who until_time)
          s {s' = s'} (ground arith) in
      let (same, shares) =
        claim_share-Shares c laws pool user until_time (reward_pool s) s t r first in
      (r, ground arith, shares, rw same at rest)

  -- A native claim that succeeds for a user with a checkpoint, where the fraction obeys its laws, is
  -- for a time that has come. The one transfer it makes is of the share of the beneficiary's native
  -- balance, at most the whole of it, that is the fraction of all that the user's position weighs at that
  -- time in the weight of all. The user's position stands at that time, and the global one at the
  -- effective time that the claimed weight moves it on to; the event names the amount.
  pub do_native_claim_pays :
      (who until_time : ℕ) (pool user : StakingInfo) (s s' : S c)
      → s.native_checkpoint ≡ some pool
      → s.user_native_checkpoint who ≡ some user
      → do_native_claim c who until_time s ≡ (ok tt, s')
      → (r : Claimed) × Shares c laws pool user until_time (reward_pool s) r
        × (until_time ≤ s.block_number)
        × (tokens.transfer none native_token_beneficiary who r.reward s.world ≡ (ok tt, s'.world))
        × (s'.native_checkpoint ≡ some r.pool)
        × (s'.user_native_checkpoint who ≡ some r.user)
        × (s'.events ≡ native_reward_claimed who until_time r.reward ∷ s.events)
  unfolding pay_native
  do_native_claim_pays who until_time pool user s s' e e' h =
      let (r, past, shares, rest) = do_native_claim_step who until_time pool user s s' e e' h in
      (r, shares, past, ground arith, ground arith, ground arith, ground arith)
