-- ===== src/Staking/Claim/Rewards.antt =====
-- What a claim pays.
use can_bus.Base.{
  ℕ, ◌+◌, ◌-◌, ◌*◌, ◌/◌, ◌%◌, ◌∙◌, ◌^◌, ◌≤◌, ◌<◌, ◌≡◌, ◌≢◌, ◌∷◌, some, Option-cases, inl, inr,
  arith,
}
use can_bus.Frame.Call.{ok, >>=-eq-ok}
use can_bus.Frame.Perquintill.{PerquintillLaws}
use can_bus.Staking.Info.{StakingInfo, claim, weight, weight_force, claim_based_on_weight}
use can_bus.Staking.State.{Config, stable_reward_claimed}
use can_bus.Staking.Claim.{Claimed, S, claim_share, pay_stable, stable_claim_with, do_stable_claim}

module _ (c : Config) (laws : PerquintillLaws c.perquintill) where
  open c use {tokens, perquintill, stable_token_beneficiary}

  -- How a share comes about: all that the user's position weighs at `until_time` is claimed, its
  -- amount times the blocks since its effective time, which moves up to then; the pool's position gives
  -- the claimed weight up by a later effective time; and the share is the product of the reward and the fraction of
  -- the claimed weight in the weight of the pool.
  pub record Shares (pool user : StakingInfo) (until_time reward : ℕ) (r : Claimed) : Type 0 where
    pub claimed : ℕ
    pub total : ℕ
    pub added : user.last_add_time ≤ until_time
    pub begun : user.effective_time ≤ until_time
    pub claims : claimed ≡ (until_time - user.effective_time) * user.amount
    pub moves : r.user ≡ record user { effective_time = until_time }
    pub pool_begun : pool.effective_time ≤ until_time
    pub weighs : total ≡ (until_time - pool.effective_time) * pool.amount
    pub staked : 0 < pool.amount
    pub gives :
        r.pool
        ≡ record pool { effective_time = (pool.effective_time + claimed / pool.amount) % 2 ^ 128 }
    pub fits : (pool.effective_time + claimed / pool.amount) % 2 ^ 128 < 2 ^ 32
    pub pays : r.reward ≡ perquintill.mul (perquintill.from_rational claimed total) reward
    pub bounded : r.reward ≤ reward

  claims_all :
      (user u : StakingInfo) (until_time n : ℕ)
      → claim user until_time ≡ some (u, n)
      → (user.last_add_time ≤ until_time)
        × (user.effective_time ≤ until_time)
        × (n ≡ (until_time - user.effective_time) * user.amount)
        × (u ≡ record user { effective_time = until_time })
  unfolding claim weight
  claims_all user u until_time n h = (ground arith, ground arith, ground arith, ground arith)

  weighs_all :
      (pool : StakingInfo) (until_time n : ℕ)
      → weight_force pool until_time ≡ some n
      → (pool.effective_time ≤ until_time) × (n ≡ (until_time - pool.effective_time) * pool.amount)
  unfolding weight_force
  weighs_all pool until_time n h = (ground arith, ground arith)

  gives_up :
      (pool after : StakingInfo) (n moved : ℕ)
      → claim_based_on_weight pool n ≡ some (after, moved)
      → (0 < pool.amount)
        × ((pool.effective_time + n / pool.amount) % 2 ^ 128 < 2 ^ 32)
        × (after
            ≡ record pool { effective_time = (pool.effective_time + n / pool.amount) % 2 ^ 128 })
  unfolding claim_based_on_weight
  gives_up pool after n moved h = (ground arith, ground arith, ground arith)

  pub claim_share-Shares :
      (pool user : StakingInfo) (until_time reward : ℕ) (s s' : S c) (r : Claimed)
      → claim_share c pool user until_time reward s ≡ (ok r, s')
      → (s' ≡ s) × Shares pool user until_time reward r
  unfolding claim_share
  claim_share-Shares pool user until_time reward s s' r h =
      elim (Option-cases (claim user until_time)) [
        | inl e ↦ absurd (ground arith)
        | inr (u, e) ↦ elim (Option-cases (weight_force pool until_time)) [
          | inl e' ↦ absurd (ground arith)
          | inr (total, e') ↦ elim (Option-cases (claim_based_on_weight pool u.1)) [
            | inl e'' ↦ absurd (ground arith)
            | inr (v, e'') ↦
                let (added, begun, all, moved) = claims_all user u.0 until_time u.1 e in
                let (pool_begun, whole) = weighs_all pool until_time total e' in
                let (staked, fits, left) = gives_up pool v.0 u.1 v.1 e'' in
                let paid : r.reward ≡ perquintill.mul (perquintill.from_rational u.1 total) reward =
                  ground arith in
                let users : r.user ≡ u.0 = ground arith in
                let pools : r.pool ≡ v.0 = ground arith in
                (
                  ground arith,
                  record {
                    claimed = u.1;
                    total = total;
                    added = added;
                    begun = begun;
                    claims = all;
                    moves = users ∙ moved;
                    pool_begun = pool_begun;
                    weighs = whole;
                    staked = staked;
                    gives = pools ∙ left;
                    fits = fits;
                    pays = paid;
                    bounded = rw paid (laws.mul-le _ reward (laws.from_rational-le-one u.1 total));
                  },
                )
          ]
        ]
      ]

  pub do_stable_claim_step :
      (who p until_time : ℕ) (pool user : StakingInfo) (s s' : S c)
      → s.pool_checkpoint p ≡ some pool
      → s.user_pool_checkpoint who p ≡ some user
      → do_stable_claim c who p until_time s ≡ (ok tt, s')
      → (asset : ℕ) × (r : Claimed) × (s.aiusd_asset_id ≡ some asset)
        × (until_time ≤ s.block_number)
        × (claim_share c pool user until_time (s.pool_reward p) s ≡ (ok r, s))
        × (pay_stable c who p asset until_time (s.pool_reward p) r s ≡ (ok tt, s'))
  unfolding do_stable_claim stable_claim_with
  do_stable_claim_step who p until_time pool user s s' e e' h =
      elim (Option-cases s.aiusd_asset_id) [
        | inl a ↦ absurd (ground arith)
        | inr (asset, a) ↦
            let (r, t, first, rest) =
              >>=-eq-ok (claim_share c pool user until_time (s.pool_reward p))
                (pay_stable c who p asset until_time (s.pool_reward p)) s {s' = s'}
                (ground arith) in
            let same : t ≡ s =
              (claim_share-Shares pool user until_time (s.pool_reward p) s t r first).0 in
            (asset, r, a, ground arith, rw same at first, rw same at rest)
      ]

  -- A stable claim that succeeds for a user and a pool with checkpoints, where the pool's unclaimed
  -- reward fits in 128 bits and the fraction obeys its laws, is for a time that has come. The one transfer
  -- it makes is of the registered asset, from the account of the pallet to the user, of the share of the
  -- unclaimed reward, at most the whole, that is the fraction of all that the user's position weighs at
  -- that time in the weight of the pool. The unclaimed reward falls by exactly what is
  -- paid, although the source subtracts unchecked, and those of the other pools stay. The user's position
  -- stands at that time, and the pool's at the effective time that the claimed weight moves it on to; the event names the
  -- amount.
  pub do_stable_claim_pays :
      (who p until_time : ℕ) (pool user : StakingInfo) (s s' : S c)
      → s.pool_checkpoint p ≡ some pool
      → s.user_pool_checkpoint who p ≡ some user
      → s.pool_reward p < 2 ^ 128
      → do_stable_claim c who p until_time s ≡ (ok tt, s')
      → (asset : ℕ) × (r : Claimed) × Shares pool user until_time (s.pool_reward p) r
        × (until_time ≤ s.block_number)
        × (s.aiusd_asset_id ≡ some asset)
        × (tokens.transfer (some asset) stable_token_beneficiary who r.reward s.world
            ≡ (ok tt, s'.world))
        × (s'.pool_reward p + r.reward ≡ s.pool_reward p)
        × ((j : ℕ) → j ≢ p → s'.pool_reward j ≡ s.pool_reward j)
        × (s'.pool_checkpoint p ≡ some r.pool)
        × (s'.user_pool_checkpoint who p ≡ some r.user)
        × (s'.events ≡ stable_reward_claimed who p until_time r.reward ∷ s.events)
  unfolding pay_stable
  do_stable_claim_pays who p until_time pool user s s' e e' fits h =
      let (asset, r, a, past, first, rest) =
        do_stable_claim_step who p until_time pool user s s' e e' h in
      let shares = (claim_share-Shares pool user until_time (s.pool_reward p) s s r first).1 in
      let most = shares.bounded in
      (
        asset,
        r,
        shares,
        past,
        a,
        ground arith,
        ground (arith, most),
        (λ j ne. ground arith),
        ground arith,
        ground arith,
        ground arith,
      )
