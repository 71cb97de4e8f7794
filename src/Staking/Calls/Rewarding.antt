-- ===== src/Staking/Calls/Rewarding.antt =====
-- What `update_reward` does.
use can_bus.Base.{
  ℕ, ◌+◌, ◌≤◌, ◌<◌, ◌^◌, ◌≡◌, ◌≢◌, ◌⊎◌, ◌∷◌, refl, none, some, Option-cases, inl, inr, arith,
}
use can_bus.Frame.Call.{Origin, root, signed, unsigned, ok, outcome_cases, reads_cases}
use can_bus.Frame.Storage.{insert, insert₂}
use can_bus.Staking.Info.{PoolSetting}
use can_bus.Staking.State.{Config, reward_updated}
use can_bus.Staking.Epoch.{get_epoch_index}
use can_bus.Staking.Calls.{S, update_reward}

module _ (c : Config) where
  open c use {tokens, stable_token_beneficiary}

  -- The reward of one epoch of a pool is set and minted.
  pub record Rewards (o : Origin) (p epoch reward : ℕ) (s s' : S c) : Type 0 where
    pub asset : ℕ
    pub actual : ℕ
    pub now_epoch : ℕ
    pub setting : PoolSetting
    pub by_root : o ≡ root
    pub registered : s.aiusd_asset_id ≡ some asset
    pub exists : s.pool_setting p ≡ some setting
    pub current : get_epoch_index p s.block_number s ≡ (ok now_epoch, s)
    pub in_time : now_epoch ≤ epoch
    pub in_pool : epoch ≤ setting.epoch
    pub once : s.pool_epoch_reward p epoch ≡ none
    pub mints :
        tokens.mint_into (some asset) stable_token_beneficiary reward s.world
        ≡ (ok actual, s'.world)
    pub set : s'.pool_epoch_reward p epoch ≡ some actual
    pub total : s'.pool_reward p ≡ s.pool_reward p + actual
    pub small : s'.pool_reward p < 2 ^ 128
    pub others : (q : ℕ) → q ≢ p → s'.pool_reward q ≡ s.pool_reward q
    pub other_epochs :
        (q e : ℕ) → (q ≢ p) ⊎ (e ≢ epoch) → s'.pool_epoch_reward q e ≡ s.pool_epoch_reward q e
    pub stakes : s'.pool_checkpoint ≡ s.pool_checkpoint
    pub pending : s'.pending_amount ≡ s.pending_amount
    pub same_asset : s'.aiusd_asset_id ≡ s.aiusd_asset_id
    pub event : s'.events ≡ reward_updated p epoch actual ∷ s.events

  get_epoch_index-state : (p time : ℕ) (s : S c) → (get_epoch_index p time s).1 ≡ s
  unfolding get_epoch_index
  get_epoch_index-state p time s = ground arith

  update_reward_by :
      (o : Origin) (p epoch reward : ℕ) (s s' : S c)
      → update_reward c o p epoch reward s ≡ (ok tt, s')
      → o ≡ root
  unfolding update_reward
  update_reward_by root p epoch reward s s' h = refl
  update_reward_by (signed who) p epoch reward s s' h = absurd (ground arith)
  update_reward_by unsigned p epoch reward s s' h = absurd (ground arith)

  -- The results of the steps of `update_reward` that can fail.
  module _ (p epoch reward : ℕ) (s s' : S c)
      (h : update_reward c root p epoch reward s ≡ (ok tt, s')) where
    ran_epoch : (n : ℕ) × (get_epoch_index p s.block_number s ≡ (ok n, s))
    unfolding update_reward
    ran_epoch =
        elim (reads_cases (get_epoch_index p s.block_number s) s
          (get_epoch_index-state p s.block_number s)) [
            | inl found ↦ found
            | inr (e, g) ↦ absurd (ground arith)
          ]

    ran_setting : (setting : PoolSetting) × (s.pool_setting p ≡ some setting)
    unfolding update_reward
    ran_setting =
        let (n, g) = ran_epoch in
        elim (Option-cases (s.pool_setting p)) [ inl x ↦ absurd (ground arith) | inr found ↦ found ]

    ran_asset : (asset : ℕ) × (s.aiusd_asset_id ≡ some asset)
    unfolding update_reward
    ran_asset =
        let (n, g) = ran_epoch in
        let (setting, x) = ran_setting in
        elim (Option-cases s.aiusd_asset_id) [ inl a ↦ absurd (ground arith) | inr found ↦ found ]

    module _ (n asset : ℕ) (setting : PoolSetting)
        (g : get_epoch_index p s.block_number s ≡ (ok n, s)) (x : s.pool_setting p ≡ some setting)
        (a : s.aiusd_asset_id ≡ some asset) where
      ran_mint :
          (actual : ℕ) × (w : tokens.World) × (tokens.mint_into
              (some asset)
              stable_token_beneficiary
              reward
              s.world
            ≡ (ok actual, w))
      unfolding update_reward
      ran_mint =
          elim (outcome_cases
            (tokens.mint_into (some asset) stable_token_beneficiary reward s.world)) [
              | inl found ↦ found
              | inr (e, w, m) ↦ absurd (ground arith)
            ]

      module _ (actual : ℕ) (w : tokens.World)
          (m : tokens.mint_into (some asset) stable_token_beneficiary reward s.world
            ≡ (ok actual, w)) where
        -- What was checked, and the storage that is left.
        ran_checks :
            (n ≤ epoch)
            × (epoch ≤ setting.epoch)
            × (s.pool_epoch_reward p epoch ≡ none)
            × (s.pool_reward p + actual < 2 ^ 128)
            × (s' ≡ record s {
              world = w;
              events = reward_updated p epoch actual ∷ s.events;
              pool_epoch_reward = insert₂ p epoch (some actual) s.pool_epoch_reward;
              pool_reward = insert p (s.pool_reward p + actual) s.pool_reward;
            })
        unfolding update_reward
        ran_checks = (ground arith, ground arith, ground arith, ground arith, ground arith)

  root_update_reward-Rewards :
      (p epoch reward : ℕ) (s s' : S c)
      → update_reward c root p epoch reward s ≡ (ok tt, s')
      → Rewards root p epoch reward s s'
  root_update_reward-Rewards p epoch reward s s' h =
      let (n, g) = ran_epoch p epoch reward s s' h in
      let (setting, x) = ran_setting p epoch reward s s' h in
      let (asset, a) = ran_asset p epoch reward s s' h in
      let (actual, w, m) = ran_mint p epoch reward s s' h n asset setting g x a in
      let (begun, within, fresh, small, is) =
        ran_checks p epoch reward s s' h n asset setting g x a actual w m in
      rw is (record {
        asset = asset;
        actual = actual;
        now_epoch = n;
        setting = setting;
        by_root = refl;
        registered = a;
        exists = x;
        current = g;
        in_time = begun;
        in_pool = within;
        once = fresh;
        mints = m;
        set = ground arith;
        total = ground arith;
        small = ground arith;
        others = λ q ne. ground arith;
        other_epochs = λ q f ne. ground arith;
        stakes = refl;
        pending = refl;
        same_asset = refl;
        event = refl;
      })

  pub update_reward-Rewards :
      (o : Origin) (p epoch reward : ℕ) (s s' : S c)
      → update_reward c o p epoch reward s ≡ (ok tt, s')
      → Rewards o p epoch reward s s'
  update_reward-Rewards o p epoch reward s s' h =
      let by = update_reward_by o p epoch reward s s' h in
      rw by (root_update_reward-Rewards p epoch reward s s' (rw by at h))
