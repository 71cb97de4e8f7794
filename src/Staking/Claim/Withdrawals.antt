-- ===== src/Staking/Claim/Withdrawals.antt =====
-- What a withdrawal returns.
use can_bus.Base.{ℕ, ◌+◌, ◌≡◌, ◌≢◌, ◌∷◌, none, some, Option-cases, inl, inr, arith}
use can_bus.Frame.Call.{ok}
use can_bus.Staking.Info.{StakingInfo}
use can_bus.Staking.State.{Config, withdrawn}
use can_bus.Staking.Pending.Solve.{amount_of, staked}
use can_bus.Staking.Claim.{S, withdraw_native, withdraw_user_native, withdraw_with, do_withdraw}

module _ (c : Config) where
  open c use {tokens, stable_token_beneficiary}

  -- A withdrawal from a pool that succeeds, by a user with a position in it and native checkpoints: the
  -- one transfer it makes gives back exactly the amount of the position; the position is gone, and the
  -- stakes of the pool, of the user and of all fall by exactly that amount; the event names it, and
  -- the stakes of the other pools stay.
  pub do_withdraw_returns :
      (who p : ℕ) (pool user native user_native : StakingInfo) (s s' : S c)
      → s.pool_checkpoint p ≡ some pool
      → s.user_pool_checkpoint who p ≡ some user
      → s.native_checkpoint ≡ some native
      → s.user_native_checkpoint who ≡ some user_native
      → do_withdraw c who p s ≡ (ok tt, s')
      → (asset : ℕ) × (s.aiusd_asset_id ≡ some asset)
        × (tokens.transfer (some asset) stable_token_beneficiary who user.amount s.world
            ≡ (ok tt, s'.world))
        × (s'.user_pool_checkpoint who p ≡ none)
        × (staked p s' + user.amount ≡ pool.amount)
        × (amount_of s'.native_checkpoint + user.amount ≡ native.amount)
        × (amount_of (s'.user_native_checkpoint who) + user.amount ≡ user_native.amount)
        × ((q : ℕ) → q ≢ p → s'.pool_checkpoint q ≡ s.pool_checkpoint q)
        × (s'.events ≡ withdrawn who p s.block_number user.amount ∷ s.events)
  unfolding do_withdraw withdraw_with withdraw_native withdraw_user_native
  do_withdraw_returns who p pool user native user_native s s' e₁ e₂ e₃ e₄ h =
      elim (Option-cases s.aiusd_asset_id) [
        | inl a ↦ absurd (ground arith)
        | inr (asset, a) ↦ (
          asset,
          a,
          ground arith,
          ground arith,
          ground arith,
          ground arith,
          ground arith,
          (λ q ne. ground arith),
          ground arith,
        )
      ]
