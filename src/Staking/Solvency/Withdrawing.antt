-- ===== src/Staking/Solvency/Withdrawing.antt =====
-- A user's stake can be withdrawn.
use can_bus.Base.{ℕ, ◌≤◌, ◌≡◌, ap, inl, inr, some, Option-cases, Covers-one, arith}
use can_bus.Frame.Call.{ok}
use can_bus.Staking.Info.{StakingInfo, withdraw}
use can_bus.Staking.State.{Config}
use can_bus.Staking.Pending.Solve.{amount_of, staked, user_staked}
use can_bus.Staking.Claim.{do_withdraw, withdraw_with, withdraw_native, withdraw_user_native}
use can_bus.Staking.Calls.{S}
use can_bus.Staking.Solvency.{owed, pot}
use can_bus.Frame.Tokens.{TokenLaws, TransferLaws}
use can_bus.Frame.Perquintill.{PerquintillLaws}
use can_bus.Staking.Solvency.History.{Reaches, IsFunded, Reaches-IsFunded}
use can_bus.Staking.Solvency.Natives.{committed, native_of, native_total}

module _ (c : Config) where
  open c use {tokens, stable_token_beneficiary}

  -- Where a pool, a user's native stake and that of all cover the user's stake in the pool.
  does_withdraw :
      (who p asset : ℕ) (pool user : StakingInfo) (s : S c) (w : tokens.World)
      → s.pool_checkpoint p ≡ some pool
      → s.user_pool_checkpoint who p ≡ some user
      → s.aiusd_asset_id ≡ some asset
      → user.amount ≤ pool.amount
      → user.amount ≤ native_of who s
      → user.amount ≤ native_total s
      → tokens.transfer (some asset) stable_token_beneficiary who user.amount s.world ≡ (ok tt, w)
      → (do_withdraw c who p s).0 ≡ ok tt
  unfolding do_withdraw withdraw_with withdraw_native withdraw_user_native withdraw
  does_withdraw who p asset pool user s w e f a in_pool in_native in_total moves = ground arith

  withdraws_from :
      (who p asset : ℕ) (pool user : StakingInfo) (t : S c)
      → t.pool_checkpoint p ≡ some pool
      → t.user_pool_checkpoint who p ≡ some user
      → t.aiusd_asset_id ≡ some asset
      → IsFunded c t
      → (user.amount ≤ tokens.balance (some asset) stable_token_beneficiary t.world
          → (w : tokens.World) × (tokens.transfer
                (some asset)
                stable_token_beneficiary
                who
                user.amount
                t.world
              ≡ (ok tt, w)))
      → (do_withdraw c who p t).0 ≡ ok tt
  withdraws_from who p asset pool user t e f a v pays =
      let held = Covers-one (λ q. owed q t) (pot c t) p v.solvent.covered in
      let mine : user_staked who p t ≡ user.amount = ap amount_of f in
      let whole : staked p t ≡ pool.amount = ap amount_of e in
      let in_pool = Covers-one (λ b. user_staked b p t) (staked p t) who (v.backed.backed p) in
      let in_native =
        Covers-one (λ q. committed who q t) (native_of who t) p (v.matched.by_user who) in
      let in_total = Covers-one (λ b. native_of b t) (native_total t) who v.matched.by_all in
      let (w, moves) = pays (ground (arith, held, mine, in_pool)) in
      does_withdraw who p asset pool user t w e f a (omega (arith, in_pool, mine, whole))
        (omega (arith, in_native, mine)) (omega (arith, in_native, in_total, mine)) moves

  -- If the fractions are at most one, and minting and transferring do what their documentation says,
  -- after any calls by signers other than the account in which the pallet keeps the stable tokens, by
  -- root or unsigned, in which the asset is registered only where there is none, any blocks in which
  -- what is due can be settled, and whatever other pallets do without taking stable tokens from that account,
  -- from a storage in which the pallet held all it owed, the stake of each pool covered its users', and
  -- native stakes covered what users had in the pools: `do_withdraw` succeeds for every user with a
  -- position in a pool, where the asset is registered and the transfer of its amount to the user
  -- succeeds if the account of the pallet holds that much.
  pub stake_is_withdrawable :
      (laws : PerquintillLaws c.perquintill) (mints : TokenLaws c.tokens)
      (transfers : TransferLaws c.tokens) (s t : S c)
      → Reaches c s t
      → IsFunded c s
      → (who p asset : ℕ) (user : StakingInfo) → t.user_pool_checkpoint who p ≡ some user
      → t.aiusd_asset_id ≡ some asset
      → (user.amount ≤ tokens.balance (some asset) stable_token_beneficiary t.world
          → (w : tokens.World) × (tokens.transfer
                (some asset)
                stable_token_beneficiary
                who
                user.amount
                t.world
              ≡ (ok tt, w)))
      → (do_withdraw c who p t).0 ≡ ok tt
  stake_is_withdrawable laws mints transfers s t path v who p asset user f a pays =
      let end = Reaches-IsFunded c laws mints transfers path v in
      elim (Option-cases (t.pool_checkpoint p)) [
        | inl e ↦ absurd (ground (arith, end.backed.covered who p e))
        | inr (pool, e) ↦ withdraws_from who p asset pool user t e f a end pays
      ]
