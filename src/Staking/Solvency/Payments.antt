-- ===== src/Staking/Solvency/Payments.antt =====
-- What the payments of the staking pallet do to what it owes and holds.
use can_bus.Base.{
  ap, ℕ, ◌+◌, ◌≤◌, ◌<◌, ◌^◌, ◌≡◌, ◌≢◌, ◌⊎◌, refl, sym, Option, none, some, Option-cases, inl, inr,
  arith,
}
use can_bus.Frame.Call.{ok}
use can_bus.Frame.Tokens.{TransferLaws}
use can_bus.Frame.Perquintill.{PerquintillLaws}
use can_bus.Staking.Info.{StakingInfo, withdraw}
use can_bus.Staking.State.{Config}
use can_bus.Staking.Claim.{
  Claimed, pay_stable, do_native_claim, native_claim_with, do_stable_claim, stable_claim_with,
  do_withdraw, withdraw_with, withdraw_native, withdraw_user_native,
}
use can_bus.Staking.Claim.Rewards.{do_stable_claim_step, claim_share-Shares}
use can_bus.Staking.Claim.Native.{do_native_claim_pays}
use can_bus.Staking.Calls.{S}
use can_bus.Staking.Solvency.{balance_of, pot, IsSolvent, Shifts, Rests, Shifts-IsSolvent}

module _ (c : Config) (laws : PerquintillLaws c.perquintill) (transfers : TransferLaws c.tokens)
    (who : ℕ) (other : who ≢ c.stable_token_beneficiary) where
  open c use {tokens, stable_token_beneficiary}

  pays_out :
      (asset n : ℕ) (w w' : tokens.World)
      → tokens.transfer (some asset) stable_token_beneficiary who n w ≡ (ok tt, w')
      → balance_of c (some asset) w' + n ≡ balance_of c (some asset) w
  pays_out asset n w w' h =
      transfers.transfer_source asset stable_token_beneficiary who n w w' h (λ e. other (sym e))

  native_keeps :
      (asset : Option ℕ) (source n : ℕ) (w w' : tokens.World)
      → tokens.transfer none source who n w ≡ (ok tt, w')
      → balance_of c asset w' ≡ balance_of c asset w
  native_keeps none source n w w' h = refl
  native_keeps (some asset) source n w w' h =
      transfers.transfer_currencies none source who n w w' h (some asset) stable_token_beneficiary
        (λ e. ground arith)

  native_asset :
      (until_time : ℕ) (s s' : S c)
      → do_native_claim c who until_time s ≡ (ok tt, s')
      → s'.aiusd_asset_id ≡ s.aiusd_asset_id
  unfolding do_native_claim native_claim_with
  native_asset until_time s s' h = ground arith

  native_idle :
      (until_time : ℕ) (s s' : S c)
      → (s.native_checkpoint ≡ none) ⊎ (s.user_native_checkpoint who ≡ none)
      → do_native_claim c who until_time s ≡ (ok tt, s')
      → s'.world ≡ s.world
  unfolding do_native_claim native_claim_with
  native_idle until_time s s' (inl e) h = ground arith
  native_idle until_time s s' (inr e) h = ground arith

  native_held :
      (until_time : ℕ) (s s' : S c)
      → do_native_claim c who until_time s ≡ (ok tt, s')
      → pot c s ≤ pot c s'
  native_held until_time s s' h =
      let same : s'.aiusd_asset_id ≡ s.aiusd_asset_id = native_asset until_time s s' h in
      elim (Option-cases s.native_checkpoint) [
        | inl e ↦ rw (same, native_idle until_time s s' (inl e) h) (omega arith)
        | inr (pool, e) ↦ elim (Option-cases (s.user_native_checkpoint who)) [
          | inl e' ↦ rw (same, native_idle until_time s s' (inr e') h) (omega arith)
          | inr (user, e') ↦
              let (r, _, _, moves, _, _, _) =
                do_native_claim_pays c laws who until_time pool user s s' e e' h in
              let kept =
                native_keeps s.aiusd_asset_id c.native_token_beneficiary r.reward s.world s'.world
                  moves in
              rw same (omega (arith, kept))
        ]
      ]

  pub do_native_claim-Rests :
      (until_time : ℕ) (s s' : S c)
      → do_native_claim c who until_time s ≡ (ok tt, s')
      → Rests c s s'
  unfolding do_native_claim native_claim_with
  do_native_claim-Rests until_time s s' h = record {
    owes = λ q. ground arith;
    held = native_held until_time s s' h;
    small = λ q e. ground arith;
  }

  pay_stable-Shifts :
      (p until_time asset : ℕ) (pool : StakingInfo) (r : Claimed) (s s' : S c)
      → s.aiusd_asset_id ≡ some asset
      → s.pool_checkpoint p ≡ some pool
      → r.pool.amount ≡ pool.amount
      → r.reward ≤ s.pool_reward p
      → s.pool_reward p < 2 ^ 128
      → pay_stable c who p asset until_time (s.pool_reward p) r s ≡ (ok tt, s')
      → Shifts c p r.reward 0 s s'
  unfolding pay_stable
  pay_stable-Shifts p until_time asset pool r s s' a e level most small h =
      let moves : tokens.transfer (some asset) stable_token_beneficiary who r.reward s.world
          ≡ (ok tt, s'.world) =
        ground arith in
      let same : s'.aiusd_asset_id ≡ some asset = ground arith in
      let paid = pays_out asset r.reward s.world s'.world moves in
      record {
        here = ground arith;
        others = λ q ne. ground arith;
        held = ground (arith, paid);
        small = λ q f. ground arith;
      }

  stable_claim_pays :
      (p until_time : ℕ) (pool user : StakingInfo) (s s' : S c)
      → s.pool_checkpoint p ≡ some pool
      → s.user_pool_checkpoint who p ≡ some user
      → do_stable_claim c who p until_time s ≡ (ok tt, s')
      → IsSolvent c s
      → IsSolvent c s'
  stable_claim_pays p until_time pool user s s' e e' h v =
      let (asset, r, a, _, first, pays) =
        do_stable_claim_step c laws who p until_time pool user s s' e e' h in
      let shares =
        (claim_share-Shares c laws pool user until_time (s.pool_reward p) s s r first).1 in
      let level = ap (λ (x : StakingInfo). x.amount) shares.gives in
      Shifts-IsSolvent c p r.reward 0
        (pay_stable-Shifts p until_time asset pool r s s' a e level shares.bounded (v.bounded p)
          pays)
        v

  -- A stable claim takes what it pays out of what is owed.
  pub do_stable_claim-IsSolvent :
      (p until_time : ℕ) (s s' : S c)
      → do_stable_claim c who p until_time s ≡ (ok tt, s')
      → IsSolvent c s
      → IsSolvent c s'
  unfolding do_stable_claim stable_claim_with
  do_stable_claim-IsSolvent p until_time s s' h v = elim (Option-cases (s.pool_checkpoint p)) [
    | inl e ↦ let same : s' ≡ s = ground arith in rw same v
    | inr (pool, e) ↦ elim (Option-cases (s.user_pool_checkpoint who p)) [
      | inl e' ↦ let same : s' ≡ s = ground arith in rw same v
      | inr (user, e') ↦ stable_claim_pays p until_time pool user s s' e e' h v
    ]
  ]

  do_withdraw-Shifts :
      (p : ℕ) (pool user : StakingInfo) (s s' : S c)
      → s.pool_checkpoint p ≡ some pool
      → s.user_pool_checkpoint who p ≡ some user
      → do_withdraw c who p s ≡ (ok tt, s')
      → Shifts c p user.amount 0 s s'
  unfolding do_withdraw withdraw_with withdraw_native withdraw_user_native withdraw
  do_withdraw-Shifts p pool user s s' e e' h = elim (Option-cases s.aiusd_asset_id) [
    | inl a ↦ absurd (ground arith)
    | inr (asset, a) ↦
        let moves : tokens.transfer (some asset) stable_token_beneficiary who user.amount s.world
            ≡ (ok tt, s'.world) =
          ground arith in
        let same : s'.aiusd_asset_id ≡ some asset = ground arith in
        let paid = pays_out asset user.amount s.world s'.world moves in
        record {
          here = ground arith;
          others = λ q ne. ground arith;
          held = ground (arith, paid);
          small = λ q f. ground arith;
        }
  ]

  -- A withdrawal takes the user's stake out.
  pub do_withdraw-IsSolvent :
      (p : ℕ) (s s' : S c) → do_withdraw c who p s ≡ (ok tt, s') → IsSolvent c s → IsSolvent c s'
  unfolding do_withdraw withdraw_with
  do_withdraw-IsSolvent p s s' h v = elim (Option-cases (s.pool_checkpoint p)) [
    | inl e ↦ let same : s' ≡ s = ground arith in rw same v
    | inr (pool, e) ↦ elim (Option-cases (s.user_pool_checkpoint who p)) [
      | inl e' ↦ let same : s' ≡ s = ground arith in rw same v
      | inr (user, e') ↦
          Shifts-IsSolvent c p user.amount 0 (do_withdraw-Shifts p pool user s s' e e' h) v
    ]
  ]
