-- ===== src/Runtime/Rewards.antt =====
-- How pallets/halving-mint and pallets/stable-staking meet in runtime/src/lib.rs: the account that
-- tokens are minted to is the one that native rewards are paid from.
use can_bus.Base.{
  ℕ, ◌+◌, ◌*◌, ◌^◌, ◌≤◌, ◌<◌, ◌≡◌, refl, none, some, List, [], ◌∷◌, length, ap, arith, Bool-cases,
  Option-cases, inl, inr, ltb,
}
use can_bus.Frame.Tokens.{Tokens}
use can_bus.Frame.Perquintill.{Perquintill}
use can_bus.Staking.State as Staking
use can_bus.Mint.State.{MintState, stopped, running, Storage, Config}
use can_bus.Mint.Calls.{notify, amount_at, shifted_start, on_initialize, mint_block, mint_or_skip}
use can_bus.Mint.Supply.{run, total_minted}
use can_bus.Runtime.Mint.{halving_mint_config, runtime_mints_within_cap}

-- `impl pallet_stable_staking::Config for Runtime`, with the accounts of its two pallet ids.
abbrev pub stable_staking_config : Tokens → Perquintill → ℕ → ℕ → Staking.Config
stable_staking_config tokens perquintill staking_pool_account halving_mint_account = record {
  tokens = tokens;
  perquintill = perquintill;
  stable_token_beneficiary = staking_pool_account;
  native_token_beneficiary = halving_mint_account;
  pool_string_limit = 100;
}

module _ (tokens : Tokens) (perquintill : Perquintill) (staking_account mint_account : ℕ)
    (deposit_creating : ℕ → ℕ → tokens.World → tokens.World) where
  abbrev staking : Staking.Config
  staking = stable_staking_config tokens perquintill staking_account mint_account

  -- What the staking pallet shares out among native claims.
  abbrev pub rewards : tokens.World → ℕ
  rewards w = tokens.balance none staking.native_token_beneficiary w

  module _
      (deposits : (who n : ℕ) (w : tokens.World)
        → tokens.balance none who (deposit_creating who n w) ≤ tokens.balance none who w + n) where
    abbrev minting : Config tokens.World
    minting = halving_mint_config mint_account deposit_creating

    -- What the rewards gain is at most what the events name as minted.
    abbrev Gains : Storage tokens.World → Storage tokens.World → Type 0
    Gains s t = rewards t.world + total_minted s.events ≤ rewards s.world + total_minted t.events

    -- `OnTokenMinted` does nothing.
    unnotified : (state : MintState) (n : ℕ) (w : tokens.World) → notify minting state n w ≡ w
    unfolding halving_mint_config
    unnotified running n w = refl
    unnotified stopped n w = refl

    mint_block-Gains :
        (now first : ℕ) (s : Storage tokens.World) → Gains s (mint_block minting now first s)
    unfolding mint_block halving_mint_config
    mint_block-Gains now first s =
        let n = amount_at minting now first in
        let paid = deposits mint_account n s.world in
        elim (Bool-cases (ltb now first)) [
          | inl e ↦ rw e (omega arith)
          | inr e ↦ rw e (
              omega (
                arith,
                paid,
                ap rewards (
                    unnotified s.on_token_minted_state n (deposit_creating mint_account n s.world)),
              ))
        ]

    by_state :
        (state : MintState) (b now : ℕ) (s : Storage tokens.World)
        → Gains s (mint_or_skip minting state b now s)
    unfolding mint_or_skip
    by_state running b now s = mint_block-Gains now (shifted_start b s.skipped_blocks) s
    by_state stopped b now s = omega arith

    block_rewards : (now : ℕ) (s : Storage tokens.World) → Gains s (on_initialize minting now s)
    unfolding on_initialize
    block_rewards now s = elim (Option-cases s.start_block) [
      | inl e ↦ rw e (omega arith)
      | inr (b, e) ↦
          rw e (by_state s.mint_state b now (record s { block_number = now; start_block = some b }))
    ]

    run_rewards :
        (states : List MintState) (s : Storage tokens.World) → Gains s (run minting states s)
    run_rewards [] s = omega arith
    run_rewards (state ∷ states) s =
        let t = on_initialize minting (s.block_number + 1) (record s { mint_state = state }) in
        omega (
          arith,
          block_rewards (s.block_number + 1) (record s { mint_state = state }),
          run_rewards states t,
        )

    -- With the runtime's configurations, where a deposit adds at most its amount to a balance: from a
    -- storage whose start block is not yet reached, whatever blocks follow and however minting is
    -- stopped and resumed between them, the balance that native staking rewards are paid from grows by
    -- at most 21 million units of 18 decimals, if the start block, the skipped blocks and the blocks of
    -- the run together fit in 32 bits.
    pub native_rewards_within_cap :
        (states : List MintState) (s : Storage tokens.World) (b : ℕ)
        → s.start_block ≡ some b
        → b + s.skipped_blocks + length states < 2 ^ 32
        → s.block_number < b
        → rewards (run (halving_mint_config mint_account deposit_creating) states s).world
          ≤ rewards s.world + 21000000 * 10 ^ 18
    native_rewards_within_cap states s b e fits early = omega (
      arith,
      run_rewards states s,
      runtime_mints_within_cap mint_account deposit_creating states s b e fits early,
    )
