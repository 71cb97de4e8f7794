-- ===== src/Mint/Calls.antt =====
-- The hook, the calls and the genesis of pallets/halving-mint/src/lib.rs. A block number is a u32.
use can_bus.Base.{
  ℕ, zero, suc, ◌+◌, ◌-◌, ◌*◌, ◌/◌, ◌%◌, ◌^◌, not, Option, none, some, ◌∷◌, ltb, is_some, is_none,
  if◌then◌else◌, saturating_add,
}
use can_bus.Frame.Error.{
  mint, mint_state_unchanged, on_token_minted_state_unchanged, mint_already_started,
  mint_not_started, start_block_too_early,
}
use can_bus.Frame.Call.{Call, Origin, gets, modify, ensure, ensure_root, transactional, ◌>>=◌, ◌>>◌}
use can_bus.Mint.State.{
  MintState, stopped, running, same, mint_state_changed, on_token_minted_state_changed,
  mint_started, minted, Storage, GenesisConfig, Config, deposit_event,
}

-- The `while` loop, with the rounds left.
unfoldable pub halve : ℕ → ℕ → ℕ
halve zero amount = amount
halve (suc k) amount = halve k (amount / 2)

-- The first block for which tokens are minted, moved on by the blocks that were skipped.
abbrev pub shifted_start : ℕ → ℕ → ℕ
shifted_start start_block skipped_blocks = saturating_add 32 start_block skipped_blocks

module _ {W : Type 0} (c : Config W) where
  -- The amount for block `now`. `halving_interval * 2` is unchecked on u32.
  unfoldable pub amount_at : ℕ → ℕ → ℕ
  unfolding halve
  amount_at now first =
      halve ((now - first) / c.halving_interval)
        (c.total_issuance / (c.halving_interval * 2 % 2 ^ 32))

  -- "Deal with the hook": run where its state is on.
  abbrev pub notify : MintState → ℕ → W → W
  notify running amount w = c.token_minted c.beneficiary amount w
  notify stopped amount w = w

  unfoldable pub mint_block : ℕ → ℕ → Storage W → Storage W
  unfolding amount_at
  mint_block now first s =
      if ltb now first
      then s
      else let amount = amount_at now first in
        record s {
          world =
              notify s.on_token_minted_state amount
                (c.deposit_creating c.beneficiary amount s.world);
          events = minted c.beneficiary amount ∷ s.events;
        }

  -- The hook once minting has a start block.
  unfoldable pub mint_or_skip : MintState → ℕ → ℕ → Storage W → Storage W
  unfolding mint_block
  mint_or_skip running start_block now s =
      mint_block now (shifted_start start_block s.skipped_blocks) s
  mint_or_skip stopped start_block now s = record s {
    skipped_blocks = saturating_add 32 s.skipped_blocks 1;
  }

  abbrev hook : Option ℕ → ℕ → Storage W → Storage W
  hook none now s = s
  hook (some start_block) now s = mint_or_skip s.mint_state start_block now s

  -- `on_initialize`, less the weight, when frame_system has entered block `now`.
  unfoldable pub on_initialize : ℕ → Storage W → Storage W
  unfolding mint_or_skip
  on_initialize now s = hook s.start_block now (record s { block_number = now })

module _ {W : Type 0} where
  unfoldable pub set_mint_state : Origin → MintState → Call (Storage W) (Unit {0})
  set_mint_state origin state = do
    ensure_root origin
    start ← gets (λ s. s.start_block)
    ensure (is_some start) (mint mint_not_started)
    old ← gets (λ s. s.mint_state)
    ensure (not (same state old)) (mint mint_state_unchanged)
    modify (λ s. record s { mint_state = state })
    deposit_event (mint_state_changed state)

  unfoldable pub set_on_token_minted_state : Origin → MintState → Call (Storage W) (Unit {0})
  set_on_token_minted_state origin state = do
    ensure_root origin
    start ← gets (λ s. s.start_block)
    ensure (is_some start) (mint mint_not_started)
    old ← gets (λ s. s.on_token_minted_state)
    ensure (not (same state old)) (mint on_token_minted_state_unchanged)
    modify (λ s. record s { on_token_minted_state = state })
    deposit_event (on_token_minted_state_changed state)

  unfoldable pub start_mint_from_block : Origin → ℕ → Call (Storage W) (Unit {0})
  start_mint_from_block origin start_block = do
    ensure_root origin
    start ← gets (λ s. s.start_block)
    ensure (is_none start) (mint mint_already_started)
    now ← gets (λ s. s.block_number)
    ensure (ltb now start_block) (mint start_block_too_early)
    modify (λ s. record s {
      mint_state = running;
      on_token_minted_state = running;
      start_block = some start_block;
    })
    deposit_event (mint_started start_block)

  -- `block_number() + 1` on u32, unchecked.
  unfoldable pub start_mint_from_next_block : Origin → Call (Storage W) (Unit {0})
  unfolding start_mint_from_block
  start_mint_from_next_block origin = do
    now ← gets (λ s. s.block_number)
    start_mint_from_block origin ((now + 1) % 2 ^ 32)

  abbrev put_start : Option ℕ → Storage W → Storage W
  put_start none s = s
  put_start (some n) s = record s { start_block = some n }

  -- `BuildGenesisConfig::build`
  unfoldable pub build : GenesisConfig → Storage W → Storage W
  build self s = put_start self.start_block (record s {
    mint_state = self.mint_state;
    on_token_minted_state = self.on_token_minted_state;
  })

-- The calls of the pallet, with their arguments.
pub data Request : Type 0 where
  set_mint_states set_on_token_minted_states : MintState → Request
  start_mint_from_next_blocks : Request
  start_mint_from_blocks : ℕ → Request

module _ {W : Type 0} where
  abbrev pub call_of : Origin → Request → Call (Storage W) (Unit {0})
  call_of o (set_mint_states state) = set_mint_state o state
  call_of o (set_on_token_minted_states state) = set_on_token_minted_state o state
  call_of o start_mint_from_next_blocks = start_mint_from_next_block o
  call_of o (start_mint_from_blocks n) = start_mint_from_block o n

  -- A dispatched call is undone as a whole if it fails.
  unfoldable pub dispatch : Origin → Request → Call (Storage W) (Unit {0})
  dispatch o r = transactional (call_of o r)
