-- ===== src/Mint/Supply.antt =====
-- How much the hook of pallets/halving-mint/src/lib.rs mints, over any run of blocks and pauses.
use native.Mathlib.Nat.{
  mul-add-div, div-eq_of_lt, div-mul-le_self, suc-mul, mul-suc, mul_comm, mul-le-mul_left,
}
use can_bus.Base.{
  ℕ, zero, suc, ◌+◌, ◌-◌, ◌*◌, ◌/◌, ◌%◌, ◌^◌, ◌≤◌, ◌<◌, ◌≡◌, refl, some, List, [], ◌∷◌, arith, ltb,
  saturating_add, Bool-cases, inl, inr, length, ◌∙◌, ap,
}
use can_bus.Mint.State.{
  MintState, stopped, running, Event, minted, mint_state_changed, on_token_minted_state_changed,
  mint_started, Storage, Config,
}
use can_bus.Mint.Calls.{halve, amount_at, on_initialize}

-- The amounts that the events name as minted.
abbrev pub amount_of : Event → ℕ
amount_of (minted who n) = n
amount_of (mint_state_changed s) = 0
amount_of (on_token_minted_state_changed s) = 0
amount_of (mint_started b) = 0

abbrev pub total_minted : List Event → ℕ
total_minted [] = 0
total_minted (e ∷ es) = amount_of e + total_minted es

halve_next : (k a : ℕ) → halve (suc k) a ≡ halve k a / 2
unfolding halve
halve_next zero a = refl
halve_next (suc k) a = halve_next k (a / 2)

module _ {W : Type 0} (c : Config W) where
  -- The blocks after the current one, each with the state that minting is in when it begins.
  abbrev pub run : List MintState → Storage W → Storage W
  run [] s = s
  run (state ∷ states) s =
      run states (on_initialize c (s.block_number + 1) (record s { mint_state = state }))

  stopped_step :
      (b : ℕ) (s : Storage W)
      → s.start_block ≡ some b
      → s.skipped_blocks + 1 < 2 ^ 32
      → let t = on_initialize c (s.block_number + 1) (record s { mint_state = stopped }) in
        (t.start_block ≡ some b)
        × (t.skipped_blocks ≡ s.skipped_blocks + 1)
        × (t.block_number ≡ s.block_number + 1)
        × (t.events ≡ s.events)
  unfolding on_initialize
  stopped_step b s e fits = (ground arith, ground arith, ground arith, ground arith)

  running_step :
      (b : ℕ) (s : Storage W)
      → s.start_block ≡ some b
      → b + s.skipped_blocks < 2 ^ 32
      → let t = on_initialize c (s.block_number + 1) (record s { mint_state = running }) in
        (t.start_block ≡ some b)
        × (t.skipped_blocks ≡ s.skipped_blocks)
        × (t.block_number ≡ s.block_number + 1)
        × (s.block_number + 1 < b + s.skipped_blocks → t.events ≡ s.events)
        × (b + s.skipped_blocks ≤ s.block_number + 1
            → t.events
              ≡ minted c.beneficiary (amount_at c (s.block_number + 1) (b + s.skipped_blocks))
                ∷ s.events)
  unfolding on_initialize
  running_step b s e fits =
      let first : saturating_add 32 b s.skipped_blocks ≡ b + s.skipped_blocks = ground arith in
      (ground arith, ground arith, ground arith, (λ h. ground arith), (λ h. ground arith))

  amount_in_round :
      (first q r : ℕ)
      → 0 < c.halving_interval
      → c.halving_interval * 2 < 2 ^ 32
      → r < c.halving_interval
      → amount_at c (first + (c.halving_interval * q + r)) first
        ≡ halve q (c.total_issuance / (c.halving_interval * 2))
  unfolding amount_at
  amount_in_round first q r pos small inside =
      let off : first + (c.halving_interval * q + r) - first ≡ c.halving_interval * q + r =
        omega arith in
      let round : (c.halving_interval * q + r) / c.halving_interval ≡ q =
        rw (mul-add-div pos q r, div-eq_of_lt inside) (omega arith) in
      let fits : c.halving_interval * 2 % 2 ^ 32 ≡ c.halving_interval * 2 = omega (arith, small) in
      rw (off, round, fits) refl

  -- A round that ends leaves room for the next one, in which the amounts are halved.
  next_round : (interval x : ℕ) → (interval + interval) * (x / 2) ≤ interval * x
  next_round interval x =
      let half : x / 2 * 2 ≤ x = div-mul-le_self x 2 in
      let twice : (interval + interval) * (x / 2) ≡ interval * (x / 2 * 2) = ground arith in
      rw twice (mul-le-mul_left interval half)

  module _ (pos : 0 < c.halving_interval) (small : c.halving_interval * 2 < 2 ^ 32) where
    abbrev room : ℕ → ℕ → ℕ
    room m q = m * halve q (c.total_issuance / (c.halving_interval * 2))

    -- From block `r` of round `q` on.
    run_bound :
        (states : List MintState) (s : Storage W) (b q r m : ℕ)
        → s.start_block ≡ some b
        → b + s.skipped_blocks + length states < 2 ^ 32
        → s.block_number + 1 ≡ b + s.skipped_blocks + (c.halving_interval * q + r)
        → r < c.halving_interval
        → m + r ≡ c.halving_interval + c.halving_interval
        → total_minted (run states s).events ≤ total_minted s.events + room m q
    run_bound [] s b q r m e fits here inside left = omega arith
    run_bound (stopped ∷ states) s b q r m e fits here inside left =
        let t = on_initialize c (s.block_number + 1) (record s { mint_state = stopped }) in
        let (e', skip, now, same) = stopped_step b s e (omega (arith, fits)) in
        let rest =
          run_bound states t b q r m e' (omega (arith, fits, skip)) (omega (arith, here, skip, now))
            inside left in
        let level : total_minted t.events ≡ total_minted s.events = ap total_minted same in
        omega (arith, rest, level)
    run_bound (running ∷ states) s b q r (zero) e fits here inside left =
        absurd (omega (arith, inside, left))
    run_bound (running ∷ states) s b q r (suc m) e fits here inside left =
        let t = on_initialize c (s.block_number + 1) (record s { mint_state = running }) in
        let x = halve q (c.total_issuance / (c.halving_interval * 2)) in
        let (e', skip, now, before, after) = running_step b s e (omega (arith, fits)) in
        let amount : amount_at c (s.block_number + 1) (b + s.skipped_blocks) ≡ x =
          rw here (amount_in_round (b + s.skipped_blocks) q r pos small inside) in
        let grown : total_minted t.events ≡ x + total_minted s.events =
          ap total_minted (after (omega (arith, here)))
          ∙ ap (λ (y : ℕ). y + total_minted s.events) amount in
        elim (Bool-cases (ltb (suc r) c.halving_interval)) [
          | inl more ↦
              let rest =
                run_bound states t b q (suc r) m e' (omega (arith, fits, skip))
                  (omega (arith, here, skip, now)) (ground arith) (omega (arith, left)) in
              let split = suc-mul m x in omega (arith, rest, grown, split)
          | inr done ↦
              let last : suc r ≡ c.halving_interval = ground arith in
              let rest =
                run_bound states t b (suc q) 0 (c.halving_interval + c.halving_interval) e'
                  (omega (arith, fits, skip))
                  (omega (arith, here, skip, now, last, mul-suc c.halving_interval q)) pos
                  (omega arith) in
              let split = suc-mul m x in
              let whole : m * x ≡ c.halving_interval * x =
                ap (λ (k : ℕ). k * x) (omega (arith, left, last)) in
              let halved = halve_next q (c.total_issuance / (c.halving_interval * 2)) in
              let next = next_round c.halving_interval x in
              let later : total_minted (run states t).events
                  ≤ total_minted t.events + (c.halving_interval + c.halving_interval) * (x / 2) =
                rw halved at rest in
              omega (arith, later, grown, split, whole, next)
        ]

    -- While minting has not reached its first block.
    run_before :
        (states : List MintState) (s : Storage W) (b : ℕ)
        → s.start_block ≡ some b
        → b + s.skipped_blocks + length states < 2 ^ 32
        → s.block_number + 1 ≤ b + s.skipped_blocks
        → total_minted (run states s).events
          ≤ total_minted s.events + room (c.halving_interval + c.halving_interval) 0
    run_before [] s b e fits early = omega arith
    run_before (stopped ∷ states) s b e fits early =
        let t = on_initialize c (s.block_number + 1) (record s { mint_state = stopped }) in
        let (e', skip, now, same) = stopped_step b s e (omega (arith, fits)) in
        let rest =
          run_before states t b e' (omega (arith, fits, skip)) (omega (arith, early, skip, now)) in
        let level : total_minted t.events ≡ total_minted s.events = ap total_minted same in
        omega (arith, rest, level)
    run_before (running ∷ states) s b e fits early =
        elim (Bool-cases (ltb (s.block_number + 1) (b + s.skipped_blocks))) [
          | inl more ↦
              let t = on_initialize c (s.block_number + 1) (record s { mint_state = running }) in
              let (e', skip, now, before, after) = running_step b s e (omega (arith, fits)) in
              let rest =
                run_before states t b e' (omega (arith, fits, skip)) (ground (arith, skip, now)) in
              let level : total_minted t.events ≡ total_minted s.events =
                ap total_minted (before (ground arith)) in
              omega (arith, rest, level)
          | inr first ↦
              run_bound (running ∷ states) s b 0 0 (c.halving_interval + c.halving_interval) e fits
                (ground arith) pos (omega arith)
        ]

    -- From a storage whose start block is not yet reached, whatever blocks follow and however minting
    -- is stopped and resumed between them, the amounts that the events name as minted grow by at most
    -- the configured total issuance, if the halving interval is positive, its double fits in 32 bits,
    -- and so do the start block, the skipped blocks and the blocks of the run together.
    pub run_within_issuance :
        (states : List MintState) (s : Storage W) (b : ℕ)
        → s.start_block ≡ some b
        → b + s.skipped_blocks + length states < 2 ^ 32
        → s.block_number < b
        → total_minted (run states s).events ≤ total_minted s.events + c.total_issuance
    unfolding halve
    run_within_issuance states s b e fits early =
        let most = run_before states s b e fits (omega (arith, early)) in
        let cap = div-mul-le_self c.total_issuance (c.halving_interval * 2) in
        let same : (c.halving_interval + c.halving_interval)
              * (c.total_issuance / (c.halving_interval * 2))
            ≡ c.total_issuance / (c.halving_interval * 2) * (c.halving_interval * 2) =
          let double : c.halving_interval + c.halving_interval ≡ c.halving_interval * 2 =
            omega arith in
          rw double (mul_comm _ _) in
        omega (arith, most, cap, same)
