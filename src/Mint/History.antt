-- ===== src/Mint/History.antt =====
-- The calls and blocks of pallets/halving-mint/src/lib.rs in any order.
use can_bus.Base.{
  ℕ, zero, suc, ◌+◌, ◌*◌, ◌^◌, ◌≤◌, ◌<◌, ◌≡◌, ◌∙◌, ap, refl, some, List, [], ◌∷◌, ◌++◌, length,
  arith,
}
use can_bus.Frame.Call.{Origin, ok, transactional-keeps}
use can_bus.Mint.State.{MintState, Storage, Config}
use can_bus.Mint.Calls.{
  mint_block, mint_or_skip, on_initialize, Request, call_of, dispatch, set_mint_state,
  set_on_token_minted_state, start_mint_from_block, start_mint_from_next_block, set_mint_states,
  set_on_token_minted_states, start_mint_from_next_blocks, start_mint_from_blocks,
}
use can_bus.Mint.Supply.{run, total_minted, run_within_issuance}

module _ {W : Type 0} (c : Config W) where
  -- Calls by whatever origins, and `k` blocks, each the next one.
  pub data Leads (s : Storage W) : ℕ → Storage W → Type 0 where
    here : Leads s zero s
    calls :
        {k : ℕ} {t : Storage W}
        → Leads s k t
        → (o : Origin) (r : Request) → Leads s k (dispatch o r t).1
    blocks :
        {k : ℕ} {t : Storage W}
        → Leads s k t
        → Leads s (suc k) (on_initialize c (t.block_number + 1) t)

  -- Two storages that mint alike once their states of minting do.
  record Agrees (b : ℕ) (t u : Storage W) : Type 0 where
    number : t.block_number ≡ u.block_number
    started : t.start_block ≡ some b
    also_started : u.start_block ≡ some b
    skipped : t.skipped_blocks ≡ u.skipped_blocks
    total : total_minted t.events ≡ total_minted u.events

  call_of-Agrees :
      (b : ℕ) (o : Origin) (r : Request) (t t' u : Storage W)
      → call_of o r t ≡ (ok tt, t')
      → Agrees b t u
      → Agrees b t' u
  unfolding set_mint_state set_on_token_minted_state start_mint_from_block
      start_mint_from_next_block
  call_of-Agrees b o (set_mint_states x) t t' u h d = record {
    number = ground (arith, d.number);
    started = ground (arith, d.started);
    also_started = d.also_started;
    skipped = ground (arith, d.skipped);
    total = ground (arith, d.total);
  }
  call_of-Agrees b o (set_on_token_minted_states x) t t' u h d = record {
    number = ground (arith, d.number);
    started = ground (arith, d.started);
    also_started = d.also_started;
    skipped = ground (arith, d.skipped);
    total = ground (arith, d.total);
  }
  call_of-Agrees b o start_mint_from_next_blocks t t' u h d = absurd (ground (arith, d.started))
  call_of-Agrees b o (start_mint_from_blocks n) t t' u h d = absurd (ground (arith, d.started))

  dispatch-Agrees :
      (b : ℕ) (o : Origin) (r : Request) (t u : Storage W)
      → Agrees b t u
      → Agrees b (dispatch o r t).1 u
  unfolding dispatch
  dispatch-Agrees b o r t u d =
      transactional-keeps (λ v. Agrees b v u) (call_of o r) t
        (λ a v h. call_of-Agrees b o r t v u h d) d

  on_initialize-Agrees :
      (b n : ℕ) (t u : Storage W)
      → t.mint_state ≡ u.mint_state
      → Agrees b t u
      → Agrees b (on_initialize c n t) (on_initialize c n u)
  unfolding on_initialize mint_or_skip mint_block
  on_initialize-Agrees b n t u e d = record {
    number = ground (arith, d.started, d.also_started);
    started = ground (arith, d.started);
    also_started = ground (arith, d.also_started);
    skipped = ground (arith, d.started, d.also_started, d.skipped);
    total = ground (arith, d.started, d.also_started, d.skipped, d.total);
  }

  run-append :
      (states : List MintState) (x : MintState) (s : Storage W)
      → run c (states ++ x ∷ []) s
        ≡ on_initialize c
            ((run c states s).block_number + 1)
            (record (run c states s) { mint_state = x })
  run-append [] x s = refl
  run-append (y ∷ states) x s =
      run-append states x (on_initialize c (s.block_number + 1) (record s { mint_state = y }))

  length-append :
      (states : List MintState) (x : MintState) → length (states ++ x ∷ []) ≡ suc (length states)
  length-append [] x = refl
  length-append (y ∷ states) x = ap suc (length-append states x)

  -- The run that mints what a path does.
  simulates :
      (b : ℕ) (s : Storage W)
      → s.start_block ≡ some b
      → (k : ℕ) (t : Storage W) → Leads s k t
      → (states : List MintState) × (length states ≡ k) × Agrees b t (run c states s)
  simulates b s e k t here = (
    [],
    refl,
    record { number = refl; started = e; also_started = e; skipped = refl; total = refl },
  )
  simulates b s e k t (calls {t = v} path o r) =
      let (states, long, d) = simulates b s e k v path in
      (states, long, dispatch-Agrees b o r v (run c states s) d)
  simulates b s e k t (blocks {k = j} {t = v} path) =
      let (states, long, d) = simulates b s e j v path in
      let u : Storage W = record (run c states s) { mint_state = v.mint_state } in
      let step = on_initialize-Agrees b (v.block_number + 1) v u refl (record {
        number = d.number;
        started = d.started;
        also_started = d.also_started;
        skipped = d.skipped;
        total = d.total;
      }) in
      let same : run c (states ++ v.mint_state ∷ []) s ≡ on_initialize c (v.block_number + 1) u =
        rw d.number (run-append states v.mint_state s) in
      (states ++ v.mint_state ∷ [], length-append states v.mint_state ∙ ap suc long, rw same step)

  -- From a storage whose start block is set and not yet reached, over any calls by whatever origins and any
  -- blocks one after another, the amounts that the events name as minted grow by at most the configured
  -- total issuance, and the start block stays, if the halving interval is positive, its double fits in 32
  -- bits, and so do the start block, the skipped blocks and the number of the blocks together.
  pub path_within_issuance :
      0 < c.halving_interval
      → c.halving_interval * 2 < 2 ^ 32
      → (b k : ℕ) (s t : Storage W) → s.start_block ≡ some b
      → b + s.skipped_blocks + k < 2 ^ 32
      → s.block_number < b
      → Leads s k t
      → (total_minted t.events ≤ total_minted s.events + c.total_issuance)
        × (t.start_block ≡ some b)
  path_within_issuance pos fit b k s t e fits early path =
      let (states, long, d) = simulates b s e k t path in
      let most = run_within_issuance c pos fit states s b e (omega (arith, fits, long)) early in
      (omega (arith, most, d.total), d.started)
