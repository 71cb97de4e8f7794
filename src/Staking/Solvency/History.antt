-- ===== src/Staking/Solvency/History.antt =====
-- What may happen to the staking pallet over time, and what it holds and owes all along.
use can_bus.Base.{
  none, ℕ, ◌+◌, ◌≤◌, ◌≡◌, ap, [], ◌∷◌, List, leb, Bool-cases, inl, inr, IsDistinct, sum_of,
  Covers-one, Covers-zero, arith,
}
use can_bus.Frame.Call.{Result, Origin, ok}
use can_bus.Frame.Tokens.{TokenLaws, TransferLaws}
use can_bus.Frame.Perquintill.{PerquintillLaws}
use can_bus.Staking.State.{Config}
use can_bus.Staking.Pending.{begin_block, begin_block_with, solve_pending}
use can_bus.Staking.Pending.Queue.{Queue, time_of}
use can_bus.Staking.Pending.Solve.{staked, user_staked}
use can_bus.Staking.Calls.{S, Request, dispatch, on_initialize}
use can_bus.Staking.Solvency.{owed, pot, IsSolvent, Rests-IsSolvent}
use can_bus.Staking.Solvency.Stakes.{solve_pending-Rests}
use can_bus.Staking.Solvency.Invariant.{IsOutside, IsFirst, dispatch-IsSolvent}
use can_bus.Staking.Solvency.Natives.{
  committed, native_of, native_total, IsMatched, solve_pending-IsMatched,
}
use can_bus.Staking.Solvency.Matching.{dispatch-IsMatched}
use can_bus.Staking.Solvency.Backing.{IsBacked, solve_pending-IsBacked, dispatch-IsBacked}

module _ (c : Config) where
  open c use {tokens}

  pub data Step : S c → S c → Type 0 where
    calls :
        (o : Origin) (r : Request) (s : S c)
        → IsOutside c o
        → IsFirst c r s
        → Step s (dispatch c o r s).1
    -- A block in which what is due can be settled.
    blocks :
        (n : ℕ) (s : S c)
        → (solve_pending n (record s { block_number = n })).0 ≡ ok tt
        → Step s (on_initialize n s)
    -- The storage is written by this pallet alone; other pallets take no stable tokens from its account.
    others :
        (w : tokens.World) (s : S c)
        → pot c s ≤ pot c (record s { world = w })
        → Step s (record s { world = w })

  pub data Reaches (s : S c) : S c → Type 0 where
    here : Reaches s s
    next : {t u : S c} → Reaches s t → Step t u → Reaches s u

  -- What holds all along.
  pub record IsFunded (s : S c) : Type 0 where
    pub solvent : IsSolvent c s
    pub backed : IsBacked s
    pub matched : IsMatched s

  -- Where nothing is staked, waits or is unclaimed.
  pub empty-IsFunded :
      (s : S c)
      → ((p : ℕ) → s.pool_checkpoint p ≡ none)
      → ((a p : ℕ) → s.user_pool_checkpoint a p ≡ none)
      → ((a : ℕ) → s.user_native_checkpoint a ≡ none)
      → s.pending_setup ≡ []
      → ((p : ℕ) → s.pending_amount p ≡ 0)
      → ((p : ℕ) → s.pool_reward p ≡ 0)
      → IsFunded s
  empty-IsFunded s pools users natives queue pending rewards = record {
    solvent = record {
      covered =
          Covers-zero (λ p. owed p s) (pot c s)
            (λ p. ground (arith, pools p, pending p, rewards p));
      bounded = λ p. ground (arith, rewards p);
    };
    backed = record {
      backed =
          λ p. Covers-zero (λ a. user_staked a p s) (staked p s) (λ a. ground (arith, users a p));
      covered = λ a p e. users a p;
    };
    matched = record {
      by_user = λ a.
          Covers-zero (λ p. committed a p s) (native_of a s)
            (λ p. ground (arith, users a p, queue));
      by_all = Covers-zero (λ a. native_of a s) (native_total s) (λ a. ground (arith, natives a));
    };
  }

  begin_block_with-IsFunded :
      (q : Queue) (n : ℕ) (s : S c)
      → (solve_pending n s).0 ≡ ok tt
      → IsFunded s
      → IsFunded (begin_block_with q n s)
  begin_block_with-IsFunded [] n s ran v = v
  begin_block_with-IsFunded (x ∷ q) n s ran v = elim (Bool-cases (leb (time_of x) n)) [
    | inr early ↦ rw early v
    | inl due ↦
        let t = (solve_pending n s).1 in
        let settles = ap (λ (r : Result (Unit {0})). (r, t)) ran in
        rw due (record {
          solvent = Rests-IsSolvent c (solve_pending-Rests c n s t settles) v.solvent;
          backed = solve_pending-IsBacked n s t settles v.backed;
          matched = solve_pending-IsMatched n s t settles v.matched;
        })
  ]

  in_block : (n : ℕ) (s : S c) → IsFunded s → IsFunded (record s { block_number = n })
  in_block n s v = record {
    solvent = record { covered = v.solvent.covered; bounded = v.solvent.bounded };
    backed = record { backed = v.backed.backed; covered = v.backed.covered };
    matched = record { by_user = v.matched.by_user; by_all = v.matched.by_all };
  }

module _ (c : Config) (laws : PerquintillLaws c.perquintill) (mints : TokenLaws c.tokens)
    (transfers : TransferLaws c.tokens) where
  Step-IsFunded : {s t : S c} → Step c s t → IsFunded c s → IsFunded c t
  unfolding on_initialize begin_block
  Step-IsFunded (calls o r s out first) v = record {
    solvent = dispatch-IsSolvent c laws mints transfers o r s out first v.solvent;
    backed = dispatch-IsBacked c o r s v.backed;
    matched = dispatch-IsMatched c o r s v.backed.covered v.matched;
  }
  Step-IsFunded (blocks n s ran) v =
      begin_block_with-IsFunded c s.pending_setup n (record s { block_number = n }) ran
        (in_block c n s v)
  Step-IsFunded (others w s more) v = record {
    solvent =
        Rests-IsSolvent c (record { owes = λ q. omega arith; held = more; small = λ q e. e })
          v.solvent;
    backed = record { backed = v.backed.backed; covered = v.backed.covered };
    matched = record { by_user = v.matched.by_user; by_all = v.matched.by_all };
  }

  pub Reaches-IsFunded : {s t : S c} → Reaches c s t → IsFunded c s → IsFunded c t
  Reaches-IsFunded here v = v
  Reaches-IsFunded (next before step) v = Step-IsFunded step (Reaches-IsFunded before v)

  -- If the fractions are at most one, and minting and transferring do what their documentation says,
  -- after any calls by signers other than the account in which the pallet keeps the stable tokens, by
  -- root or unsigned, in which the asset is registered only where there is none, any blocks in which
  -- what is due can be settled, and whatever other pallets do without taking stable tokens from that account:
  -- what is staked in any different pools, what waits for them and their unclaimed rewards are together
  -- at most what the account holds, and the stakes of any different users of a pool, with what waits for
  -- it and its unclaimed reward, are too, if at first the pallet held all it owed, the stake of each pool
  -- covered its users', and native stakes covered what users had in the pools.
  pub all_is_held :
      (s t : S c)
      → Reaches c s t
      → IsFunded c s
      → ((pools : List ℕ) → IsDistinct pools → sum_of (λ p. owed p t) pools ≤ pot c t)
        × ((p : ℕ) (users : List ℕ)
            → IsDistinct users
            → sum_of (λ a. user_staked a p t) users + t.pending_amount p + t.pool_reward p
              ≤ pot c t)
  all_is_held s t path v =
      let end = Reaches-IsFunded path v in
      (
        end.solvent.covered,
        λ p users d. omega (
          arith,
          end.backed.backed p users d,
          Covers-one (λ q. owed q t) (pot c t) p end.solvent.covered,
        ),
      )
