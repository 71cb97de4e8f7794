-- ===== src/Staking/Solvency/Natives.antt =====
-- The native stake of a user covers what it has active and waiting in all pools, and the native stake of
-- all covers the users', whatever call is made.
use can_bus.Base.{
  ℕ, ◌+◌, ◌≤◌, ◌≡◌, ◌≢◌, ◌⊎◌, ◌==◌, ap, inl, inr, [], Bool-cases, Option-cases, none, some, Covers,
  Covers-shift, Covers-le, Covers-one, arith,
}
use can_bus.Frame.Call.{ok, modify, >>=-eq-ok}
use can_bus.Staking.Info.{StakingInfo, withdraw}
use can_bus.Staking.State.{Config, Storage}
use can_bus.Staking.Pending.{mix, do_native_add, solve_from, solve_pending}
use can_bus.Staking.Pending.Queue.{Queue, user_queued}
use can_bus.Staking.Pending.Solve.{amount_of, user_staked, mix-amount, solve_from-Settles}
use can_bus.Staking.Claim.{do_withdraw, withdraw_with, withdraw_native, withdraw_user_native}
use can_bus.Staking.Calls.{S, place}
use can_bus.Staking.Ledger.{IsCovered}
use can_bus.Staking.Ledger.Moves.{Rests, do_withdraw-Withdraws}
use can_bus.Staking.Ledger.Refines.{place-Joins}

module _ {W : Type 0} where
  -- What a user has in a pool, active and waiting.
  abbrev pub committed : ℕ → ℕ → Storage W → ℕ
  committed a p s = user_staked a p s + user_queued a p s.pending_setup

  abbrev pub native_of : ℕ → Storage W → ℕ
  native_of a s = amount_of (s.user_native_checkpoint a)

  abbrev pub native_total : Storage W → ℕ
  native_total s = amount_of s.native_checkpoint

  -- The native stake of a user covers what it has in any pools, and the native stake of all covers the
  -- native stakes of any users.
  pub record IsMatched (s : Storage W) : Type 0 where
    pub by_user : (a : ℕ) → Covers (λ p. committed a p s) (native_of a s)
    pub by_all : Covers (λ a. native_of a s) (native_total s)

  -- Everything is at most as it was, and the native stakes are as they were.
  record Levels (s s' : Storage W) : Type 0 where
    commits : (a p : ℕ) → committed a p s' ≤ committed a p s
    native : (a : ℕ) → native_of a s' ≡ native_of a s
    total : native_total s' ≡ native_total s

  Levels-IsMatched : (s s' : Storage W) → Levels s s' → IsMatched s → IsMatched s'
  Levels-IsMatched s s' d v = record {
    by_user = λ a.
        Covers-le (λ p. committed a p s) (λ p. committed a p s') (native_of a s) (native_of a s')
          (d.commits a) (omega (arith, d.native a)) (v.by_user a);
    by_all =
        Covers-le (λ a. native_of a s) (λ a. native_of a s') (native_total s) (native_total s')
          (λ a. omega (arith, d.native a)) (omega (arith, d.total)) v.by_all;
  }

  -- What `who` has in pool `p` changes by `gain` and `out`, and its native stake and that of all with it.
  pub record Shifts (who p out gain : ℕ) (s s' : Storage W) : Type 0 where
    here : committed who p s' + out ≤ committed who p s + gain
    native : native_of who s' + out ≡ native_of who s + gain
    total : native_total s' + out ≡ native_total s + gain
    others : (a q : ℕ) → (a ≢ who) ⊎ (q ≢ p) → committed a q s' ≤ committed a q s
    other_natives : (a : ℕ) → a ≢ who → native_of a s' ≡ native_of a s

  Shifts-by_user :
      (who p out gain : ℕ) (s s' : Storage W)
      → Shifts who p out gain s s'
      → IsMatched s
      → (a : ℕ) → Covers (λ q. committed a q s') (native_of a s')
  Shifts-by_user who p out gain s s' d v a = elim (Bool-cases (a == who)) [
    | inl e ↦
        let same : a ≡ who = ground arith in
        rw same (
          Covers-shift (λ q. committed who q s) (λ q. committed who q s') p out gain d.here
            (λ q ne. d.others who q (inr ne)) (native_of who s) (native_of who s')
            (omega (arith, d.native)) (v.by_user who))
    | inr e ↦
        let other : a ≢ who = λ k. ground arith in
        Covers-le (λ q. committed a q s) (λ q. committed a q s') (native_of a s) (native_of a s')
          (λ q. d.others a q (inl other)) (omega (arith, d.other_natives a other)) (v.by_user a)
  ]

  pub Shifts-IsMatched :
      (who p out gain : ℕ) (s s' : Storage W)
      → Shifts who p out gain s s'
      → IsMatched s
      → IsMatched s'
  Shifts-IsMatched who p out gain s s' d v = record {
    by_user = Shifts-by_user who p out gain s s' d v;
    by_all =
        Covers-shift (λ a. native_of a s) (λ a. native_of a s') who out gain
          (omega (arith, d.native)) (λ a ne. omega (arith, d.other_natives a ne)) (native_total s)
          (native_total s') (omega (arith, d.total)) v.by_all;
  }

  pub solve_pending-IsMatched :
      (n : ℕ) (s s' : Storage W) → solve_pending n s ≡ (ok tt, s') → IsMatched s → IsMatched s'
  unfolding solve_pending
  solve_pending-IsMatched n s s' h v =
      let taken : Storage W = record s { pending_setup = [] } in
      let put = λ (left : Queue). λ (t : Storage W). record t { pending_setup = left } in
      let (left, t, loop, last) =
        >>=-eq-ok (solve_from n s.pending_setup) (λ left. modify (put left)) taken h in
      let d = (solve_from-Settles n s.pending_setup left taken t loop).0 in
      let final : s' ≡ put left t = ground arith in
      rw final (
        Levels-IsMatched s (put left t)
          (record {
            commits = λ a p. omega (arith, d.user a p);
            native = λ a. ap (λ m. amount_of (m a)) d.user_native;
            total = ap amount_of d.native;
          })
          v)

module _ (c : Config) where
  open c use {tokens}

  pub Rests-IsMatched : (s s' : S c) → Rests c s s' → IsMatched s → IsMatched s'
  Rests-IsMatched s s' d = Levels-IsMatched s s' (record {
    commits = λ a p. ground (arith, d.user a p, d.queue);
    native = d.user_native;
    total = d.native;
  })

  place-natives :
      (who p amount now b pending : ℕ) (s s' : S c)
      → place c who p amount now (b, pending) s ≡ (ok tt, s')
      → (all user : StakingInfo) × (mix s.native_checkpoint now amount ≡ some all)
        × (mix (s.user_native_checkpoint who) now amount ≡ some user)
        × (s'.native_checkpoint ≡ some all)
        × (s'.user_native_checkpoint who ≡ some user)
        × ((a : ℕ) → a ≢ who → s'.user_native_checkpoint a ≡ s.user_native_checkpoint a)
  unfolding place do_native_add
  place-natives who p amount now b pending s s' h =
      elim (Option-cases (mix s.native_checkpoint now amount)) [
        | inl e ↦ absurd (ground arith)
        | inr (all, e) ↦ elim (Option-cases (mix (s.user_native_checkpoint who) now amount)) [
          | inl f ↦ absurd (ground arith)
          | inr (user, f) ↦ (all, user, e, f, ground arith, ground arith, λ a ne. ground arith)
        ]
      ]

  pub place-Shifts :
      (who p amount now b pending : ℕ) (s s' : S c)
      → place c who p amount now (b, pending) s ≡ (ok tt, s')
      → Shifts who p 0 amount s s'
  place-Shifts who p amount now b pending s s' h =
      let (joins, _) = place-Joins c who p amount now b pending s s' h in
      let (all, user, e, f, is_all, is_user, others) =
        place-natives who p amount now b pending s s' h in
      let more = mix-amount _ _ _ all e in
      let user_more = mix-amount _ _ _ user f in
      record {
        here = omega (arith, joins.active who p, joins.waiting);
        native = omega (arith, ap amount_of is_user, user_more);
        total = omega (arith, ap amount_of is_all, more);
        others = λ a q ne. omega (arith, joins.active a q, joins.others a q ne);
        other_natives = λ a ne. ap amount_of (others a ne);
      }

  do_withdraw-natives :
      (who p : ℕ) (s s' : S c)
      → do_withdraw c who p s ≡ (ok tt, s')
      → (s.pool_checkpoint p ≡ none → user_staked who p s ≡ 0)
      → user_staked who p s ≤ native_of who s
      → user_staked who p s ≤ native_total s
      → (native_of who s' + user_staked who p s ≡ native_of who s)
        × (native_total s' + user_staked who p s ≡ native_total s)
        × ((a : ℕ) → a ≢ who → native_of a s' ≡ native_of a s)
  unfolding do_withdraw withdraw_with withdraw_native withdraw_user_native withdraw
  do_withdraw-natives who p s s' h covered fits within =
      (ground arith, ground arith, λ a ne. ground arith)

  pub do_withdraw-Shifts :
      (who p : ℕ) (s s' : S c)
      → do_withdraw c who p s ≡ (ok tt, s')
      → IsCovered s
      → IsMatched s
      → Shifts who p (user_staked who p s) 0 s s'
  do_withdraw-Shifts who p s s' h covered v =
      let d = do_withdraw-Withdraws c who p s s' h covered in
      let fits = Covers-one (λ q. committed who q s) (native_of who s) p (v.by_user who) in
      let within = Covers-one (λ a. native_of a s) (native_total s) who v.by_all in
      let (native, total, others) =
        do_withdraw-natives who p s s' h (λ e. ap amount_of (covered who p e)) (omega (arith, fits))
          (omega (arith, fits, within)) in
      record {
        here = ground (arith, d.gone, d.queue);
        native = omega (arith, native);
        total = omega (arith, total);
        others = λ a q ne. ground (arith, d.others a q ne, d.queue);
        other_natives = others;
      }
