-- ===== src/Staking/Calls/Admission.antt =====
-- What `stake` has checked before it writes.
use can_bus.Base.{ℕ, ◌+◌, ◌≤◌, ◌<◌, ◌≡◌, ap, Option, none, some, Option-cases, inl, inr, arith}
use can_bus.Frame.Call.{ok, reads_cases}
use can_bus.Staking.Info.{StakingInfo, PoolSetting, end_time}
use can_bus.Staking.State.{Config}
use can_bus.Staking.Epoch.{get_epoch_index, get_epoch_begin_time}
use can_bus.Staking.Pending.Solve.{amount_of, staked}
use can_bus.Staking.Calls.{S, check_cap, effective_time_of, admit}

module _ (c : Config) where
  effective_time_of-state :
      (p now : ℕ) (setting : PoolSetting) (s : S c) → (effective_time_of c p setting now s).1 ≡ s
  unfolding effective_time_of get_epoch_index get_epoch_begin_time
  effective_time_of-state p now setting s = ground arith

  -- What `admit` has checked.
  pub record Admits (p amount now : ℕ) (s : S c) (found : ℕ × ℕ) : Type 0 where
    pub setting : PoolSetting
    pub ending : ℕ
    pub exists : s.pool_setting p ≡ some setting
    pub started : setting.start_time < now
    pub fits : staked p s + s.pending_amount p + amount ≤ setting.pool_cap
    pub pending : found.1 ≡ s.pending_amount p
    pub ends : end_time setting ≡ some ending
    pub effective : effective_time_of c p setting now s ≡ (ok found.0, s)
    pub before : found.0 < ending

  check_cap-fits :
      (setting : PoolSetting) (scp : Option StakingInfo) (pending amount : ℕ) (s : S c)
      → (check_cap c setting scp pending amount s).0 ≡ ok tt
      → amount_of scp + pending + amount ≤ setting.pool_cap
  unfolding check_cap
  check_cap-fits setting none pending amount s h = ground arith
  check_cap-fits setting (some x) pending amount s h = ground arith

  check_cap-state :
      (setting : PoolSetting) (scp : Option StakingInfo) (pending amount : ℕ) (s : S c)
      → (check_cap c setting scp pending amount s).1 ≡ s
  unfolding check_cap
  check_cap-state setting none pending amount s = ground arith
  check_cap-state setting (some x) pending amount s = ground arith

  -- The results of the three parts of `admit` that are functions of their own.
  module _ (p amount now : ℕ) (s t : S c) (found : ℕ × ℕ)
      (h : admit c p amount now s ≡ (ok found, t)) (st : PoolSetting)
      (e : s.pool_setting p ≡ some st) where
    admit_ending : (ending : ℕ) × (end_time st ≡ some ending)
    unfolding admit
    admit_ending = elim (Option-cases (end_time st)) [
      | inl x ↦ absurd (ground arith)
      | inr found ↦ found
    ]

    admit_checks :
        (check_cap c st (s.pool_checkpoint p) (s.pending_amount p) amount s ≡ (ok tt, s))
        × (st.start_time < now)
    unfolding admit
    admit_checks =
        let (ending, x) = admit_ending in
        elim (reads_cases (check_cap c st (s.pool_checkpoint p) (s.pending_amount p) amount s) s
          (check_cap-state st (s.pool_checkpoint p) (s.pending_amount p) amount s)) [
            | inl (_, passed) ↦ (passed, ground arith)
            | inr (y, failed) ↦ absurd (ground arith)
          ]

    admit_time : (b : ℕ) × (effective_time_of c p st now s ≡ (ok b, s))
    unfolding admit
    admit_time =
        let (ending, x) = admit_ending in
        let (passed, begun) = admit_checks in
        elim (reads_cases (effective_time_of c p st now s) s (effective_time_of-state p now st s)) [
          | inl found ↦ found
          | inr (y, failed) ↦ absurd (ground arith)
        ]

    admit_ends :
        (b ending : ℕ)
        → check_cap c st (s.pool_checkpoint p) (s.pending_amount p) amount s ≡ (ok tt, s)
        → effective_time_of c p st now s ≡ (ok b, s)
        → end_time st ≡ some ending
        → b < ending
    unfolding admit
    admit_ends b ending passed ran x = ground arith

    admit_value :
        (b ending : ℕ)
        → check_cap c st (s.pool_checkpoint p) (s.pending_amount p) amount s ≡ (ok tt, s)
        → effective_time_of c p st now s ≡ (ok b, s)
        → end_time st ≡ some ending
        → (t ≡ s) × (found ≡ (b, s.pending_amount p))
    unfolding admit
    admit_value b ending passed ran x = ground arith

  admit_setting :
      (p amount now : ℕ) (s t : S c) (found : ℕ × ℕ)
      → admit c p amount now s ≡ (ok found, t)
      → (st : PoolSetting) × (s.pool_setting p ≡ some st)
  unfolding admit
  admit_setting p amount now s t found h = elim (Option-cases (s.pool_setting p)) [
    | inl e ↦ absurd (ground arith)
    | inr some_setting ↦ some_setting
  ]

  -- Where `admit` succeeds the storage is as it was, the pool exists and has started, the amount fits
  -- under the cap with what is staked and what is pending, and the effective time that it returns, with
  -- the pending amount, lies before the pool's end.
  pub admit-Admits :
      (p amount now : ℕ) (s t : S c) (found : ℕ × ℕ)
      → admit c p amount now s ≡ (ok found, t)
      → (t ≡ s) × Admits p amount now s found
  admit-Admits p amount now s t found h =
      let (st, e) = admit_setting p amount now s t found h in
      let (ending, x) = admit_ending p amount now s t found h st e in
      let (b, ran) = admit_time p amount now s t found h st e in
      let (passed, begun) = admit_checks p amount now s t found h st e in
      let soon = admit_ends p amount now s t found h st e b ending passed ran x in
      let (same, is) = admit_value p amount now s t found h st e b ending passed ran x in
      (
        same,
        record {
          setting = st;
          ending = ending;
          exists = e;
          started = begun;
          fits =
              check_cap-fits st (s.pool_checkpoint p) (s.pending_amount p) amount s
                (ap (λ r. r.0) passed);
          pending = ap (λ f. f.1) is;
          ends = x;
          effective = rw (ap (λ f. f.0) is) ran;
          before = omega (arith, soon, ap (λ f. f.0) is);
        },
      )
