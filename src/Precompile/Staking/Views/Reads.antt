-- ===== src/Precompile/Staking/Views/Reads.antt =====
-- What the reading methods answer.
use can_bus.Base.{
  ℕ, ◌^◌, ◌<◌, ◌≡◌, ◌∙◌, sym, ap, ltb, Bool-cases, Option-cases, inl, inr, some, arith,
}
use can_bus.Staking.Info.{PoolSetting}
use can_bus.Staking.State.{Storage}
use can_bus.Precompile.Host.{Host, HostLaws, View, done, evm_cases}
use can_bus.Precompile.Staking.Views.{PrecompilePoolSetting, staking_pool_setting}

module _ {W : Type 0} (host : Host (Storage W)) (laws : HostLaws host) where
  open host use {Handle, into_account_id, view}

  -- Where the host obeys its laws and the answer to a question for a pool's setting comes: the pool's number
  -- has 128 bits and the pool exists; all fields are the pool's but the number of epochs, in whose place
  -- the start time stands; and nothing that is seen of the host changes.
  pub staking_pool_setting_answer :
      (pool : ℕ) (r : PrecompilePoolSetting) (h h' : Handle)
      → staking_pool_setting host pool h ≡ (done r, h')
      → (pool < 2 ^ 128)
        × ((setting : PoolSetting) × ((view h).world.pool_setting pool ≡ some setting)
            × (r.start_time ≡ setting.start_time)
            × (r.epoch_range ≡ setting.epoch_range)
            × (r.setup_time ≡ setting.setup_time)
            × (r.pool_cap ≡ setting.pool_cap)
            × (r.epoch ≡ setting.start_time))
        × (view h' ≡ view h)
  unfolding staking_pool_setting
  staking_pool_setting_answer pool r h h' e = elim (evm_cases (host.record_db_read 68 h)) [
    | inr (x, t, f) ↦ absurd (ground arith)
    | inl (u, t, f) ↦ elim (Bool-cases (ltb pool (2 ^ 128))) [
      | inr g ↦ absurd (ground arith)
      | inl g ↦
          let quiet = laws.db_read_view 68 h t (done u) f in
          let stored = λ (v : View (Storage W)). v.world.pool_setting pool in
          elim (Option-cases (stored (view t))) [
            | inl k ↦ absurd (ground arith)
            | inr (setting, k) ↦
                let same : h' ≡ t = ground arith in
                (
                  ground arith,
                  (
                    setting,
                    sym (ap stored quiet) ∙ k,
                    ground arith,
                    ground arith,
                    ground arith,
                    ground arith,
                    ground arith,
                  ),
                  ap view same ∙ quiet,
                )
          ]
    ]
  ]
