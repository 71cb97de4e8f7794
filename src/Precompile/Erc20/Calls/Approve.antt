-- ===== src/Precompile/Erc20/Calls/Approve.antt =====
-- What an approval amounts to.
use can_bus.Base.{
  ℕ, ◌+◌, ◌-◌, ◌^◌, min, ◌≡◌, ◌≢◌, ◌==◌, ◌⊎◌, ◌∙◌, ap, Bool, true, Bool-cases, inl, inr, arith, ◌∷◌,
}
use can_bus.Frame.Call.{signed}
use can_bus.Precompile.Host.{
  Host, HostLaws, View, Evm, done, pure, ◌>>◌, >>=-eq-done, selector_log_approval,
}
use can_bus.Precompile.Erc20.Assets.{Assets, AssetsLaws}
use can_bus.Precompile.Erc20.Calls.{saturated, log_of, clean_approval, approve_inner, approve}

module _ {W : Type 0} (host : Host W) (assets : Assets W) (laws : HostLaws host)
    (promises : AssetsLaws assets) where
  open host use {Handle, caller, into_account_id, view}

  abbrev allowed : ℕ → ℕ → ℕ → Handle → ℕ
  allowed id owner spender h = assets.allowance id owner spender (view h).world

  -- Only one allowance and the storage around it change, and no log is written.
  record Sets (id owner spender n : ℕ) (h h' : Handle) : Type 0 where
    here : allowed id owner spender h' ≡ n
    others :
        (i o d : ℕ) → (i ≢ id) ⊎ ((o ≢ owner) ⊎ (d ≢ spender)) → allowed i o d h' ≡ allowed i o d h
    logs : (view h').logs ≡ (view h).logs

  clean_approval-Sets :
      (id owner spender : ℕ) (h h' : Handle)
      → clean_approval host assets id owner spender h ≡ (done tt, h')
      → Sets id owner spender 0 h h'
  unfolding clean_approval
  clean_approval-Sets id owner spender h h' e =
      elim (Bool-cases (allowed id owner spender h == 0)) [
        | inl zero_already ↦
            let same : h' ≡ h = ground arith in
            rw same (record {
              here = ground arith;
              others = λ i o d ne. ground arith;
              logs = ground arith;
            })
        | inr some_left ↦
            let runs : host.try_dispatch (assets.cancel_approval (signed owner) id spender) h
                ≡ (done tt, h') =
              ground arith in
            let (w, cancels, seen) = laws.dispatch_done _ h h' runs in
            let now : (view h').world ≡ w = ap (λ (v : View W). v.world) seen in
            record {
              here =
                  ap (assets.allowance id owner spender) now
                  ∙ (promises.cancel_clears id owner spender (view h).world w cancels);
              others = λ i o d ne.
                  ap (assets.allowance i o d) now
                  ∙ (promises.cancel_others id owner spender (view h).world w cancels i o d ne);
              logs = ap (λ (v : View W). v.logs) seen;
            }
      ]

  approve_transfer-Sets :
      (id owner spender n : ℕ) (h h' : Handle)
      → host.try_dispatch (assets.approve_transfer (signed owner) id spender n) h ≡ (done tt, h')
      → Sets id owner spender (allowed id owner spender h + n) h h'
  approve_transfer-Sets id owner spender n h h' e =
      let (w, approves, seen) = laws.dispatch_done _ h h' e in
      let now : (view h').world ≡ w = ap (λ (v : View W). v.world) seen in
      record {
        here =
            ap (assets.allowance id owner spender) now
            ∙ promises.approve_adds id owner spender n (view h).world w approves;
        others = λ i o d ne.
            ap (assets.allowance i o d) now
            ∙ promises.approve_others id owner spender n (view h).world w approves i o d ne;
        logs = ap (λ (v : View W). v.logs) seen;
      }

  Sets-trans :
      {id owner spender n : ℕ} {h t u : Handle}
      → Sets id owner spender 0 h t
      → Sets id owner spender (allowed id owner spender t + n) t u
      → Sets id owner spender n h u
  Sets-trans a b = record {
    here = omega (arith, a.here, b.here);
    others = λ i o d ne. b.others i o d ne ∙ a.others i o d ne;
    logs = b.logs ∙ a.logs;
  }

  -- Nothing but costs is recorded.
  Sets-view :
      {id owner spender n : ℕ} {h t u : Handle}
      → view t ≡ view h
      → Sets id owner spender n t u
      → Sets id owner spender n h u
  Sets-view same a = record {
    here = a.here;
    others =
        λ i o d ne. a.others i o d ne ∙ ap (λ (v : View W). assets.allowance i o d v.world) same;
    logs = a.logs ∙ ap (λ (v : View W). v.logs) same;
  }

  abbrev after_cleaning : ℕ → ℕ → ℕ → ℕ → Evm Handle (Unit {0})
  after_cleaning id owner spender n =
      host.try_dispatch (assets.approve_transfer (signed owner) id spender n)

  abbrev after_reading : ℕ → ℕ → ℕ → ℕ → Evm Handle (Unit {0})
  after_reading id owner spender n = do
    clean_approval host assets id owner spender
    after_cleaning id owner spender n

  approve_inner-Sets :
      (id owner spender value : ℕ) (h h' : Handle)
      → approve_inner host assets id owner spender value h ≡ (done tt, h')
      → Sets id (into_account_id owner) (into_account_id spender) (saturated value) h h'
  unfolding approve_inner
  approve_inner-Sets id owner spender value h h' e =
      let o = into_account_id owner in
      let s = into_account_id spender in
      let n = saturated value in
      let (_, t, reads, rest) =
        >>=-eq-done (host.record_db_read 148) (λ _. after_reading id o s n) h e in
      let (_, u, cleans, last) =
        >>=-eq-done (clean_approval host assets id o s) (λ _. after_cleaning id o s n) t rest in
      Sets-view (laws.db_read_view 148 h t (done tt) reads) (
        Sets-trans (clean_approval-Sets id o s t u cleans)
          (approve_transfer-Sets id o s n u h' last))

  abbrev log_approval : ℕ → ℕ → Evm Handle Bool
  log_approval spender value = do
    host.record_log (log_of host assets selector_log_approval caller spender value)
    pure true

  abbrev approve_and_log : ℕ → ℕ → ℕ → Evm Handle Bool
  approve_and_log id spender value = do
    approve_inner host assets id caller spender value
    log_approval spender value

  -- An approval that succeeds sets the spender's allowance to the value, or to 2^128 - 1 if the value
  -- is larger, whatever it was before; no other allowance changes; and one log is written, which
  -- names the value.
  pub approve_sets :
      (id spender value : ℕ) (h h' : Handle) (b : Bool)
      → approve host assets id spender value h ≡ (done b, h')
      → (b ≡ true)
        × (assets.allowance id (into_account_id caller) (into_account_id spender) (view h').world
            ≡ min value (2 ^ 128 - 1))
        × ((i o d : ℕ)
            → (i ≢ id) ⊎ ((o ≢ into_account_id caller) ⊎ (d ≢ into_account_id spender))
            → assets.allowance i o d (view h').world ≡ assets.allowance i o d (view h).world)
        × ((view h').logs
            ≡ log_of host assets selector_log_approval caller spender value ∷ (view h).logs)
  unfolding approve
  approve_sets id spender value h h' b e =
      let (_, t, costs, rest) =
        >>=-eq-done (host.record_log_costs_manual 3 32) (λ _. approve_and_log id spender value) h
          e in
      let (_, u, sets, rest') =
        >>=-eq-done (approve_inner host assets id caller spender value)
          (λ _. log_approval spender value) t rest in
      let (_, v, logs, last) =
        >>=-eq-done
          (host.record_log (log_of host assets selector_log_approval caller spender value))
          (λ _. pure true) u rest' in
      let d =
        Sets-view (laws.log_costs_view 3 32 h t (done tt) costs)
          (approve_inner-Sets id caller spender value t u sets) in
      let final : h' ≡ v = ground arith in
      let seen = ap view final ∙ laws.log_done _ u v logs in
      let now : (view h').world ≡ (view u).world = ap (λ (x : View W). x.world) seen in
      (
        ground arith,
        ap (assets.allowance id (into_account_id caller) (into_account_id spender)) now
            ∙ (d.here ∙ ground arith),
        (λ i o s ne. ap (assets.allowance i o s) now ∙ d.others i o s ne),
        ap (λ (x : View W). x.logs) seen
            ∙ ap (◌∷◌ (log_of host assets selector_log_approval caller spender value)) d.logs,
      )
