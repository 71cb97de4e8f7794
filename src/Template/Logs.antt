-- ===== src/Template/Logs.antt =====
-- What a contract's call of `doSomething` leaves.
use can_bus.Base.{ℕ, ◌≡◌, ◌∙◌, ap, some, ◌∷◌, arith}
use can_bus.Frame.Call.{signed, ok}
use can_bus.Precompile.Host.{Host, HostLaws, View, done, ◌>>◌, >>=-eq-done}
use can_bus.Template as Pallet
use can_bus.Template.{something_stored}
use can_bus.Template.Precompile.{do_something_inner, do_something, log_something}

stored :
    (who something : ℕ) (s t : Pallet.Storage)
    → Pallet.do_something (signed who) something s ≡ (ok tt, t)
    → t ≡ record { something = some something; events = something_stored something who ∷ s.events }
unfolding Pallet.do_something
stored who something s t e = ground arith

module _ (host : Host Pallet.Storage) (laws : HostLaws host) where
  open host use {Handle, caller, into_account_id, view}

  -- Where the host obeys its laws, a call of `doSomething` that succeeds stores the value, with the event of the pallet that
  -- names the account of the caller, and adds one log, of the value and the caller.
  pub do_something_stores :
      (something : ℕ) (h h' : Handle)
      → do_something host something h ≡ (done tt, h')
      → view h' ≡ record {
        world = record {
          something = some something;
          events = something_stored something (into_account_id caller) ∷ (view h).world.events;
        };
        logs = log_something host something ∷ (view h).logs;
      }
  unfolding do_something do_something_inner
  do_something_stores something h h' e =
      let who = into_account_id caller in
      let (_, t, calls, rest) =
        >>=-eq-done (host.try_dispatch (Pallet.do_something (signed who) something))
          (λ _. host.record_log_costs_manual 2 4 >> host.record_log (log_something host something))
          h e in
      let (_, u, costs, logs) =
        >>=-eq-done (host.record_log_costs_manual 2 4)
          (λ _. host.record_log (log_something host something)) t rest in
      let (w, ran, first) =
        laws.dispatch_done (Pallet.do_something (signed who) something) h t calls in
      let after = stored who something (view h).world w ran in
      let second = laws.log_costs_view 2 4 t u (done tt) costs in
      laws.log_done (log_something host something) u h' logs
      ∙ ap (λ (v : View Pallet.Storage). record v { logs = log_something host something ∷ v.logs })
          (second ∙ (first ∙ ap (λ w. record (view h) { world = w }) after))
