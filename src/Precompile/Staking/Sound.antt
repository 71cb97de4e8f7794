-- ===== src/Precompile/Staking/Sound.antt =====
-- The soundness of the staking storage, seen from the precompile.
use mathlib.Core.Path.{subst}
use can_bus.Base.{◌≡◌, ap, inl, inr, sym, ◌∙◌}
use can_bus.Frame.Call.{signed, Result}
use can_bus.Staking.State.{Storage, Config}
use can_bus.Staking.Calls.{dispatch}
use can_bus.Staking.Calls.Soundness.{IsSound}
use can_bus.Staking.Calls.Invariant.{dispatch-IsSound}
use can_bus.Precompile.Host.{Host, HostLaws, View}
use can_bus.Precompile.Staking.Calls.{Method, run}
use can_bus.Precompile.Staking.Calls.Refines.{request_of, run_refines}

module _ (c : Config) (host : Host (Storage c.tokens.World)) where
  open host use {Handle, caller, into_account_id, view}

  abbrev world : View (Storage c.tokens.World) → Storage c.tokens.World
  world v = v.world

  -- A method of the precompile, whatever its arguments and whether it succeeds or fails, keeps the
  -- storage of the staking pallet sound.
  pub run-IsSound :
      (laws : HostLaws host) (m : Method) (h : Handle)
      → IsSound c (view h).world
      → IsSound c (view (run c host m h).1).world
  run-IsSound laws m h v = elim (run_refines c host laws m h) [
    | inr (_, same) ↦ subst (IsSound c) (sym (ap world same)) v
    | inl (_, (w, runs, after)) ↦
        let kept =
          dispatch-IsSound c (signed (into_account_id caller)) (request_of m) (view h).world v in
        let end : (dispatch c (signed (into_account_id caller)) (request_of m) (view h).world).1
            ≡ w =
          ap (λ (r : Result (Unit {0}) × Storage c.tokens.World). r.1) runs in
        subst (IsSound c) (end ∙ sym (ap world after)) kept
  ]
