-- ===== src/Precompile/Staking/Calls/Refines.antt =====
-- The methods beside the calls of the pallet that they stand for.
use can_bus.Base.{◌^◌, ◌<◌, ◌≡◌, ◌⊎◌, ◌∙◌, refl, ap, ltb, Bool-cases, inl, inr, arith}
use can_bus.Frame.Call.{signed, ok}
use can_bus.Staking.State.{Storage, Config}
use can_bus.Staking.Calls.{
  Request, dispatch, stakes, solve_pending_stakes, claim_natives, claim_stables, withdraws,
}
use can_bus.Precompile.Host.{
  Host, HostLaws, EvmResult, PrecompileFailure, done, failed, revert, value_is_too_large,
  pool_index_type, balance_type, block_number_type, evm_cases,
}
use can_bus.Precompile.Staking.Calls.{
  dispatch_as_caller, stake, solve_pending_stake, claim_native, claim_stable, withdraw, Method,
  stakes_of, solves, claims_native, claims_stable, withdraws_from, run,
}

-- The call of the pallet that a method stands for.
abbrev pub request_of : Method → Request
request_of (stakes_of pool amount) = stakes pool amount
request_of solves = solve_pending_stakes
request_of (claims_native until_time) = claim_natives until_time
request_of (claims_stable pool until_time) = claim_stables pool until_time
request_of (withdraws_from pool) = withdraws pool

-- The arguments fit into the types of the call.
abbrev pub Fits : Method → Type 0
Fits (stakes_of pool amount) = (pool < 2 ^ 128) × (amount < 2 ^ 128)
Fits solves = Unit
Fits (claims_native until_time) = until_time < 2 ^ 32
Fits (claims_stable pool until_time) = (pool < 2 ^ 128) × (until_time < 2 ^ 32)
Fits (withdraws_from pool) = pool < 2 ^ 128

abbrev pub Refused : {A : Type 0} → EvmResult A → Type 0
Refused r = (e : PrecompileFailure) × (r ≡ failed e)

module _ (c : Config) (host : Host (Storage c.tokens.World)) where
  open host use {Handle, caller, into_account_id, view}

  -- Either the arguments fit and the method dispatches, or it fails where it stands.
  run_cases :
      (m : Method) (h : Handle)
      → (Fits m × (run c host m h ≡ dispatch_as_caller c host (request_of m) h))
        ⊎ ((Fits m → ⊥) × ((e : PrecompileFailure) × (run c host m h ≡ (failed e, h))))
  unfolding run stake solve_pending_stake claim_native claim_stable withdraw
  run_cases (stakes_of pool amount) h = elim (Bool-cases (ltb pool (2 ^ 128))) [
    | inr e ↦ inr ((λ f. ground arith), (revert (value_is_too_large pool_index_type), ground arith))
    | inl e ↦ elim (Bool-cases (ltb amount (2 ^ 128))) [
      | inr f ↦ inr ((λ g. ground arith), (revert (value_is_too_large balance_type), ground arith))
      | inl f ↦ inl ((ground arith, ground arith), ground arith)
    ]
  ]
  run_cases solves h = inl (tt, refl)
  run_cases (claims_native until_time) h = elim (Bool-cases (ltb until_time (2 ^ 32))) [
    | inr e ↦
        inr ((λ f. ground arith), (revert (value_is_too_large block_number_type), ground arith))
    | inl e ↦ inl (ground arith, ground arith)
  ]
  run_cases (claims_stable pool until_time) h = elim (Bool-cases (ltb pool (2 ^ 128))) [
    | inr e ↦ inr ((λ f. ground arith), (revert (value_is_too_large pool_index_type), ground arith))
    | inl e ↦ elim (Bool-cases (ltb until_time (2 ^ 32))) [
      | inr f ↦
          inr ((λ g. ground arith), (revert (value_is_too_large block_number_type), ground arith))
      | inl f ↦ inl ((ground arith, ground arith), ground arith)
    ]
  ]
  run_cases (withdraws_from pool) h = elim (Bool-cases (ltb pool (2 ^ 128))) [
    | inr e ↦ inr ((λ f. ground arith), (revert (value_is_too_large pool_index_type), ground arith))
    | inl e ↦ inl (ground arith, ground arith)
  ]

  -- A method that succeeds had arguments that fit, and did to the pallet's storage exactly what the
  -- call that it stands for does for the caller's account; one that fails changed nothing. No logs are
  -- written either way.
  pub run_refines :
      (laws : HostLaws host) (m : Method) (h : Handle)
      → ((Fits m × ((run c host m h).0 ≡ done tt))
          × ((w : Storage c.tokens.World) × (dispatch c
                  (signed (into_account_id caller))
                  (request_of m)
                  (view h).world
                ≡ (ok tt, w))
              × (view (run c host m h).1 ≡ record (view h) { world = w })))
        ⊎ (Refused (run c host m h).0 × (view (run c host m h).1 ≡ view h))
  run_refines laws m h =
      let result = λ (r : EvmResult (Unit {0}) × Handle). r.0 in
      let seen = λ (r : EvmResult (Unit {0}) × Handle). view r.1 in
      elim (run_cases m h) [
        | inr (_, (e, out)) ↦ inr ((e, ap result out), ap seen out)
        | inl (fits, out) ↦ elim (evm_cases (dispatch_as_caller c host (request_of m) h)) [
          | inr (e, t, ran) ↦
              inr
                ((e, ap result (out ∙ ran)), ap seen (out ∙ ran) ∙ laws.dispatch_failed _ h t e ran)
          | inl (u, t, ran) ↦
              let (w, runs, after) = laws.dispatch_done _ h t ran in
              inl ((fits, ap result (out ∙ ran)), (w, runs, ap seen (out ∙ ran) ∙ after))
        ]
      ]
