-- ===== src/Precompile/Erc20/Calls/Dispatches.antt =====
-- What the methods that move tokens amount to: one call of pallet_assets and one log.
use can_bus.Base.{
  ℕ, ◌^◌, ◌<◌, ◌≤◌, ◌≡◌, ◌==◌, ◌∙◌, refl, ap, Bool, true, ltb, Bool-cases, inl, inr, if◌then◌else◌,
  arith, ◌∷◌,
}
use can_bus.Frame.Call.{Call, signed, ok}
use can_bus.Precompile.Host.{
  Host, HostLaws, Evm, PrecompileFailure, done, failed, revert, value_is_too_large, in_field_value,
  balance_type, pure, ◌>>=◌, ◌>>◌, >>=-eq-done, evm_cases, selector_log_transfer, Log,
}
use can_bus.Precompile.Erc20.Assets.{Assets}
use can_bus.Precompile.Erc20.Calls.{
  u256_to_amount, log_of, transfer, transfer_from, mint, burn, Method, transfers, transfers_from,
  mints, burns, run,
}

module _ {W : Type 0} (host : Host W) (assets : Assets W) where
  open host use {Handle, caller, into_account_id, view}

  abbrev pub value_of : Method → ℕ
  value_of (transfers to value) = value
  value_of (transfers_from from to value) = value
  value_of (mints to value) = value
  value_of (burns from value) = value

  -- The call that a method stands for: a transfer from the caller's own account needs no approval.
  abbrev pub call_for : ℕ → Method → ℕ → Call W (Unit {0})
  call_for id (transfers to value) n =
      assets.transfer (signed (into_account_id caller)) id (into_account_id to) n
  call_for id (transfers_from from to value) n =
      if into_account_id caller == into_account_id from
      then assets.transfer (signed (into_account_id from)) id (into_account_id to) n
      else assets.transfer_approved (signed (into_account_id caller)) id (into_account_id from)
          (into_account_id to) n
  call_for id (mints to value) n =
      assets.mint (signed (into_account_id caller)) id (into_account_id to) n
  call_for id (burns from value) n =
      assets.burn (signed (into_account_id caller)) id (into_account_id from) n

  -- The transfer that its log tells of; the address zero stands for none.
  abbrev pub log_for : Method → ℕ → Log
  log_for (transfers to value) = log_of host assets selector_log_transfer caller to
  log_for (transfers_from from to value) = log_of host assets selector_log_transfer from to
  log_for (mints to value) = log_of host assets selector_log_transfer 0 to
  log_for (burns from value) = log_of host assets selector_log_transfer from 0

  abbrev logging : (ℕ → Log) → ℕ → Evm Handle Bool
  logging log amount = do host.record_log (log amount); pure true

  abbrev dispatching : (ℕ → Call W (Unit {0})) → (ℕ → Log) → ℕ → Evm Handle Bool
  dispatching call log amount = do host.try_dispatch (call amount); logging log amount

  abbrev converting : (ℕ → Call W (Unit {0})) → (ℕ → Log) → ℕ → Evm Handle Bool
  converting call log value = do amount ← u256_to_amount value; dispatching call log amount

  abbrev dispatch_and_log : (ℕ → Call W (Unit {0})) → (ℕ → Log) → ℕ → Evm Handle Bool
  dispatch_and_log call log value = do host.record_log_costs_manual 3 32; converting call log value

  run_shape :
      (id : ℕ) (m : Method)
      → run host assets id m ≡ dispatch_and_log (call_for id m) (log_for m) (value_of m)
  unfolding run transfer transfer_from mint burn
  run_shape id (transfers to value) = refl
  run_shape id (transfers_from from to value) =
      elim (Bool-cases (into_account_id caller == into_account_id from)) [
        | inl e ↦ rw e refl
        | inr e ↦ rw e refl
      ]
  run_shape id (mints to value) = refl
  run_shape id (burns from value) = refl

  u256_to_amount-done :
      (value n : ℕ) (h h' : Handle)
      → u256_to_amount value h ≡ (done n, h')
      → (value < 2 ^ 128) × (n ≡ value) × (h' ≡ h)
  u256_to_amount-done value n h h' e = elim (Bool-cases (ltb value (2 ^ 128))) [
    | inl f ↦ (ground arith, ground arith, ground arith)
    | inr f ↦ absurd (ground arith)
  ]

  module _ (laws : HostLaws host) where
    dispatch_and_log_done :
        (call : ℕ → Call W (Unit {0})) (log : ℕ → Log) (value : ℕ) (h h' : Handle) (b : Bool)
        → dispatch_and_log call log value h ≡ (done b, h')
        → (b ≡ true)
          × (value < 2 ^ 128)
          × ((w : W) × (call value (view h).world ≡ (ok tt, w))
              × (view h' ≡ record { world = w; logs = log value ∷ (view h).logs }))
    dispatch_and_log_done call log value h h' b e =
        let (_, h₁, costs, rest₁) =
          >>=-eq-done (host.record_log_costs_manual 3 32) (λ _. converting call log value) h e in
        let (n, h₂, converts, rest₂) =
          >>=-eq-done (u256_to_amount value) (dispatching call log) h₁ rest₁ in
        let (_, h₃, dispatches, rest₃) =
          >>=-eq-done (host.try_dispatch (call n)) (λ _. logging log n) h₂ rest₂ in
        let (_, h₄, logs, last) = >>=-eq-done (host.record_log (log n)) (λ _. pure true) h₃ rest₃ in
        let (small, same, kept) = u256_to_amount-done value n h₁ h₂ converts in
        let (w, runs, seen) = laws.dispatch_done (call n) h₂ h₃ dispatches in
        let before : view h₂ ≡ view h =
          ap view kept ∙ laws.log_costs_view 3 32 h h₁ (done tt) costs in
        let after = laws.log_done (log n) h₃ h₄ logs in
        let final : h' ≡ h₄ = ground arith in
        (
          ground arith,
          small,
          (w, rw (same, before) at runs, ap view final ∙ (after ∙ ground arith)),
        )

    -- A method that moves tokens and succeeds has converted its value, has dispatched the call of
    -- pallet_assets that it stands for, of exactly that amount and nothing else, and has written one
    -- log of it.
    pub run_dispatches :
        (id : ℕ) (m : Method) (h h' : Handle) (b : Bool)
        → run host assets id m h ≡ (done b, h')
        → (b ≡ true)
          × (value_of m < 2 ^ 128)
          × ((w : W) × (call_for id m (value_of m) (view h).world ≡ (ok tt, w))
              × (view h' ≡ record { world = w; logs = log_for m (value_of m) ∷ (view h).logs }))
    run_dispatches id m h h' b e =
        dispatch_and_log_done (call_for id m) (log_for m) (value_of m) h h' b
          (rw (run_shape id m) at e)

    dispatch_and_log_large :
        (call : ℕ → Call W (Unit {0})) (log : ℕ → Log) (value : ℕ) (h : Handle)
        → 2 ^ 128 ≤ value
        → ((e : PrecompileFailure) × ((dispatch_and_log call log value h).0 ≡ failed e))
          × (view (dispatch_and_log call log value h).1 ≡ view h)
    dispatch_and_log_large call log value h large =
        let out = dispatch_and_log call log value h in
        elim (evm_cases (host.record_log_costs_manual 3 32 h)) [
          | inr (e, t, f) ↦
              let end : out.1 ≡ t = ground arith in
              ((e, ground arith), ap view end ∙ laws.log_costs_view 3 32 h t (failed e) f)
          | inl (u, t, f) ↦
              let end : out.1 ≡ t = ground arith in
              (
                (revert (in_field_value (value_is_too_large balance_type)), ground arith),
                ap view end ∙ laws.log_costs_view 3 32 h t (done u) f,
              )
        ]

    -- A method that moves tokens fails at a value of 2^128 or more, with no change of the pallet's
    -- storage and no log.
    pub run_refuses_large :
        (id : ℕ) (m : Method) (h : Handle)
        → 2 ^ 128 ≤ value_of m
        → ((e : PrecompileFailure) × ((run host assets id m h).0 ≡ failed e))
          × (view (run host assets id m h).1 ≡ view h)
    run_refuses_large id m h large =
        rw (run_shape id m)
          (dispatch_and_log_large (call_for id m) (log_for m) (value_of m) h large)
