-- ===== src/Precompile/Host.antt =====
-- What the precompiles use of precompile_utils, fp_evm and pallet_evm. None of them is part of the
-- repository: `Host` is a parameter, and `HostLaws` states what their documentation promises. A
-- handle carries the gas that is left; a `View` is what of it can be seen from outside. An address
-- of the EVM is a number.
use can_bus.Base.{
  ℕ, arith, ◌≡◌, ◌⊎◌, inl, inr, refl, Option, none, some, List, ◌∷◌, ltb, ◌^◌, if◌then◌else◌,
}
use can_bus.Frame.Call.{Call, ok}

-- The texts of `RevertReason::value_is_too_large`.
pub data TypeName : Type 0 where
  pool_index_type balance_type block_number_type epoch_index_type : TypeName

pub data RevertReason : Type 0 where
  value_is_too_large : TypeName → RevertReason
  not_existing : RevertReason
  in_field_value : RevertReason → RevertReason

-- `PrecompileFailure`; `other n` is one of the host.
pub data PrecompileFailure : Type 0 where
  revert : RevertReason → PrecompileFailure
  other_failure : ℕ → PrecompileFailure

pub data EvmResult (A : Type 0) : Type 0 where
  done : A → EvmResult A
  failed : PrecompileFailure → EvmResult A

-- A method of a precompile, on the handle. The host undoes what a failing method has written.
abbrev pub Evm : Type 0 → Type 0 → Type 0
Evm H A = H → EvmResult A × H

module _ {H A : Type 0} where
  abbrev pub pure : A → Evm H A
  pure a h = (done a, h)

  abbrev pub fail : RevertReason → Evm H A
  fail e h = (failed (revert e), h)

  abbrev pub gets : (H → A) → Evm H A
  gets f h = (done (f h), h)

  -- `ok_or(reason)?`
  abbrev pub ok_or : Option A → RevertReason → Evm H A
  ok_or none e = fail e
  ok_or (some a) e = pure a

infixl 5 ◌>>=◌ ◌>>◌
abbrev pub ◌>>=◌ : {H A B : Type 0} → Evm H A → (A → Evm H B) → Evm H B
◌>>=◌ m f h = let (r, h') = m h in elim r [ done a ↦ f a h' | failed e ↦ (failed e, h') ]

abbrev pub ◌>>◌ : {H A B : Type 0} → Evm H A → Evm H B → Evm H B
m >> k = m >>= λ _. k

-- `value.try_into()` from U256 into an unsigned type of `bits` bits.
abbrev pub try_into : {H : Type 0} → ℕ → ℕ → RevertReason → Evm H ℕ
try_into bits value e = if ltb value (2 ^ bits) then pure value else fail e

-- `SELECTOR_LOG_TRANSFER`, `SELECTOR_LOG_APPROVAL` and `SELECTOR_LOG_SOMETHING`, which differ as hashes of
-- their signatures do.
pub data Selector : Type 0 where
  selector_log_transfer selector_log_approval selector_log_something : Selector

-- `log3(address, topic0, topic1, topic2, data)`, and `log2`, which has no `topic2`.
pub record Log : Type 0 where
  pub address : ℕ
  pub topic0 : Selector
  pub topic1 : ℕ
  pub topic2 : Option ℕ
  pub value : ℕ

pub record View (W : Type 0) : Type 0 where
  pub world : W
  -- The newest log stands first.
  pub logs : List Log

pub record Host (W : Type 0) : Type 1 where
  pub Handle : Type 0
  pub view : Handle → View W
  -- `handle.context().caller` and `handle.context().address`.
  pub caller : ℕ
  pub address : ℕ
  -- `AddressMapping::into_account_id`
  pub into_account_id : ℕ → ℕ
  pub record_db_read : ℕ → Evm Handle (Unit {0})
  pub record_log_costs_manual : ℕ → ℕ → Evm Handle (Unit {0})
  -- `LogExt::record`
  pub record_log : Log → Evm Handle (Unit {0})
  -- `RuntimeHelper::try_dispatch`, of a call with its origin.
  pub try_dispatch : Call W (Unit {0}) → Evm Handle (Unit {0})

module _ {W : Type 0} (host : Host W) where
  open host use {Handle, view}

  pub record HostLaws : Type 0 where
    -- Costs are all that the first two record.
    pub db_read_view :
        (n : ℕ) (h h' : Handle) (r : EvmResult (Unit {0}))
        → host.record_db_read n h ≡ (r, h')
        → view h' ≡ view h
    pub log_costs_view :
        (n m : ℕ) (h h' : Handle) (r : EvmResult (Unit {0}))
        → host.record_log_costs_manual n m h ≡ (r, h')
        → view h' ≡ view h
    pub log_done :
        (l : Log) (h h' : Handle)
        → host.record_log l h ≡ (done tt, h')
        → view h' ≡ record (view h) { logs = l ∷ (view h).logs }
    -- The call is dispatched, and undone if it fails or does not fit into the gas.
    pub dispatch_done :
        (call : Call W (Unit {0})) (h h' : Handle)
        → host.try_dispatch call h ≡ (done tt, h')
        → (w : W) × (call (view h).world ≡ (ok tt, w)) × (view h' ≡ record (view h) { world = w })
    pub dispatch_failed :
        (call : Call W (Unit {0})) (h h' : Handle) (e : PrecompileFailure)
        → host.try_dispatch call h ≡ (failed e, h')
        → view h' ≡ view h

-- A `do` block that succeeds: its first step did, and the rest did from there.
module _ {H A B : Type 0} where
  abbrev continue : (A → Evm H B) → EvmResult A × H → EvmResult B × H
  continue f r = elim r.0 [ done a ↦ f a r.1 | failed e ↦ (failed e, r.1) ]

  continue-eq-done :
      (r : EvmResult A × H) (f : A → Evm H B) {b : B} {h' : H}
      → continue f r ≡ (done b, h')
      → (a : A) × (t : H) × (r ≡ (done a, t)) × (f a t ≡ (done b, h'))
  continue-eq-done (done a, s) f e = (a, s, refl, e)
  continue-eq-done (failed x, s) f e = absurd (ground arith)

  pub >>=-eq-done :
      (m : Evm H A) (f : A → Evm H B) {b : B} (h : H) {h' : H}
      → (m >>= f) h ≡ (done b, h')
      → (a : A) × (t : H) × (m h ≡ (done a, t)) × (f a t ≡ (done b, h'))
  >>=-eq-done m f h = continue-eq-done (m h) f

pub evm_cases :
    {H A : Type 0} (r : EvmResult A × H)
    → ((a : A) × (t : H) × (r ≡ (done a, t)))
      ⊎ ((e : PrecompileFailure) × (t : H) × (r ≡ (failed e, t)))
evm_cases (done a, t) = inl (a, t, refl)
evm_cases (failed e, t) = inr (e, t, refl)
