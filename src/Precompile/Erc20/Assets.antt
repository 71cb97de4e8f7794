-- ===== src/Precompile/Erc20/Assets.antt =====
-- pallet_assets, as the precompile calls it. It is not part of the repository: its operations are a
-- parameter, and `AssetsLaws` states what its documentation promises of approvals.
use can_bus.Base.{ℕ, ◌+◌, ◌≡◌, ◌≢◌, ◌⊎◌, Option, List}
use can_bus.Frame.Call.{Call, Origin, signed, ok}

pub record Assets (W : Type 0) : Type 0 where
  pub maybe_total_supply : ℕ → W → Option ℕ
  pub total_issuance : ℕ → W → ℕ
  pub balance : ℕ → ℕ → W → ℕ
  -- `allowance(id, owner, delegate)`
  pub allowance : ℕ → ℕ → ℕ → W → ℕ
  pub minimum_balance : ℕ → W → ℕ
  pub name : ℕ → W → List ℕ
  pub symbol : ℕ → W → List ℕ
  pub decimals : ℕ → W → ℕ
  -- `Extra::max_encoded_len()` and `StringLimit::get()`
  pub extra_max_encoded_len : ℕ
  pub string_limit : ℕ
  -- `Call::transfer { id, target, amount }` and so on, after the origin.
  pub transfer : Origin → ℕ → ℕ → ℕ → Call W (Unit {0})
  pub transfer_approved : Origin → ℕ → ℕ → ℕ → ℕ → Call W (Unit {0})
  pub approve_transfer : Origin → ℕ → ℕ → ℕ → Call W (Unit {0})
  pub cancel_approval : Origin → ℕ → ℕ → Call W (Unit {0})
  pub mint : Origin → ℕ → ℕ → ℕ → Call W (Unit {0})
  pub burn : Origin → ℕ → ℕ → ℕ → Call W (Unit {0})

module _ {W : Type 0} (a : Assets W) where
  open a use {allowance, approve_transfer, cancel_approval}

  pub record AssetsLaws : Type 0 where
    -- An approval is added to the one that is there.
    pub approve_adds :
        (id owner delegate amount : ℕ) (w w' : W)
        → approve_transfer (signed owner) id delegate amount w ≡ (ok tt, w')
        → allowance id owner delegate w' ≡ allowance id owner delegate w + amount
    pub approve_others :
        (id owner delegate amount : ℕ) (w w' : W)
        → approve_transfer (signed owner) id delegate amount w ≡ (ok tt, w')
        → (i o d : ℕ) → (i ≢ id) ⊎ ((o ≢ owner) ⊎ (d ≢ delegate))
        → allowance i o d w' ≡ allowance i o d w
    pub cancel_clears :
        (id owner delegate : ℕ) (w w' : W)
        → cancel_approval (signed owner) id delegate w ≡ (ok tt, w')
        → allowance id owner delegate w' ≡ 0
    pub cancel_others :
        (id owner delegate : ℕ) (w w' : W)
        → cancel_approval (signed owner) id delegate w ≡ (ok tt, w')
        → (i o d : ℕ) → (i ≢ id) ⊎ ((o ≢ owner) ⊎ (d ≢ delegate))
        → allowance i o d w' ≡ allowance i o d w
