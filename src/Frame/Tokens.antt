-- ===== src/Frame/Tokens.antt =====
-- pallet_balances and pallet_assets, as the sources call them. Neither is part of the repository:
-- the operations are a parameter of the model, and `TokenLaws` states what their documentation
-- promises of a call that succeeds. The currency `none` is the native token, `some a` the asset `a`.
use can_bus.Base.{ℕ, ◌+◌, ◌^◌, ◌≤◌, ◌<◌, ◌⊎◌, ◌≡◌, ◌≢◌, Option, some}
use can_bus.Frame.Call.{Call, ok}

pub record Tokens : Type 1 where
  pub World : Type 0
  -- `Inspect::balance` and `Inspect::total_issuance`.
  pub balance : Option ℕ → ℕ → World → ℕ
  pub issuance : Option ℕ → World → ℕ
  -- `Inspect::minimum_balance`, the existential deposit of the native token.
  pub minimum_balance : Option ℕ → World → ℕ
  -- `Mutate::mint_into(currency, who, amount)`.
  pub mint_into : Option ℕ → ℕ → ℕ → Call World ℕ
  -- `Mutate::burn_from(currency, who, amount, Exact, Polite)`.
  pub burn_from : Option ℕ → ℕ → ℕ → Call World ℕ
  -- `Mutate::transfer(currency, source, dest, amount, Expendable)`.
  pub transfer : Option ℕ → ℕ → ℕ → ℕ → Call World (Unit {0})

module _ (t : Tokens) where
  open t use {World, balance, issuance, minimum_balance, mint_into, burn_from, transfer}

  -- Taking `n` leaves the account nothing, or its minimum balance and more.
  abbrev pub Leaves : Option ℕ → ℕ → ℕ → World → Type 0
  Leaves c who n w = (balance c who w ≡ n) ⊎ (n + minimum_balance c w ≤ balance c who w)

  pub record TokenLaws : Type 0 where
    pub mint_amount :
        (c : Option ℕ) (who n r : ℕ) (w w' : World) → mint_into c who n w ≡ (ok r, w') → r ≡ n
    pub mint_balance :
        (c : Option ℕ) (who n r : ℕ) (w w' : World)
        → mint_into c who n w ≡ (ok r, w')
        → balance c who w' ≡ balance c who w + n
    pub mint_issuance :
        (c : Option ℕ) (who n r : ℕ) (w w' : World)
        → mint_into c who n w ≡ (ok r, w')
        → issuance c w' ≡ issuance c w + n
    pub mint_others :
        (c : Option ℕ) (who n r : ℕ) (w w' : World)
        → mint_into c who n w ≡ (ok r, w')
        → (a : ℕ) → a ≢ who
        → balance c a w' ≡ balance c a w
    -- A burn takes at least the amount, and more where less than the minimum balance would be left:
    -- that remainder goes too. It returns a balance of 128 bits.
    pub burn_amount :
        (c : Option ℕ) (who n r : ℕ) (w w' : World)
        → burn_from c who n w ≡ (ok r, w')
        → (n ≤ r) × (r < 2 ^ 128)
    pub burn_balance :
        (c : Option ℕ) (who n r : ℕ) (w w' : World)
        → burn_from c who n w ≡ (ok r, w')
        → balance c who w' + r ≤ balance c who w
    pub burn_issuance :
        (c : Option ℕ) (who n r : ℕ) (w w' : World)
        → burn_from c who n w ≡ (ok r, w')
        → issuance c w' + r ≤ issuance c w
    -- Where nothing is left or at least the minimum balance, it takes exactly the amount.
    pub burn_exact :
        (c : Option ℕ) (who n r : ℕ) (w w' : World)
        → burn_from c who n w ≡ (ok r, w')
        → Leaves c who n w
        → (r ≡ n) × (balance c who w' + n ≡ balance c who w) × (issuance c w' + n ≡ issuance c w)
    pub burn_others :
        (c : Option ℕ) (who n r : ℕ) (w w' : World)
        → burn_from c who n w ≡ (ok r, w')
        → (a : ℕ) → a ≢ who
        → balance c a w' ≡ balance c a w

  -- A transfer of an asset whose minimum balance is one, so that no dust is left
  -- behind, between two accounts.
  pub record TransferLaws : Type 0 where
    pub transfer_source :
        (asset source dest n : ℕ) (w w' : World)
        → transfer (some asset) source dest n w ≡ (ok tt, w')
        → source ≢ dest
        → balance (some asset) source w' + n ≡ balance (some asset) source w
    pub transfer_dest :
        (asset source dest n : ℕ) (w w' : World)
        → transfer (some asset) source dest n w ≡ (ok tt, w')
        → source ≢ dest
        → balance (some asset) dest w' ≡ balance (some asset) dest w + n
    -- The other currencies are not touched.
    pub transfer_currencies :
        (c : Option ℕ) (source dest n : ℕ) (w w' : World)
        → transfer c source dest n w ≡ (ok tt, w')
        → (d : Option ℕ) (a : ℕ) → d ≢ c
        → balance d a w' ≡ balance d a w
