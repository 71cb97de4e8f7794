-- ===== src/Precompile/Bridge/Conserves.antt =====
-- A contract's transfer over the bridge.
use can_bus.Base.{
  ℕ, ◌+◌, ◌^◌, ◌<◌, ◌≤◌, ◌≡◌, ◌≢◌, sym, ap, Bool, some, List, [], ◌∷◌, ◌++◌, ltb, Bool-cases, inl,
  inr, arith,
}
use can_bus.Frame.Call.{signed, ok}
use can_bus.Frame.Tokens.{TokenLaws}
use can_bus.Bridge.State.{fungible_transfer}
use can_bus.Bridge.Relayers.{nonce_or_zero}
use can_bus.Handler.State as Handler
use can_bus.Handler.State.{AssetInfo}
use can_bus.Transfer.Calls as Transfer
use can_bus.Transfer.Conserves.{transfer_assets_conserves}
use can_bus.Precompile.Host.{Host, HostLaws, View, done}
use can_bus.Precompile.Bridge.{transfer_assets}

module _ (handler : Handler.Config) (members : ℕ → Bool) (host : Host (Transfer.S handler)) where
  open handler use {tokens, treasury_account}
  open host use {Handle, caller, into_account_id, view}

  transfer_assets_dispatches :
      (laws : HostLaws host) (amount dest : ℕ) (rid recipient : List ℕ) (h h' : Handle)
      → transfer_assets handler members host amount dest rid recipient h ≡ (done tt, h')
      → (amount < 2 ^ 128)
        × (Transfer.transfer_assets handler members
              (signed (into_account_id caller))
              amount
              recipient
              dest
              rid
              (view h).world
            ≡ (ok tt, (view h').world))
  unfolding transfer_assets
  transfer_assets_dispatches laws amount dest rid recipient h h' e =
      elim (Bool-cases (ltb amount (2 ^ 128))) [
        | inr f ↦ absurd (ground arith)
        | inl f ↦
            let (w, runs, after) =
              laws.dispatch_done
                (Transfer.transfer_assets handler members (signed (into_account_id caller)) amount
                  recipient dest rid)
                h h' (ground arith) in
            let now : w ≡ (view h').world =
              sym (ap (λ (v : View (Transfer.S handler)). v.world) after) in
            (ground arith, rw now at runs)
      ]

  -- A contract's transfer that succeeds, by a caller whose account is not the treasury, where the token
  -- pallets obey their laws: the amount is less than 2^128; what the one new bridge event announces is
  -- with the fee of the resource at least the amount, the account of the caller has lost at least the
  -- two together, the treasury has gained exactly the fee, and the issuance has fallen by at least what is
  -- announced.
  pub transfer_assets_by_contract :
      (laws : HostLaws host) (promises : TokenLaws tokens) (amount dest : ℕ)
      (rid recipient : List ℕ) (h h' : Handle)
      → into_account_id caller ≢ treasury_account
      → transfer_assets handler members host amount dest rid recipient h ≡ (done tt, h')
      → let s = (view h).world in
        let s' = (view h').world in
        (amount < 2 ^ 128)
        × ((sent : ℕ) × (info : AssetInfo) × (s.world.resource_to_asset_info rid ≡ some info)
            × (amount ≤ sent + info.fee)
            × (tokens.balance info.asset (into_account_id caller) s'.world.world + (sent + info.fee)
                ≤ tokens.balance info.asset (into_account_id caller) s.world.world)
            × (tokens.balance info.asset treasury_account s'.world.world
                ≡ tokens.balance info.asset treasury_account s.world.world + info.fee)
            × (tokens.issuance info.asset s'.world.world + sent
                ≤ tokens.issuance info.asset s.world.world)
            × (s'.bridge_events
                ≡ s.bridge_events
                  ++ fungible_transfer dest
                      (nonce_or_zero (s.chain_nonces dest) + 1)
                      rid
                      sent
                      recipient
                    ∷ []))
  transfer_assets_by_contract laws promises amount dest rid recipient h h' other e =
      let (small, runs) = transfer_assets_dispatches laws amount dest rid recipient h h' e in
      let (who, sent, info, signs, member, known, positive, net, lost, gained, fell, nonce, event) =
        transfer_assets_conserves handler promises members (signed (into_account_id caller)) amount
          dest recipient rid (view h).world (view h').world (λ q. other (ground arith)) runs in
      let me : who ≡ into_account_id caller = ground arith in
      (small, (sent, info, known, net, rw me at lost, gained, fell, event))
