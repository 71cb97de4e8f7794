-- ===== src/Transfer/RoundTrip.antt =====
-- A transfer out over the bridge, and the same tokens brought back.
use can_bus.Base.{ℕ, ◌+◌, ◌-◌, ◌≡◌, ◌≢◌, ◌∙◌, Bool, some, List, ap, sym, arith}
use can_bus.Frame.Call.{Origin, signed, ok}
use can_bus.Frame.Tokens.{TokenLaws, Leaves}
use can_bus.Bridge.State as Bridge
use can_bus.Handler.State as Handler
use can_bus.Handler.State.{AssetInfo}
use can_bus.Handler.Fees.{prepare_token_bridge_out_accounts, prepare_token_bridge_out_exact}
use can_bus.Handler.Calls.{prepare_token_bridge_out}
use can_bus.Transfer.Calls.{S, transfer_assets, transfer}
use can_bus.Transfer.Conserves.{transfer_assets_steps, signal_world, transfer_mints}

signed_eq : {a b : ℕ} → signed a ≡ signed b → a ≡ b
signed_eq e = ground arith

module _ (h : Handler.Config) where
  open h use {tokens, treasury_account}

  -- What a transfer out did to the world of the assets handler.
  record Sends (rid : List ℕ) (who amount : ℕ) (s t : S h) : Type 0 where
    sent : ℕ
    burns : prepare_token_bridge_out h rid who amount s.world ≡ (ok sent, t.world)

  transfer_assets-Sends :
      (members : ℕ → Bool) (who amount dest : ℕ) (recipient rid : List ℕ) (s t : S h)
      → transfer_assets h members (signed who) amount recipient dest rid s ≡ (ok tt, t)
      → Sends rid who amount s t
  transfer_assets-Sends members who amount dest recipient rid s t e =
      let (signer, sent, w, signs, _, burns, signals) =
        transfer_assets_steps h members (signed who) amount dest recipient rid s t e in
      let same : signer ≡ who = sym (signed_eq signs) in
      let after : t.world ≡ w =
        ap (λ (x : _). x.1.world) (sym signals)
        ∙ signal_world h dest sent rid recipient (record s { world = w }) in
      record { sent = sent; burns = rw after (rw same at burns) }

  -- Where the token pallets obey their laws: after a successful transfer out by an account other than the
  -- treasury, which leaves it nothing of the asset, or the minimum balance and more, and a successful
  -- transfer in, to the same account, of the amount less the resource's fee, the issuance of the asset is
  -- what it was, the account has paid the fee and the treasury has gained it, and the bridge's own storage
  -- is what the transfer out had left.
  pub transfer_assets-transfer :
      (laws : TokenLaws h.tokens) (members : ℕ → Bool)
      (c : Bridge.Config (Handler.Storage h.tokens.World)) (o : Origin) (who amount dest : ℕ)
      (recipient rid : List ℕ) (info : AssetInfo) (s t u : S h)
      → who ≢ treasury_account
      → s.world.resource_to_asset_info rid ≡ some info
      → Leaves tokens info.asset who amount s.world.world
      → transfer_assets h members (signed who) amount recipient dest rid s ≡ (ok tt, t)
      → transfer h c o who (amount - info.fee) rid t ≡ (ok tt, u)
      → (tokens.issuance info.asset u.world.world ≡ tokens.issuance info.asset s.world.world)
        × (tokens.balance info.asset who u.world.world + info.fee
            ≡ tokens.balance info.asset who s.world.world)
        × (tokens.balance info.asset treasury_account u.world.world
            ≡ tokens.balance info.asset treasury_account s.world.world + info.fee)
        × (u ≡ record t { world = u.world })
  transfer_assets-transfer laws members c o who amount dest recipient rid info s t u other known
        leaves out back =
      let d = transfer_assets-Sends members who amount dest recipient rid s t out in
      let (asset, listed, _, _, _, _, gained, _, kept) =
        prepare_token_bridge_out_accounts h laws rid who amount d.sent s.world t.world other
          d.burns in
      let (net, lost, fell) =
        prepare_token_bridge_out_exact h laws rid who amount d.sent info s.world t.world other known
          leaves d.burns in
      let (brought, _, named, received, others, rose, only) =
        transfer_mints h laws c o who (amount - info.fee) rid t u back in
      let is_asset : asset ≡ info = ground (arith, listed, known) in
      let is_brought : brought ≡ info = ground (arith, named, known, ap (λ m. m rid) kept) in
      let treasury = rw is_asset at gained in
      let given = rw is_brought at received in
      let stays = rw is_brought at (others treasury_account (λ e. other (sym e))) in
      let minted = rw is_brought at rose in
      (omega (arith, fell, minted, net), omega (arith, lost, given, net), stays ∙ treasury, only)
