-- ===== src/Transfer/Conserves.antt =====
-- What a transfer across the bridge does to both sides' books.
use can_bus.Base.{
  ℕ, ◌+◌, ◌-◌, ◌^◌, min, ◌≡◌, ◌≢◌, ◌<◌, ◌≤◌, Bool, true, some, List, [], ◌∷◌, ◌++◌, ◌==◌, ◌∙◌, sym,
  arith, ap, refl, Bool-cases, inl, inr,
}
use can_bus.Frame.Call.{Origin, signed, root, unsigned, ok, outcome_cases}
use can_bus.Frame.Tokens.{TokenLaws}
use can_bus.Bridge.State as Bridge
use can_bus.Bridge.State.{fungible_transfer}
use can_bus.Bridge.Relayers.{nonce_or_zero, signal_transfer_fungible, ensure_bridge}
use can_bus.Bridge.Relayers.Nonces.{signal_transfer_fungible_next}
use can_bus.Handler.State as Handler
use can_bus.Handler.State.{AssetInfo}
use can_bus.Handler.Calls.{prepare_token_bridge_out, prepare_token_bridge_in}
use can_bus.Handler.Fees.{prepare_token_bridge_out_accounts, prepare_token_bridge_in_accounts}
use can_bus.Transfer.Calls.{S, transfer_assets, transfer}

module _ (h : Handler.Config) where
  open h use {tokens, treasury_account}

  pub transfer_assets_steps :
      (members : ℕ → Bool) (o : Origin) (amount dest : ℕ) (recipient rid : List ℕ) (s s' : S h)
      → transfer_assets h members o amount recipient dest rid s ≡ (ok tt, s')
      → (who : ℕ) × (sent : ℕ) × (w : Handler.Storage tokens.World) × (o ≡ signed who)
        × (members who ≡ true)
        × (prepare_token_bridge_out h rid who amount s.world ≡ (ok sent, w))
        × (signal_transfer_fungible dest rid recipient sent (record s { world = w }) ≡ (ok tt, s'))
  unfolding transfer_assets
  transfer_assets_steps members root amount dest recipient rid s s' e = absurd (ground arith)
  transfer_assets_steps members unsigned amount dest recipient rid s s' e = absurd (ground arith)
  transfer_assets_steps members (signed who) amount dest recipient rid s s' e =
      elim (Bool-cases (members who)) [
        | inr m ↦ absurd (ground arith)
        | inl m ↦ elim (outcome_cases (prepare_token_bridge_out h rid who amount s.world)) [
          | inr (x, w, f) ↦ absurd (ground arith)
          | inl (sent, w, f) ↦
              elim (outcome_cases
                (signal_transfer_fungible dest rid recipient sent (record s { world = w }))) [
                  | inr (x, u, g) ↦ absurd (ground arith)
                  | inl (x, u, g) ↦ (who, sent, w, refl, m, f, ground arith)
                ]
        ]
      ]

  pub signal_world :
      (dest amount : ℕ) (r to : List ℕ) (s : S h)
      → (signal_transfer_fungible dest r to amount s).1.world ≡ s.world
  unfolding signal_transfer_fungible
  signal_world dest amount r to s = ground arith

  -- A transfer out that succeeds, by another than the treasury, where the token pallets obey their laws:
  -- a member signed it; the resource is known; the amount that the one new bridge event announces to the
  -- other chain, under that chain's next nonce, is above zero and with the fee at least the amount;
  -- the source has lost at least the two together, the treasury has gained exactly the fee, and the issuance here has
  -- fallen by at least what is announced.
  pub transfer_assets_conserves :
      (laws : TokenLaws h.tokens) (members : ℕ → Bool) (o : Origin) (amount dest : ℕ)
      (recipient rid : List ℕ) (s s' : S h)
      → o ≢ signed treasury_account
      → transfer_assets h members o amount recipient dest rid s ≡ (ok tt, s')
      → (who sent : ℕ) × (info : AssetInfo) × (o ≡ signed who)
        × (members who ≡ true)
        × (s.world.resource_to_asset_info rid ≡ some info)
        × (0 < sent)
        × (amount ≤ sent + info.fee)
        × (tokens.balance info.asset who s'.world.world + (sent + info.fee)
            ≤ tokens.balance info.asset who s.world.world)
        × (tokens.balance info.asset treasury_account s'.world.world
            ≡ tokens.balance info.asset treasury_account s.world.world + info.fee)
        × (tokens.issuance info.asset s'.world.world + sent
            ≤ tokens.issuance info.asset s.world.world)
        × (s'.chain_nonces dest ≡ some (nonce_or_zero (s.chain_nonces dest) + 1))
        × (s'.bridge_events
            ≡ s.bridge_events
              ++ fungible_transfer dest (nonce_or_zero (s.chain_nonces dest) + 1) rid sent recipient
                ∷ [])
  transfer_assets_conserves laws members o amount dest recipient rid s s' outside e =
      let (who, sent, w, signs, member, burns, signals) =
        transfer_assets_steps members o amount dest recipient rid s s' e in
      let other : who ≢ treasury_account = λ q. outside (signs ∙ ap signed q) in
      let (info, known, positive, small, net, lost, gained, fell, kept) =
        prepare_token_bridge_out_accounts h laws rid who amount sent s.world w other burns in
      let next = signal_transfer_fungible_next dest sent rid recipient (record s { world = w }) in
      let (nonce, event, still) = next.1 (ap (λ (x : _). x.0) signals) in
      let after = ap (λ (x : _). x.1) signals in
      let same : s'.world ≡ w =
        rw after at (signal_world dest sent rid recipient (record s { world = w })) in
      let fits : min sent (2 ^ 128 - 1) ≡ sent = omega (arith, small) in
      (
        who,
        sent,
        info,
        signs,
        member,
        known,
        positive,
        net,
        rw same lost,
        rw same gained,
        rw same fell,
        rw after at nonce,
        rw (after, fits) at event,
      )

  -- A transfer in that succeeds, where the token pallets obey their laws: the bridge account signed it, and no tokens but the amount of the
  -- resource's asset for the receiver come into being; the bridge's own storage stays as it was.
  pub transfer_mints :
      (laws : TokenLaws h.tokens) (c : Bridge.Config (Handler.Storage h.tokens.World)) (o : Origin)
      (to amount : ℕ) (rid : List ℕ) (s s' : S h)
      → transfer h c o to amount rid s ≡ (ok tt, s')
      → (info : AssetInfo) × (o ≡ signed c.account_id)
        × (s.world.resource_to_asset_info rid ≡ some info)
        × (tokens.balance info.asset to s'.world.world
            ≡ tokens.balance info.asset to s.world.world + amount)
        × ((a : ℕ)
            → a ≢ to
            → tokens.balance info.asset a s'.world.world
              ≡ tokens.balance info.asset a s.world.world)
        × (tokens.issuance info.asset s'.world.world
            ≡ tokens.issuance info.asset s.world.world + amount)
        × (s' ≡ record s { world = s'.world })
  unfolding transfer ensure_bridge
  transfer_mints laws c root to amount rid s s' e = absurd (ground arith)
  transfer_mints laws c unsigned to amount rid s s' e = absurd (ground arith)
  transfer_mints laws c (signed a) to amount rid s s' e = elim (Bool-cases (a == c.account_id)) [
    | inr f ↦ absurd (ground arith)
    | inl f ↦ elim (outcome_cases (prepare_token_bridge_in h rid to amount s.world)) [
      | inr (x, w, g) ↦ absurd (ground arith)
      | inl (got, w, g) ↦
          let (info, known, whole, gained, others, rose, kept) =
            prepare_token_bridge_in_accounts h laws rid to amount got s.world w g in
          let out : s' ≡ record s { world = w } = ground arith in
          let same : s'.world ≡ w = ap (λ (x : S h). x.world) out in
          (
            info,
            ap signed (ground arith),
            known,
            rw same gained,
            (λ b ne. rw same (others b ne)),
            rw same rose,
            out ∙ ap (λ v. record s { world = v }) (sym same),
          )
    ]
  ]
