-- ===== src/Handler/Fees.antt =====
-- What bridging tokens in and out does to balances and issuance.
use can_bus.Base.{ℕ, ◌+◌, ◌^◌, ◌≤◌, ◌≡◌, ◌≢◌, ◌<◌, some, List, arith, sym, inl, inr, Option-cases}
use can_bus.Frame.Call.{ok, outcome_cases}
use can_bus.Frame.Tokens.{TokenLaws, Leaves}
use can_bus.Handler.State.{AssetInfo, Storage, Config}
use can_bus.Handler.Calls.{prepare_token_bridge_in, prepare_token_bridge_out}

module _ (c : Config) (laws : TokenLaws c.tokens) where
  open c use {tokens, treasury_account}

  -- The steps of bridging out.
  record Burns (rid : List ℕ) (who amount sent : ℕ) (s s' : Storage tokens.World) : Type 0 where
    info : AssetInfo
    burnt : ℕ
    minted : ℕ
    between : tokens.World
    known : s.resource_to_asset_info rid ≡ some info
    burns : tokens.burn_from info.asset who amount s.world ≡ (ok burnt, between)
    mints : tokens.mint_into info.asset treasury_account info.fee between ≡ (ok minted, s'.world)
    above : info.fee < burnt
    net : sent + info.fee ≡ burnt
    resources : s'.resource_to_asset_info ≡ s.resource_to_asset_info

  prepare_token_bridge_out-Burns :
      (rid : List ℕ) (who amount sent : ℕ) (s s' : Storage tokens.World)
      → prepare_token_bridge_out c rid who amount s ≡ (ok sent, s')
      → Burns rid who amount sent s s'
  unfolding prepare_token_bridge_out
  prepare_token_bridge_out-Burns rid who amount sent s s' h =
      elim (Option-cases (s.resource_to_asset_info rid)) [
        | inl e ↦ absurd (ground arith)
        | inr (info, e) ↦ elim (outcome_cases (tokens.burn_from info.asset who amount s.world)) [
          | inr (x, w, f) ↦ absurd (ground arith)
          | inl (burnt, w, f) ↦
              elim (outcome_cases (tokens.mint_into info.asset treasury_account info.fee w)) [
                | inr (x, v, g) ↦ absurd (ground arith)
                | inl (m, v, g) ↦ record {
                  info = info;
                  burnt = burnt;
                  minted = m;
                  between = w;
                  known = e;
                  burns = f;
                  mints = ground arith;
                  above = ground arith;
                  net = ground arith;
                  resources = ground arith;
                }
              ]
        ]
      ]

  -- Tokens that leave by the bridge, for a caller other than the treasury, where the token pallets obey
  -- their laws: the resource is known; what the other chain is sent, which is above zero and of 128 bits, is with the fee at
  -- least the amount, and the caller has lost at least that much; the treasury has gained exactly the fee,
  -- and the issuance here has fallen by at least what is sent.
  pub prepare_token_bridge_out_accounts :
      (rid : List ℕ) (who amount sent : ℕ) (s s' : Storage tokens.World)
      → who ≢ treasury_account
      → prepare_token_bridge_out c rid who amount s ≡ (ok sent, s')
      → (info : AssetInfo) × (s.resource_to_asset_info rid ≡ some info)
        × (0 < sent)
        × (sent < 2 ^ 128)
        × (amount ≤ sent + info.fee)
        × (tokens.balance info.asset who s'.world + (sent + info.fee)
            ≤ tokens.balance info.asset who s.world)
        × (tokens.balance info.asset treasury_account s'.world
            ≡ tokens.balance info.asset treasury_account s.world + info.fee)
        × (tokens.issuance info.asset s'.world + sent ≤ tokens.issuance info.asset s.world)
        × (s'.resource_to_asset_info ≡ s.resource_to_asset_info)
  prepare_token_bridge_out_accounts rid who amount sent s s' other h =
      let d = prepare_token_bridge_out-Burns rid who amount sent s s' h in
      let asset = d.info.asset in
      let fee = d.info.fee in
      let (least, small) = laws.burn_amount asset who amount d.burnt s.world d.between d.burns in
      let less = laws.burn_balance asset who amount d.burnt s.world d.between d.burns in
      let fewer = laws.burn_issuance asset who amount d.burnt s.world d.between d.burns in
      let kept =
        laws.burn_others asset who amount d.burnt s.world d.between d.burns treasury_account
          (λ q. other (sym q)) in
      let paid = laws.mint_balance asset treasury_account fee d.minted d.between s'.world d.mints in
      let back =
        laws.mint_issuance asset treasury_account fee d.minted d.between s'.world d.mints in
      let still =
        laws.mint_others asset treasury_account fee d.minted d.between s'.world d.mints who other in
      (
        d.info,
        d.known,
        omega (arith, d.above, d.net),
        omega (arith, small, d.net),
        omega (arith, least, d.net),
        omega (arith, still, less, d.net),
        omega (arith, paid, kept),
        omega (arith, back, fewer, d.net),
        d.resources,
      )

  -- Where bridging out leaves the caller nothing of the asset, or its minimum balance and more, it takes
  -- exactly the amount, and the issuance falls by exactly what is sent.
  pub prepare_token_bridge_out_exact :
      (rid : List ℕ) (who amount sent : ℕ) (info : AssetInfo) (s s' : Storage tokens.World)
      → who ≢ treasury_account
      → s.resource_to_asset_info rid ≡ some info
      → Leaves tokens info.asset who amount s.world
      → prepare_token_bridge_out c rid who amount s ≡ (ok sent, s')
      → (sent + info.fee ≡ amount)
        × (tokens.balance info.asset who s'.world + amount ≡ tokens.balance info.asset who s.world)
        × (tokens.issuance info.asset s'.world + sent ≡ tokens.issuance info.asset s.world)
  prepare_token_bridge_out_exact rid who amount sent info s s' other known leaves h =
      let d = prepare_token_bridge_out-Burns rid who amount sent s s' h in
      let same : d.info ≡ info = ground (arith, known, d.known) in
      let asset = info.asset in
      let burns = rw same at d.burns in
      let mints = rw same at d.mints in
      let net = rw same at d.net in
      let (whole, less, fewer) =
        laws.burn_exact asset who amount d.burnt s.world d.between burns leaves in
      let back =
        laws.mint_issuance asset treasury_account info.fee d.minted d.between s'.world mints in
      let still =
        laws.mint_others asset treasury_account info.fee d.minted d.between s'.world mints who
          other in
      (
        omega (arith, whole, net),
        omega (arith, still, less),
        omega (arith, back, fewer, whole, net),
      )

  -- Tokens that arrive by the bridge, where the token pallets obey their laws: the resource is known, and the receiver's balance and the
  -- issuance grow by the amount, without a fee, while the other balances stay.
  pub prepare_token_bridge_in_accounts :
      (rid : List ℕ) (who amount got : ℕ) (s s' : Storage tokens.World)
      → prepare_token_bridge_in c rid who amount s ≡ (ok got, s')
      → (info : AssetInfo) × (s.resource_to_asset_info rid ≡ some info)
        × (got ≡ amount)
        × (tokens.balance info.asset who s'.world ≡ tokens.balance info.asset who s.world + amount)
        × ((a : ℕ)
            → a ≢ who
            → tokens.balance info.asset a s'.world ≡ tokens.balance info.asset a s.world)
        × (tokens.issuance info.asset s'.world ≡ tokens.issuance info.asset s.world + amount)
        × (s'.resource_to_asset_info ≡ s.resource_to_asset_info)
  unfolding prepare_token_bridge_in
  prepare_token_bridge_in_accounts rid who amount got s s' h =
      elim (Option-cases (s.resource_to_asset_info rid)) [
        | inl e ↦ absurd (ground arith)
        | inr (info, e) ↦ elim (outcome_cases (tokens.mint_into info.asset who amount s.world)) [
          | inr (x, v, g) ↦ absurd (ground arith)
          | inl (m, v, g) ↦
              let out : s'.world ≡ v = ground arith in
              let same : got ≡ m = ground arith in
              (
                info,
                e,
                rw same (laws.mint_amount info.asset who amount m s.world v g),
                rw out (laws.mint_balance info.asset who amount m s.world v g),
                (λ a ne. rw out (laws.mint_others info.asset who amount m s.world v g a ne)),
                rw out (laws.mint_issuance info.asset who amount m s.world v g),
                ground arith,
              )
        ]
      ]
