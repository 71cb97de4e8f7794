-- ===== src/Bridge/Relayers/Nonces.antt =====
-- The nonces of the transfers that leave the chain.
use can_bus.Base.{
  ℕ, zero, suc, ◌+◌, ◌-◌, ◌^◌, ◌<◌, min, ◌≡◌, ◌≢◌, ◌↔◌, refl, ap, true, some, List, [], ◌∷◌, ◌++◌,
  ◌==◌, is_some, if◌then◌else◌, Bool-cases, inl, inr, arith,
}
use can_bus.Frame.Call.{ok}
use can_bus.Bridge.State.{
  Storage, BridgeEvent, fungible_transfer, non_fungible_transfer, generic_transfer,
}
use can_bus.Bridge.Relayers.{signal_transfer_fungible, nonce_or_zero}

-- The nonces under which a list of bridge events sends fungibles to a chain, oldest first.
abbrev pub nonce_of : ℕ → BridgeEvent → List ℕ → List ℕ
nonce_of id (fungible_transfer dest n r a to) rest = if id == dest then n ∷ rest else rest
nonce_of id (non_fungible_transfer dest n r a b m) rest = rest
nonce_of id (generic_transfer dest n r m) rest = rest

abbrev pub nonces_of : ℕ → List BridgeEvent → List ℕ
nonces_of id [] = []
nonces_of id (e ∷ es) = nonce_of id e (nonces_of id es)

-- `from + 1, …, from + k`.
abbrev pub consecutive : ℕ → ℕ → List ℕ
consecutive from zero = []
consecutive from (suc k) = suc from ∷ consecutive (suc from) k

consecutive-snoc :
    (from k m : ℕ) → m ≡ from + k + 1 → consecutive from k ++ m ∷ [] ≡ consecutive from (suc k)
consecutive-snoc from zero m h = ap (λ (x : ℕ). x ∷ []) (omega (arith, h))
consecutive-snoc from (suc k) m h =
    ap (◌∷◌ (suc from)) (consecutive-snoc (suc from) k m (omega (arith, h)))

nonces_of-push :
    (id : ℕ) (es : List BridgeEvent) (dest n a : ℕ) (r to : List ℕ)
    → nonces_of id (es ++ fungible_transfer dest n r a to ∷ [])
      ≡ (if id == dest then nonces_of id es ++ n ∷ [] else nonces_of id es)
nonces_of-push id [] dest n a r to = refl
nonces_of-push id (fungible_transfer d m q b t ∷ es) dest n a r to =
    ground (arith, nonces_of-push id es dest n a r to)
nonces_of-push id (non_fungible_transfer d m q b t u ∷ es) dest n a r to =
    nonces_of-push id es dest n a r to
nonces_of-push id (generic_transfer d m q b ∷ es) dest n a r to = nonces_of-push id es dest n a r to

module _ {W : Type 0} where
  -- For every chain the transfers that are signalled in this block go under consecutive nonces, the
  -- last of which is the chain's stored nonce.
  pub record IsConsecutive (s : Storage W) : Type 0 where
    pub from : ℕ → ℕ
    pub sent : ℕ → ℕ
    pub nonces : (id : ℕ) → nonces_of id s.bridge_events ≡ consecutive (from id) (sent id)
    pub stored : (id : ℕ) → nonce_or_zero (s.chain_nonces id) ≡ from id + sent id

  -- A signal succeeds exactly when the chain is whitelisted and its nonce has not reached 2^64 - 1.
  -- It then takes the next nonce, stores it, and appends one event with it; where it fails the
  -- storage stays as it was.
  pub signal_transfer_fungible_next :
      (dest amount : ℕ) (r to : List ℕ) (s : Storage W)
      → let n = nonce_or_zero (s.chain_nonces dest) + 1 in
        let out = signal_transfer_fungible dest r to amount s in
        ((out.0 ≡ ok tt) ↔ ((is_some (s.chain_nonces dest) ≡ true) × (n < 2 ^ 64)))
        × (out.0 ≡ ok tt
            → (out.1.chain_nonces dest ≡ some n)
              × (out.1.bridge_events
                  ≡ s.bridge_events
                    ++ fungible_transfer dest n r (min amount (2 ^ 128 - 1)) to ∷ [])
              × ((id : ℕ) → id ≢ dest → out.1.chain_nonces id ≡ s.chain_nonces id))
        × (out.0 ≢ ok tt → out.1 ≡ s)
  unfolding signal_transfer_fungible
  signal_transfer_fungible_next dest amount r to s = (
    ((λ h. (ground arith, ground arith)), (λ h. ground arith)),
    (λ h. (ground arith, ground arith, λ id ne. ground arith)),
    (λ h. ground arith),
  )

  -- A signal that succeeds keeps the nonces of the block consecutive, for the chain it goes to and all others.
  pub signal_transfer_fungible-IsConsecutive :
      (dest amount : ℕ) (r to : List ℕ) (s s' : Storage W)
      → signal_transfer_fungible dest r to amount s ≡ (ok tt, s')
      → IsConsecutive s
      → IsConsecutive s'
  unfolding signal_transfer_fungible
  signal_transfer_fungible-IsConsecutive dest amount r to s s' h v = record {
    from = v.from;
    sent = λ id. if id == dest then suc (v.sent id) else v.sent id;
    nonces = λ id.
        let n = nonce_or_zero (s.chain_nonces dest) + 1 in
        let a = min amount (2 ^ 128 - 1) in
        let grown : s'.bridge_events ≡ s.bridge_events ++ fungible_transfer dest n r a to ∷ [] =
          ground arith in
        rw grown (elim (Bool-cases (id == dest)) [
          | inl hit ↦
              let same : id ≡ dest = ground arith in
              let next : n ≡ v.from id + v.sent id + 1 = rw same (omega (arith, v.stored dest)) in
              rw (nonces_of-push id s.bridge_events dest n a r to, hit, v.nonces id)
                (consecutive-snoc (v.from id) (v.sent id) n next)
          | inr miss ↦ rw (nonces_of-push id s.bridge_events dest n a r to, miss) (v.nonces id)
        ]);
    stored = λ id. ground (arith, v.stored id, v.stored dest);
  }
