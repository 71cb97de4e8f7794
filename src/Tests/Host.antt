-- ===== src/Tests/Host.antt =====
-- A concrete host without gas, and concrete assets with approvals, with the laws that the theorems
-- assume of them.
use can_bus.Base.{
  ℕ, ◌+◌, ◌-◌, ◌≡◌, ◌≢◌, ◌⊎◌, ◌∷◌, [], refl, ap, ◌∙◌, none, leb, ◌==◌, if◌then◌else◌, arith, inl,
  inr,
}
use can_bus.Frame.Call.{Call, Origin, signed, root, unsigned, Result, ok, err}
use can_bus.Frame.Error.{other}
use can_bus.Frame.Storage.{insert₂}
use can_bus.Precompile.Host.{
  PrecompileFailure, Host, HostLaws, View, EvmResult, done, failed, other_failure, pure,
}
use can_bus.Precompile.Erc20.Assets.{Assets, AssetsLaws}

abbrev settle : {W : Type 0} → Result (Unit {0}) × W → View W → EvmResult (Unit {0}) × View W
settle (ok u, w) h = (done tt, record h { world = w })
settle (err e, w) h = (failed (other_failure 0), h)

-- Accounts are addresses.
abbrev pub host_of : {W : Type 0} → ℕ → Host W
host_of {W} who = record {
  Handle = View W;
  view = λ h. h;
  caller = who;
  address = 2049;
  into_account_id = λ a. a;
  record_db_read = λ n. pure tt;
  record_log_costs_manual = λ n m. pure tt;
  record_log = λ l h. (done tt, record h { logs = l ∷ h.logs });
  try_dispatch = λ call h. settle (call h.world) h;
}

settle-done :
    {W : Type 0} (r : Result (Unit {0}) × W) (h h' : View W)
    → settle r h ≡ (done tt, h')
    → (w : W) × (r ≡ (ok tt, w)) × (h' ≡ record h { world = w })
settle-done (ok u, w) h h' e = (w, refl, ground arith)
settle-done (err x, w) h h' e = absurd (ground arith)

settle-failed :
    {W : Type 0} (r : Result (Unit {0}) × W) (h h' : View W) {e : PrecompileFailure}
    → settle r h ≡ (failed e, h')
    → h' ≡ h
settle-failed (ok u, w) h h' q = absurd (ground arith)
settle-failed (err x, w) h h' q = ground arith

pub host-HostLaws : {W : Type 0} (who : ℕ) → HostLaws (host_of {W = W} who)
host-HostLaws who = record {
  db_read_view = λ n h h' r e. ground arith;
  log_costs_view = λ n m h h' r e. ground arith;
  log_done = λ l h h' e. ground arith;
  dispatch_done = λ call h h' e. settle-done (call h.world) h h' e;
  dispatch_failed = λ call h h' x e. settle-failed (call h.world) h h' e;
}

-- Holdings of each account and what it lets another spend, by asset.
pub record Ledger : Type 0 where
  pub held : ℕ → ℕ → ℕ
  pub approved : ℕ → ℕ → ℕ → ℕ

abbrev approve : ℕ → ℕ → ℕ → ℕ → Ledger → Ledger
approve id owner delegate amount w = record w {
  approved = λ i o d.
      if i == id
      then (if o == owner
          then (if d == delegate then amount else w.approved i o d)
          else w.approved i o d)
      else w.approved i o d;
}

abbrev by : Origin → (ℕ → Call Ledger (Unit {0})) → Call Ledger (Unit {0})
by (signed who) f = f who
by root f = λ w. (err (other 0), w)
by unsigned f = λ w. (err (other 0), w)

abbrev move : ℕ → ℕ → ℕ → ℕ → Call Ledger (Unit {0})
move id from to n w =
    let less = insert₂ id from (w.held id from - n) w.held in
    if leb n (w.held id from)
    then (ok tt, record w { held = insert₂ id to (less id to + n) less })
    else (err (other 0), w)

abbrev pub assets : Assets Ledger
assets = record {
  maybe_total_supply = λ id w. none;
  total_issuance = λ id w. 0;
  balance = λ id who w. w.held id who;
  allowance = λ id owner delegate w. w.approved id owner delegate;
  minimum_balance = λ id w. 1;
  name = λ id w. [];
  symbol = λ id w. [];
  decimals = λ id w. 18;
  extra_max_encoded_len = 0;
  string_limit = 50;
  transfer = λ o id to n. by o (λ who. move id who to n);
  transfer_approved = λ o id owner to n. by o (λ who w.
      if leb n (w.approved id owner who)
      then move id owner to n (approve id owner who (w.approved id owner who - n) w)
      else (err (other 0), w));
  approve_transfer = λ o id delegate n.
      by o (λ who w. (ok tt, approve id who delegate (w.approved id who delegate + n) w));
  cancel_approval = λ o id delegate. by o (λ who w. (ok tt, approve id who delegate 0 w));
  mint = λ o id to n.
      by o (λ who w. (ok tt, record w { held = insert₂ id to (w.held id to + n) w.held }));
  burn = λ o id from n.
      by o (λ who w. (ok tt, record w { held = insert₂ id from (w.held id from - n) w.held }));
}

approve-here :
    (id owner delegate amount : ℕ) (w : Ledger)
    → (approve id owner delegate amount w).approved id owner delegate ≡ amount
approve-here id owner delegate amount w = ground arith

approve-others :
    (id owner delegate amount : ℕ) (w : Ledger) (i o d : ℕ)
    → (i ≢ id) ⊎ ((o ≢ owner) ⊎ (d ≢ delegate))
    → (approve id owner delegate amount w).approved i o d ≡ w.approved i o d
approve-others id owner delegate amount w i o d (inl ne) = ground arith
approve-others id owner delegate amount w i o d (inr (inl ne)) = ground arith
approve-others id owner delegate amount w i o d (inr (inr ne)) = ground arith

approve-eq :
    {v w' : Ledger} → (◌≡◌ {A = Result (Unit {0}) × Ledger} (ok tt, v) (ok tt, w')) → w' ≡ v
approve-eq e = ground arith

pub assets-AssetsLaws : AssetsLaws assets
assets-AssetsLaws = record {
  approve_adds = λ id owner delegate amount w w' e.
      ap (λ (x : Ledger). x.approved id owner delegate) (approve-eq e)
      ∙ approve-here id owner delegate (w.approved id owner delegate + amount) w;
  approve_others = λ id owner delegate amount w w' e i o d ne.
      ap (λ (x : Ledger). x.approved i o d) (approve-eq e)
      ∙ approve-others id owner delegate (w.approved id owner delegate + amount) w i o d ne;
  cancel_clears = λ id owner delegate w w' e.
      ap (λ (x : Ledger). x.approved id owner delegate) (approve-eq e)
      ∙ approve-here id owner delegate 0 w;
  cancel_others = λ id owner delegate w w' e i o d ne.
      ap (λ (x : Ledger). x.approved i o d) (approve-eq e)
      ∙ approve-others id owner delegate 0 w i o d ne;
}

abbrev pub ledger : Ledger
ledger = record { held = λ id who. 1000; approved = λ id owner delegate. 7 }
