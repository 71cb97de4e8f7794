-- ===== src/Staking/Calls/Hook.antt =====
-- The hook in a storage in which every stake that waits can be settled.
use can_bus.Base.{ℕ, ◌^◌, ◌<◌, ◌≡◌, ◌∙◌, refl, sym, ap, leb, Bool-cases, inl, inr, [], ◌∷◌, arith}
use can_bus.Frame.Call.{Result, ok}
use can_bus.Staking.State.{Storage, Config}
use can_bus.Staking.Pending.{begin_block, begin_block_with, solve_pending}
use can_bus.Staking.Pending.Queue.{Queue, IsSorted, time_of, later, later_sorted}
use can_bus.Staking.Pending.Solve.{solve_pending-Settles}
use can_bus.Staking.Pending.Progress.{IsReady, solve_pending_succeeds}
use can_bus.Staking.Calls.{on_initialize, S}
use can_bus.Staking.Calls.Soundness.{IsSound}
use can_bus.Staking.Calls.Invariant.{on_initialize-IsSound}

begin_block_with-later :
    {W : Type 0} (q : Queue) (n : ℕ) (s s' : Storage W)
    → s.pending_setup ≡ q
    → IsSorted s.pending_setup
    → solve_pending n s ≡ (ok tt, s')
    → (begin_block_with q n s).pending_setup ≡ later n q
unfolding later
begin_block_with-later [] n s s' e sorted ran = e
begin_block_with-later {W = W} (x ∷ q) n s s' e sorted ran = elim (Bool-cases (leb (time_of x) n)) [
  | inr early ↦ rw early (e ∙ sym (later_sorted n x q (rw e at sorted) (ground arith)))
  | inl due ↦
      let (left, _) = solve_pending-Settles n s s' sorted ran in
      rw due (
        ap (λ (o : Result (Unit {0}) × Storage W). o.1.pending_setup) ran ∙ (left ∙ ap (later n) e))
]

module _ (c : Config) where
  -- In a block of 32 bits, where the storage is sound, every entry of the queue stakes something, every
  -- position counts since a block of 32 bits, and what pools and users hold, the queue counted in, is
  -- below 2^95, the hook keeps the storage sound and leaves exactly the entries in the queue that are
  -- not effective yet, in their order.
  pub on_initialize_settles :
      (n : ℕ) (s : S c)
      → n < 2 ^ 32
      → IsSound c s
      → IsReady s.pending_setup s
      → IsSound c (on_initialize n s)
        × ((on_initialize n s).pending_setup ≡ later n s.pending_setup)
  unfolding on_initialize begin_block
  on_initialize_settles n s block v r =
      let now : S c = record s { block_number = n } in
      let (t, ran) = solve_pending_succeeds n now block (record {
        positive = r.positive;
        pending = r.pending;
        pool = r.pool;
        user = r.user;
        pool_room = r.pool_room;
        user_room = r.user_room;
      }) in
      (
        on_initialize-IsSound c n s (ap (λ (o : Result (Unit {0}) × S c). o.0) ran) v,
        begin_block_with-later s.pending_setup n now t refl v.sorted ran,
      )
