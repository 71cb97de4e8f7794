-- ===== src/Bridge/Calls/Honest.antt =====
-- No relayer votes twice, whatever calls are made.
use can_bus.Base.{ℕ, ◌≡◌}
use can_bus.Frame.Call.{Origin}
use can_bus.Bridge.State.{Storage, Config}
use can_bus.Bridge.Proposals.Honest.{
  IsHonest, vote_for-IsHonest, vote_against-IsHonest, try_resolve_proposal-IsHonest,
}
use can_bus.Bridge.Calls.{Request, dispatch}
use can_bus.Bridge.Calls.Keeps.{dispatch-keeps}

module _ {W : Type 0} (c : Config W) where
  votes-IsHonest : (s t : Storage W) → t.votes ≡ s.votes → IsHonest c s → IsHonest c t
  votes-IsHonest s t e h = record { once = λ i j k. rw e (h.once i j k) }

  -- Every call of the pallet keeps that no account has voted twice on a proposal, if the calls
  -- that approved proposals dispatch do.
  pub dispatch-IsHonest :
      ((a call : ℕ) (s : Storage W) → IsHonest c s → IsHonest c (c.dispatch_call a call s).1)
      → (o : Origin) (r : Request) (s : Storage W) → IsHonest c s
      → IsHonest c (dispatch c o r s).1
  dispatch-IsHonest keeps =
      dispatch-keeps c (IsHonest c) votes-IsHonest (vote_for-IsHonest c keeps)
        (vote_against-IsHonest c keeps) (try_resolve_proposal-IsHonest c keeps)
