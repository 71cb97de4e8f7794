-- ===== src/Bridge/Calls.antt =====
-- The dispatchable calls and the hook of pallets/bridge/src/lib.rs. The resource id that
-- `acknowledge_proposal` and `reject_proposal` take is not read by them.
pub mod Keeps
pub mod Honest
pub mod Frozen
use can_bus.Base.{ℕ, List, []}
use can_bus.Frame.Error.{bridge, chain_not_whitelisted, must_be_relayer}
use can_bus.Frame.Call.{
  Call, Origin, ensure, ensure_root, ensure_signed, transactional, ◌>>=◌, ◌>>◌,
}
use can_bus.Bridge.State.{Storage, Config}
use can_bus.Bridge.Relayers.{
  is_relayer, chain_whitelisted, set_relayer_threshold, whitelist, register_relayer,
  unregister_relayer,
}
use can_bus.Bridge.Proposals.{vote_for, vote_against, try_resolve_proposal}

module _ {W : Type 0} (c : Config W) where
  abbrev pub S : Type 0
  S = Storage W

  unfoldable pub set_threshold : Origin → ℕ → Call S (Unit {0})
  set_threshold origin threshold = do ensure_root origin; set_relayer_threshold threshold

  unfoldable pub whitelist_chain : Origin → ℕ → Call S (Unit {0})
  whitelist_chain origin id = do ensure_root origin; whitelist c id

  unfoldable pub add_relayer : Origin → ℕ → Call S (Unit {0})
  add_relayer origin v = do ensure_root origin; register_relayer v

  unfoldable pub remove_relayer : Origin → ℕ → Call S (Unit {0})
  remove_relayer origin v = do ensure_root origin; unregister_relayer v

  unfoldable pub acknowledge_proposal : Origin → ℕ → ℕ → List ℕ → ℕ → Call S (Unit {0})
  acknowledge_proposal origin nonce src_id r_id call = do
    who ← ensure_signed origin
    known ← is_relayer who
    ensure known (bridge must_be_relayer)
    listed ← chain_whitelisted src_id
    ensure listed (bridge chain_not_whitelisted)
    vote_for c who nonce src_id call

  unfoldable pub reject_proposal : Origin → ℕ → ℕ → List ℕ → ℕ → Call S (Unit {0})
  reject_proposal origin nonce src_id r_id call = do
    who ← ensure_signed origin
    known ← is_relayer who
    ensure known (bridge must_be_relayer)
    listed ← chain_whitelisted src_id
    ensure listed (bridge chain_not_whitelisted)
    vote_against c who nonce src_id call

  unfoldable pub eval_vote_state : Origin → ℕ → ℕ → ℕ → Call S (Unit {0})
  eval_vote_state origin nonce src_id prop = do
    ensure_signed origin
    try_resolve_proposal c nonce src_id prop

-- The calls of the pallet, with their arguments.
pub data Request : Type 0 where
  set_thresholds whitelist_chains add_relayers remove_relayers : ℕ → Request
  acknowledge_proposals reject_proposals : ℕ → ℕ → List ℕ → ℕ → Request
  eval_vote_states : ℕ → ℕ → ℕ → Request

module _ {W : Type 0} (c : Config W) where
  abbrev pub call_of : Origin → Request → Call (Storage W) (Unit {0})
  call_of o (set_thresholds n) = set_threshold c o n
  call_of o (whitelist_chains id) = whitelist_chain c o id
  call_of o (add_relayers v) = add_relayer c o v
  call_of o (remove_relayers v) = remove_relayer c o v
  call_of o (acknowledge_proposals n id r p) = acknowledge_proposal c o n id r p
  call_of o (reject_proposals n id r p) = reject_proposal c o n id r p
  call_of o (eval_vote_states n id p) = eval_vote_state c o n id p

  -- A dispatched call is undone as a whole if it fails.
  unfoldable pub dispatch : Origin → Request → Call (Storage W) (Unit {0})
  dispatch o r = transactional (call_of o r)

-- `on_initialize`, less the weight: the transfers of the last block are cleared.
unfoldable pub on_initialize : {W : Type 0} → ℕ → Storage W → Storage W
on_initialize n s = record s { block_number = n; bridge_events = [] }
