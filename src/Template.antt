-- ===== src/Template.antt =====
-- pallets/template/src/lib.rs, and precompiles/template/src/lib.rs, which calls it from contracts.
pub mod Counts
pub mod Precompile
pub mod Logs
use can_bus.Base.{ℕ, Option, none, some, List, ◌∷◌, checked_add}
use can_bus.Frame.Error.{template, none_value, storage_overflow}
use can_bus.Frame.Call.{
  Call, Origin, fail, gets, modify, ok_or, ensure_signed, transactional, ◌>>=◌, ◌>>◌,
}

pub data Event : Type 0 where
  -- The value, and who set it.
  something_stored : ℕ → ℕ → Event

pub record Storage : Type 0 where
  pub something : Option ℕ
  -- The newest event stands first.
  pub events : List Event

unfoldable pub do_something : Origin → ℕ → Call Storage (Unit {0})
do_something origin value = do
  who ← ensure_signed origin
  modify (λ s. record s { something = some value })
  modify (λ s. record s { events = something_stored value who ∷ s.events })

-- The `match` of `cause_error` on the stored value.
unfoldable pub increment : Option ℕ → Call Storage (Unit {0})
increment none = fail (template none_value)
increment (some old) = do
  new ← ok_or (checked_add 32 old 1) (template storage_overflow)
  modify (λ s. record s { something = some new })

unfoldable pub cause_error : Origin → Call Storage (Unit {0})
unfolding increment
cause_error origin = do ensure_signed origin; old ← gets (λ s. s.something); increment old

-- The calls of the pallet, with their arguments.
pub data Request : Type 0 where
  do_somethings : ℕ → Request
  cause_errors : Request

abbrev pub call_of : Origin → Request → Call Storage (Unit {0})
call_of o (do_somethings value) = do_something o value
call_of o cause_errors = cause_error o

-- A dispatched call is undone as a whole if it fails.
unfoldable pub dispatch : Origin → Request → Call Storage (Unit {0})
dispatch o r = transactional (call_of o r)
