-- ===== src/Tests/Template.antt =====
-- Runs of pallets/template/src/lib.rs and its precompile.
use can_bus.Base.{◌+◌, ◌-◌, ◌^◌, ◌≡◌, min, none, some, [], ◌∷◌, refl, arith}
use can_bus.Precompile.Host.{View}
use can_bus.Template.{Storage, do_something, something_stored}
use can_bus.Template.Counts.{after_errors, after_errors_saturates}
use can_bus.Template.Precompile.{do_something_inner, log_something}
use can_bus.Template.Precompile as Contracts
use can_bus.Template.Logs.{do_something_stores}
use can_bus.Tests.Host.{host_of, host-HostLaws}

abbrev nearly_full : Storage
nearly_full = record { something = some (2 ^ 32 - 2); events = [] }

after_errors_saturates_example :
    after_errors 7 3 nearly_full
    ≡ record nearly_full { something = some (min (2 ^ 32 - 2 + 3) (2 ^ 32 - 1)) }
after_errors_saturates_example =
    after_errors_saturates 7 3 (2 ^ 32 - 2) nearly_full refl (omega arith)

abbrev before : View Storage
before = record { world = record { something = none; events = [] }; logs = [] }

abbrev after : View Storage
after = (Contracts.do_something (host_of 7) 12 before).1

do_something_stores_example : after ≡ record {
  world = record { something = some 12; events = something_stored 12 7 ∷ [] };
  logs = log_something (host_of 7) 12 ∷ [];
}
unfolding Contracts.do_something do_something
do_something_stores_example = do_something_stores (host_of 7) (host-HostLaws 7) 12 before after refl
