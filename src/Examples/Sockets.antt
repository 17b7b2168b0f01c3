-- ===== src/Examples/Sockets.antt =====
-- The models of the sockets, the relay and the vendors' registry at concrete inputs.
use pvpentech_core.Common.{
  ◌≡◌, ◌≢◌, ◌⊎◌, ℕ, refl, arith, String, Bool, true, false, List, [], ◌∷◌, Option, none, some,
  str_eq, any, All, if◌then◌else◌,
}
use pvpentech_core.Database.Memory.{memory, memory-IsClient, memory-IsWorking}
use pvpentech_core.Connections.{Connections, get, unregister}
use pvpentech_core.Server.{Server, on_connection, close_reason, on_close, on_error}
use pvpentech_core.Server.Laws.{GoesOffline, on_close-replaced, on_close-current, on_close-on_error}
use pvpentech_core.Relay.{Broker, Relay, next, process_event, tick}
use pvpentech_core.Relay.Laws.{IsLive, tick-IsLive}
use pvpentech_core.Relay.Attempts.{after_attempt, process_event_lem}
use pvpentech_core.Examples.{context, waiting_event, db}

abbrev sockets : Connections
sockets = ("CP1", 5) ∷ []

abbrev server : Server
server = record { connections = sockets; db = db }

on_close-replaced_example :
    on_close context "CP1" 5 "1000" "" (on_connection "CP1" 6 server).0
    ≡ (on_connection "CP1" 6 server).0
on_close-replaced_example =
    on_close-replaced context memory-IsClient "CP1" 5 6 "1000" "" server (λ h. absurd (omega arith))

has_socket : get "CP1" sockets ≡ some 5
unfolding get pvpentech_core.Common.lookup
has_socket = refl

on_close-current_example :
    (get "CP1" (on_close context "CP1" 5 "1000" "" server).connections ≡ none)
    × GoesOffline context memory-IsClient "CP1"
        (close_reason context "CP1" "1000" "")
        db
        (on_close context "CP1" 5 "1000" "" server).db
on_close-current_example =
    on_close-current context memory-IsClient "CP1" 5 "1000" "" server has_socket

on_close-on_error_example :
    on_close context "CP1" 5 "1006" "" (on_error context "CP1" 5 server)
    ≡ record { connections = unregister "CP1" sockets; db = db }
on_close-on_error_example =
    on_close-on_error context memory-IsClient "CP1" 5 "1006" "" server has_socket

-- A broker that is away, and whose dead letters are too.
abbrev away : Broker
away = record {
  publish = λ ev. some "ECONNREFUSED";
  dead_letter = λ ev. false;
  page = λ p n rows. some rows;
  update_error = "";
}

abbrev relay : Relay
relay = record { running = false; outbox = waiting_event ∷ []; stream = []; dead = [] }

process_event_lem_example :
    process_event memory away 1000000 waiting_event relay
    ≡ next (
        after_attempt memory memory-IsClient memory-IsWorking away 1000000 waiting_event
          (some "ECONNREFUSED")
          relay)
process_event_lem_example =
    process_event_lem memory memory-IsClient memory-IsWorking away 1000000 waiting_event relay refl

tick-IsLive_example :
    All IsLive (tick memory away 1000000 relay).outbox
    × (((false ≡ true) × (tick memory away 1000000 relay ≡ relay))
        ⊎ ((false ≡ false) × ((tick memory away 1000000 relay).running ≡ false)))
tick-IsLive_example = tick-IsLive memory memory-IsClient away 1000000 relay (λ h. omega arith, tt)
