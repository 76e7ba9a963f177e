-- ===== src/Shutdown/Tests.antt =====
-- Runs of the teardown and of the signal's handler, after shutdown.test.ts.
use open_smart_charge.Base.{◌≡◌, refl, true, false, none, some, [], ◌∷◌}
use open_smart_charge.Shutdown.{
  resolves, rejects, throws, http_server, ocpp_server, mqtt_bridge, module_at, clear_interval, stop,
  warn, checkpoint, close_db, ShutdownContext, returned, threw, close_http, clear_timers, if_there,
  number_modules, resources, push, drain, warn_also, all_settled, close_database, settled, drained,
  graceful_shutdown, Process, running_at, on_signal, signalled, sigint, with_code, killed,
}
use open_smart_charge.Shutdown.Teardown.{described, graceful_shutdown-described}

-- The bridge fails to stop.
abbrev with_failure : ShutdownContext
with_failure = record {
  timers = some 1 ∷ none ∷ some 2 ∷ [];
  on_http = resolves;
  on_ocpp = some resolves;
  on_bridge = some rejects;
  on_modules = resolves ∷ resolves ∷ [];
  can_checkpoint = true;
  can_close = true;
}

-- The first module throws at once.
abbrev with_throw : ShutdownContext
with_throw = record with_failure { on_modules = throws ∷ resolves ∷ [] }

failure_strands_nothing : graceful_shutdown with_failure ≡ (
  clear_interval 1
      ∷ clear_interval 2
      ∷ stop http_server
      ∷ stop ocpp_server
      ∷ stop mqtt_bridge
      ∷ stop (module_at 0)
      ∷ stop (module_at 1)
      ∷ warn
      ∷ checkpoint
      ∷ close_db
      ∷ [],
  returned,
)
unfolding graceful_shutdown drained settled close_database all_settled warn_also drain push
    resources number_modules if_there clear_timers close_http
failure_strands_nothing = refl

throw_strands_the_rest : graceful_shutdown with_throw ≡ (
  clear_interval 1
      ∷ clear_interval 2
      ∷ stop http_server
      ∷ stop ocpp_server
      ∷ stop mqtt_bridge
      ∷ stop (module_at 0)
      ∷ [],
  threw,
)
unfolding graceful_shutdown drained settled close_database all_settled warn_also drain push
    resources number_modules if_there clear_timers close_http
throw_strands_the_rest = refl

graceful_shutdown-described_example : graceful_shutdown with_throw ≡ described with_throw
graceful_shutdown-described_example = graceful_shutdown-described with_throw

-- A teardown that hangs, the other signal, and the watchdog, late after two milliseconds.
abbrev forced : Process
forced = record {
  now = 8;
  on_sigint = false;
  on_sigterm = false;
  shutting_down = true;
  watchdog = some 7;
  began = some 5;
  exited = some (with_code 1);
}

second_interrupt_kills :
    (signalled 2 sigint (signalled 2 sigint (running_at 5))).exited ≡ some killed
unfolding signalled on_signal
second_interrupt_kills = refl
