-- ===== src/Shutdown.antt =====
-- src/core/shutdown.ts. How a resource answers when it is told to stop is a parameter of the run, and so
-- is whether SQLite's two calls succeed. Signals, the ends of the teardown, the watchdog and the clock are
-- steps of a process, as Node runs it; `process.exit` ends it.
pub mod Teardown
pub mod Exit
mod Tests
use open_smart_charge.Base.{
  ℕ, ◌+◌, ◌≤◌, ◌≡◌, Bool, true, false, ◌&&◌, not, Option, none, some, List, [], ◌∷◌, ◌++◌, map, ltb,
  leb, if◌then◌else◌,
}

-- How a call of `stop` or `close` comes out: its promise resolves, rejects or stays pending, or the call
-- throws before there is a promise.
pub data Stop : Type 0 where
  resolves : Stop
  rejects : Stop
  hangs : Stop
  throws : Stop

pub data Resource : Type 0 where
  http_server : Resource
  ocpp_server : Resource
  mqtt_bridge : Resource
  module_at : ℕ → Resource

pub data Effect : Type 0 where
  clear_interval : ℕ → Effect
  stop : Resource → Effect
  warn : Effect
  checkpoint : Effect
  close_db : Effect
  log_error : Effect

pub record ShutdownContext : Type 0 where
  pub timers : List (Option ℕ)
  pub on_http : Stop
  pub on_ocpp : Option Stop
  pub on_bridge : Option Stop
  pub on_modules : List Stop
  pub can_checkpoint : Bool
  pub can_close : Bool

pub data Ending : Type 0 where
  returned : Ending
  pending : Ending
  threw : Ending

-- The error that `close` reports is ignored, and what throws inside `new Promise` rejects it.
unfoldable pub close_http : Stop → Stop
close_http resolves = resolves
close_http rejects = resolves
close_http hangs = hangs
close_http throws = rejects

unfoldable pub clear_timers : List (Option ℕ) → List Effect
clear_timers [] = []
clear_timers (none ∷ ts) = clear_timers ts
clear_timers (some t ∷ ts) = clear_interval t ∷ clear_timers ts

unfoldable pub if_there : Resource → Option Stop → List (Resource × Stop)
if_there r none = []
if_there r (some s) = (r, s) ∷ []

unfoldable pub number_modules : ℕ → List Stop → List (Resource × Stop)
number_modules n [] = []
number_modules n (s ∷ ss) = (module_at n, s) ∷ number_modules (n + 1) ss

-- What is told to stop, in order.
unfoldable pub resources : ShutdownContext → List (Resource × Stop)
resources c =
    (http_server, close_http c.on_http)
    ∷ (if_there ocpp_server c.on_ocpp
        ++ (if_there mqtt_bridge c.on_bridge ++ number_modules 0 c.on_modules))

unfoldable pub push :
    Resource → Stop → List Effect × Option (List Stop) → List Effect × Option (List Stop)
push r s (es, none) = (stop r ∷ es, none)
push r s (es, some ps) = (stop r ∷ es, some (s ∷ ps))

-- The pushes on `drain`: the calls made, and the promises, unless a call throws.
unfoldable pub drain : List (Resource × Stop) → List Effect × Option (List Stop)
drain [] = ([], some [])
drain ((r, throws) ∷ rs) = (stop r ∷ [], none)
drain ((r, resolves) ∷ rs) = push r resolves (drain rs)
drain ((r, rejects) ∷ rs) = push r rejects (drain rs)
drain ((r, hangs) ∷ rs) = push r hangs (drain rs)

unfoldable pub warn_also : Option (List Effect) → Option (List Effect)
warn_also none = none
warn_also (some es) = some (warn ∷ es)

-- `Promise.allSettled`, and a warning for each rejection.
unfoldable pub all_settled : List Stop → Option (List Effect)
all_settled [] = some []
all_settled (hangs ∷ ps) = none
all_settled (throws ∷ ps) = all_settled ps
all_settled (resolves ∷ ps) = all_settled ps
all_settled (rejects ∷ ps) = warn_also (all_settled ps)

-- The flush and the close of the database.
unfoldable pub close_database : Bool → Bool → List Effect
close_database false can_close = checkpoint ∷ log_error ∷ []
close_database true false = checkpoint ∷ close_db ∷ log_error ∷ []
close_database true true = checkpoint ∷ close_db ∷ []

unfoldable pub settled : ShutdownContext → List Effect → Option (List Effect) → List Effect × Ending
settled c es none = (es, pending)
settled c es (some ws) = (es ++ (ws ++ close_database c.can_checkpoint c.can_close), returned)

unfoldable pub drained : ShutdownContext → List Effect × Option (List Stop) → List Effect × Ending
drained c (es, none) = (es, threw)
drained c (es, some ps) = settled c es (all_settled ps)

unfoldable pub graceful_shutdown : ShutdownContext → List Effect × Ending
graceful_shutdown c =
    let (es, ending) = drained c (drain (resources c)) in (clear_timers c.timers ++ es, ending)

pub data Signal : Type 0 where
  sigint sigterm : Signal

-- How a process ends: by a code, or by the default action of a signal without a listener.
pub data Cause : Type 0 where
  with_code : ℕ → Cause
  killed : Cause

-- The process with the handler of `createSignalShutdown`; `began` is when its teardown began, and
-- `on_sigint` and `on_sigterm` tell whether the listeners of `process.once` are still there.
pub record Process : Type 0 where
  pub now : ℕ
  pub on_sigint : Bool
  pub on_sigterm : Bool
  pub shutting_down : Bool
  pub watchdog : Option ℕ
  pub began : Option ℕ
  pub exited : Option Cause

abbrev pub running_at : ℕ → Process
running_at now = record {
  now = now;
  on_sigint = true;
  on_sigterm = true;
  shutting_down = false;
  watchdog = none;
  began = none;
  exited = none;
}

-- The handler.
unfoldable pub on_signal : ℕ → Process → Process
on_signal timeout p =
    if p.shutting_down
    then p
    else record p { shutting_down = true; watchdog = some (p.now + timeout); began = some p.now }

-- `process.once`: the listener is taken away before it is called, and a signal without one kills.
unfoldable pub signalled : ℕ → Signal → Process → Process
signalled timeout sigint p =
    if p.on_sigint
    then on_signal timeout (record p { on_sigint = false })
    else record p { exited = some killed }
signalled timeout sigterm p =
    if p.on_sigterm
    then on_signal timeout (record p { on_sigterm = false })
    else record p { exited = some killed }

unfoldable pub on_drained : Process → Process
on_drained p = record p { watchdog = none; exited = some (with_code 0) }

abbrev pub exits : ℕ → Process → Process
exits code p = record p { exited = some (with_code code) }

unfoldable pub is_due : Option ℕ → ℕ → Bool
is_due none now = false
is_due (some t) now = leb t now

-- A step of a process that lives. A teardown that throws rejects the handler's promise, which nobody
-- handles: the process exits with 1. The watchdog keeps no process alive, so that one whose teardown
-- waits for nothing that is open exits with 0. A timer that is due runs at some later time.
pub data ProcessStep (timeout : ℕ) (ending : Ending) : Process → Process → Type 0 where
  by_signal :
      (sig : Signal) (p : Process)
      → p.exited ≡ none
      → ProcessStep timeout ending p (signalled timeout sig p)
  by_drain :
      (p : Process)
      → p.exited ≡ none
      → p.shutting_down ≡ true
      → ending ≡ returned
      → ProcessStep timeout ending p (on_drained p)
  by_rejection :
      (p : Process)
      → p.exited ≡ none
      → p.shutting_down ≡ true
      → ending ≡ threw
      → ProcessStep timeout ending p (exits 1 p)
  by_idling :
      (p : Process)
      → p.exited ≡ none
      → p.shutting_down ≡ true
      → ending ≡ pending
      → ProcessStep timeout ending p (exits 0 p)
  by_watchdog :
      (p : Process)
      → p.exited ≡ none
      → is_due p.watchdog p.now ≡ true
      → ProcessStep timeout ending p (exits 1 p)
  by_time :
      (p : Process) → p.exited ≡ none → ProcessStep timeout ending p (record p { now = p.now + 1 })

pub data ProcessRuns (timeout : ℕ) (ending : Ending) : Process → Process → Type 0 where
  done : (p : Process) → ProcessRuns timeout ending p p
  next :
      {p q r : Process}
      → ProcessRuns timeout ending p q
      → ProcessStep timeout ending q r
      → ProcessRuns timeout ending p r
