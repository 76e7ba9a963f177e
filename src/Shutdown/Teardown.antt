-- ===== src/Shutdown/Teardown.antt =====
-- What a teardown does, however its parts come out.
use open_smart_charge.Base.{
  ℕ, ◌+◌, zero, suc, ◌≡◌, refl, Bool, true, false, Option, ap, none, some, List, [], ◌∷◌, ◌++◌, map,
  any_by, filter_by, length, if◌then◌else◌, Bool-cases, inl, inr,
}
use open_smart_charge.Shutdown.{
  clear_interval, http_server, ocpp_server, mqtt_bridge, module_at, checkpoint, close_db, log_error,
  close_http, if_there, number_modules, Stop, resolves, rejects, hangs, throws, Resource, Effect,
  stop, warn, ShutdownContext, Ending, returned, pending, threw, clear_timers, resources, push,
  drain, warn_also, all_settled, close_database, settled, drained, graceful_shutdown,
}

unfoldable pub is_throw : Stop → Bool
is_throw throws = true
is_throw resolves = false
is_throw rejects = false
is_throw hangs = false

unfoldable pub is_hang : Stop → Bool
is_hang hangs = true
is_hang resolves = false
is_hang rejects = false
is_hang throws = false

unfoldable pub is_reject : Stop → Bool
is_reject rejects = true
is_reject resolves = false
is_reject hangs = false
is_reject throws = false

abbrev pub stops : List (Resource × Stop) → List Effect
stops rs = map (λ r. stop r.0) rs

abbrev pub answers : List (Resource × Stop) → List Stop
answers rs = map (λ r. r.1) rs

-- The resources up to the first call that throws, it included.
unfoldable pub up_to_throw : List (Resource × Stop) → List (Resource × Stop)
up_to_throw [] = []
up_to_throw ((r, s) ∷ rs) = (r, s) ∷ (let rest = up_to_throw rs in if is_throw s then [] else rest)

unfoldable pub warnings : ℕ → List Effect
warnings zero = []
warnings (suc n) = warn ∷ warnings n

unfoldable pub modules_from : ℕ → List Stop → List (Resource × Stop)
modules_from n [] = []
modules_from n (s ∷ ss) = (module_at n, s) ∷ modules_from (n + 1) ss

-- The values that are there.
abbrev pub somes {ℓ} : {A : Type ℓ} → List (Option A) → List A
somes [] = []
somes (none ∷ os) = somes os
somes (some a ∷ os) = a ∷ somes os

-- The timers that are set.
abbrev pub cleared : List (Option ℕ) → List Effect
cleared ts = map clear_interval (somes ts)

-- Who has to stop and what each answers: the HTTP server, whose own error does not count and whose throw
-- rejects its promise; the OCPP server and the bridge where there is one; and every module.
abbrev pub http_answer : Stop → Stop
http_answer s = if is_throw s then rejects else if is_hang s then hangs else resolves

abbrev pub optional : Resource → Option Stop → List (Resource × Stop)
optional r o = map (λ s. (r, s)) (somes (o ∷ []))

abbrev pub told : ShutdownContext → List (Resource × Stop)
told c =
    (http_server, http_answer c.on_http)
    ∷ (optional ocpp_server c.on_ocpp
        ++ (optional mqtt_bridge c.on_bridge ++ modules_from 0 c.on_modules))

-- The database is flushed, and then closed; an error of either is logged and ends that.
abbrev pub closing : Bool → Bool → List Effect
closing can_checkpoint can_close =
    checkpoint
    ∷ (if can_checkpoint
        then close_db ∷ (if can_close then [] else log_error ∷ [])
        else log_error ∷ [])

-- The teardown as a whole, by what its parts answer.
unfoldable pub described : ShutdownContext → List Effect × Ending
described c =
    let ps = answers (told c) in
    if any_by is_throw ps
    then (cleared c.timers ++ stops (up_to_throw (told c)), threw)
    else if any_by is_hang ps
    then (cleared c.timers ++ stops (told c), pending)
    else (
      cleared c.timers
          ++ (stops (told c)
              ++ (warnings (length (filter_by is_reject ps))
                  ++ closing c.can_checkpoint c.can_close)),
      returned,
    )

clear_timers-cleared : (ts : List (Option ℕ)) → clear_timers ts ≡ cleared ts
unfolding clear_timers
clear_timers-cleared [] = refl
clear_timers-cleared (none ∷ ts) = clear_timers-cleared ts
clear_timers-cleared (some t ∷ ts) = ap (λ es. clear_interval t ∷ es) (clear_timers-cleared ts)

close_http_answer : (s : Stop) → close_http s ≡ http_answer s
unfolding close_http is_throw is_hang
close_http_answer resolves = refl
close_http_answer rejects = refl
close_http_answer hangs = refl
close_http_answer throws = refl

if_there-optional : (r : Resource) (o : Option Stop) → if_there r o ≡ optional r o
unfolding if_there
if_there-optional r none = refl
if_there-optional r (some s) = refl

number_modules-from : (n : ℕ) (ss : List Stop) → number_modules n ss ≡ modules_from n ss
unfolding number_modules modules_from
number_modules-from n [] = refl
number_modules-from n (s ∷ ss) = ap (λ rs. (module_at n, s) ∷ rs) (number_modules-from (n + 1) ss)

resources-told : (c : ShutdownContext) → resources c ≡ told c
unfolding resources
resources-told c =
    rw
      (
        close_http_answer c.on_http,
        if_there-optional ocpp_server c.on_ocpp,
        if_there-optional mqtt_bridge c.on_bridge,
        number_modules-from 0 c.on_modules,
      )
      refl

close_database-closing : (a b : Bool) → close_database a b ≡ closing a b
unfolding close_database
close_database-closing false b = refl
close_database-closing true false = refl
close_database-closing true true = refl

drain_ends_early :
    (rs : List (Resource × Stop))
    → any_by is_throw (answers rs) ≡ true
    → drain rs ≡ (stops (up_to_throw rs), none)
unfolding drain push is_throw up_to_throw
drain_ends_early [] e = cc
drain_ends_early ((r, throws) ∷ rs) e = refl
drain_ends_early ((r, resolves) ∷ rs) e = rw (drain_ends_early rs e) refl
drain_ends_early ((r, rejects) ∷ rs) e = rw (drain_ends_early rs e) refl
drain_ends_early ((r, hangs) ∷ rs) e = rw (drain_ends_early rs e) refl

drain-answers :
    (rs : List (Resource × Stop))
    → any_by is_throw (answers rs) ≡ false
    → drain rs ≡ (stops rs, some (answers rs))
unfolding drain push is_throw
drain-answers [] e = refl
drain-answers ((r, throws) ∷ rs) e = cc
drain-answers ((r, resolves) ∷ rs) e = rw (drain-answers rs e) refl
drain-answers ((r, rejects) ∷ rs) e = rw (drain-answers rs e) refl
drain-answers ((r, hangs) ∷ rs) e = rw (drain-answers rs e) refl

all_settled_hangs : (ps : List Stop) → any_by is_hang ps ≡ true → all_settled ps ≡ none
unfolding all_settled warn_also is_hang
all_settled_hangs [] e = cc
all_settled_hangs (hangs ∷ ps) e = refl
all_settled_hangs (throws ∷ ps) e = all_settled_hangs ps e
all_settled_hangs (resolves ∷ ps) e = all_settled_hangs ps e
all_settled_hangs (rejects ∷ ps) e = rw (all_settled_hangs ps e) refl

all_settled_warns :
    (ps : List Stop)
    → any_by is_hang ps ≡ false
    → all_settled ps ≡ some (warnings (length (filter_by is_reject ps)))
unfolding all_settled warn_also is_hang is_reject warnings
all_settled_warns [] e = refl
all_settled_warns (hangs ∷ ps) e = cc
all_settled_warns (throws ∷ ps) e = all_settled_warns ps e
all_settled_warns (resolves ∷ ps) e = all_settled_warns ps e
all_settled_warns (rejects ∷ ps) e = rw (all_settled_warns ps e) refl

-- A teardown clears every timer that is set and tells each resource to stop, in order: the HTTP server,
-- the OCPP server, the bridge and every module. If no call throws, every resource is told, whatever the
-- others answer; unless one stays pending, each rejection is then warned of and the database is flushed
-- and closed. If a call throws before it gives a promise, the resources after it are not told, the
-- database is left as it is, and the teardown throws.
pub graceful_shutdown-described : (c : ShutdownContext) → graceful_shutdown c ≡ described c
unfolding graceful_shutdown described drained settled
graceful_shutdown-described c =
    rw (resources-told c, clear_timers-cleared c.timers)
      (elim (Bool-cases (any_by is_throw (answers (told c)))) [
        | inl e ↦ rw (e, drain_ends_early (told c) e) refl
        | inr e ↦ elim (Bool-cases (any_by is_hang (answers (told c)))) [
          | inl h ↦ rw (e, h, drain-answers (told c) e, all_settled_hangs _ h) refl
          | inr h ↦
              rw
                (
                  e,
                  h,
                  drain-answers (told c) e,
                  all_settled_warns _ h,
                  close_database-closing c.can_checkpoint c.can_close,
                )
                refl
        ]
      ])
