-- ===== src/Ocpp/Debounce/Spacing.antt =====
-- How close writes can come, and when the last request wins.
use open_smart_charge.Base.{
  ℕ, ◌+◌, ◌≤◌, ◌<◌, ◌≡◌, ◌≢◌, ◌⊎◌, refl, ap, true, false, Option, none, some, List, [], ◌∷◌, arith,
  leb→le, ==_iff, get_or_else, Bool-cases, inl, inr,
}
use open_smart_charge.Ocpp.Debounce.{
  Setter, is_value, has_waited, set, write_pending, fire, logged, Run, start, call, timer,
}

-- The two newest writes, if there are two, are the interval apart.
abbrev HasGap : ℕ → List (ℕ × ℕ) → Type 0
HasGap interval [] = Unit
HasGap interval (w ∷ []) = Unit
HasGap interval (w ∷ v ∷ log) = v.0 + interval ≤ w.0

-- Neighbours in the log are in order and write different values, and writes with one between them are
-- the interval apart.
abbrev pub IsPaced : ℕ → List (ℕ × ℕ) → Type 0
IsPaced interval [] = Unit
IsPaced interval (w ∷ []) = Unit
IsPaced interval (w ∷ v ∷ []) = (v.0 ≤ w.0) × (v.1 ≢ w.1)
IsPaced interval (w ∷ v ∷ u ∷ log) =
    (v.0 ≤ w.0) × (v.1 ≢ w.1) × (u.0 + interval ≤ w.0) × IsPaced interval (v ∷ u ∷ log)

abbrev time_of : List (ℕ × ℕ) → Option ℕ
time_of [] = none
time_of (w ∷ log) = some w.0

abbrev value_of : List (ℕ × ℕ) → Option ℕ
value_of [] = none
value_of (w ∷ log) = some w.1

-- A due time is one interval after the last write, or a call wrote since it passed.
abbrev IsDue : ℕ → Option ℕ → List (ℕ × ℕ) → Type 0
IsDue interval none log = Unit
IsDue interval (some d) [] = ⊥
IsDue interval (some d) (w ∷ log) = (d ≡ w.0 + interval) ⊎ ((d ≤ w.0) × HasGap interval (w ∷ log))

abbrev NotAfter : List (ℕ × ℕ) → ℕ → Type 0
NotAfter [] now = Unit
NotAfter (w ∷ log) now = w.0 ≤ now

record IsRun (interval : ℕ) (s : Setter) (t : ℕ) (log : List (ℕ × ℕ)) : Type 0 where
  time : s.last_write_at ≡ time_of log
  value : s.last_written ≡ value_of log
  due : IsDue interval s.due log
  paced : IsPaced interval log
  past : NotAfter log t

push-HasGap :
    (interval now v : ℕ) (log : List (ℕ × ℕ))
    → has_waited interval (time_of log) now ≡ true
    → HasGap interval ((now, v) ∷ log)
push-HasGap interval now v [] h = tt
push-HasGap interval now v (w ∷ log) h = leb→le _ _ h

NotAfter-later : (log : List (ℕ × ℕ)) (t now : ℕ) → t ≤ now → NotAfter log t → NotAfter log now
NotAfter-later [] t now l p = tt
NotAfter-later (w ∷ log) t now l p = omega (arith, l, p)

-- A write keeps the pace if it waits for the last write, or if that waited for the one before.
push-IsPaced :
    (interval now v : ℕ) (log : List (ℕ × ℕ))
    → (has_waited interval (time_of log) now ≡ true) ⊎ HasGap interval log
    → NotAfter log now
    → is_value (value_of log) v ≡ false
    → IsPaced interval log
    → IsPaced interval ((now, v) ∷ log)
push-IsPaced interval now v [] h p n s = tt
push-IsPaced interval now v (w ∷ []) h p n s = (p, ground (arith, n, ==_iff w.1 v))
push-IsPaced interval now v (w ∷ u ∷ []) (inl h) p n s =
    (p, ground (arith, n, ==_iff w.1 v), omega (arith, leb→le _ _ h, s.0), s)
push-IsPaced interval now v (w ∷ u ∷ x ∷ log) (inl h) p n s =
    (p, ground (arith, n, ==_iff w.1 v), omega (arith, leb→le _ _ h, s.0), s)
push-IsPaced interval now v (w ∷ u ∷ []) (inr g) p n s =
    (p, ground (arith, n, ==_iff w.1 v), omega (arith, g, p), s)
push-IsPaced interval now v (w ∷ u ∷ x ∷ log) (inr g) p n s =
    (p, ground (arith, n, ==_iff w.1 v), omega (arith, g, p), s)

late-IsDue :
    (interval now v : ℕ) (due : Option ℕ) (log : List (ℕ × ℕ))
    → IsDue interval due log
    → NotAfter log now
    → has_waited interval (time_of log) now ≡ true
    → IsDue interval due ((now, v) ∷ log)
late-IsDue interval now v none log i p h = tt
late-IsDue interval now v (some d) [] i p h = absurd i
late-IsDue interval now v (some d) (w ∷ log) (inl e) p h =
    let le = leb→le _ _ h in inr (omega (arith, e, le), le)
late-IsDue interval now v (some d) (w ∷ log) (inr (b, g)) p h =
    let le = leb→le _ _ h in inr (omega (arith, b, p), le)

next-IsDue :
    (interval now : ℕ) (due at : Option ℕ) (log : List (ℕ × ℕ))
    → at ≡ time_of log
    → IsDue interval due log
    → has_waited interval at now ≡ false
    → IsDue interval (some (get_or_else due (get_or_else at 0 + interval))) log
next-IsDue interval now none at [] e i h = absurd (let x : true ≡ false = rw e at h in cc)
next-IsDue interval now none at (w ∷ log) e i h = inl (ap (λ o. get_or_else o 0 + interval) e)
next-IsDue interval now (some d) at [] e i h = i
next-IsDue interval now (some d) at (w ∷ log) e i h = i

set-IsRun :
    (interval : ℕ) (s : Setter) (t : ℕ) (log : List (ℕ × ℕ)) (now v : ℕ)
    → t ≤ now
    → IsRun interval s t log
    → IsRun interval (set interval s now v).0 now (logged (set interval s now v).1 now log)
unfolding set
set-IsRun interval s t log now v l r =
    let past = NotAfter-later log t now l r.past in
    elim (Bool-cases (is_value s.last_written v)) [
      | inl same ↦
          rw same
            (record { time = r.time; value = r.value; due = r.due; paced = r.paced; past = past })
      | inr new ↦ elim (Bool-cases (has_waited interval s.last_write_at now)) [
        | inl waited ↦
            let h : has_waited interval (time_of log) now ≡ true = rw r.time at waited in
            rw (new, waited)
              (record {
                time = refl;
                value = refl;
                due = late-IsDue interval now v s.due log r.due past h;
                paced = push-IsPaced interval now v log (inl h) past (rw r.value at new) r.paced;
                past = omega arith;
              })
        | inr early ↦
            rw (new, early)
              (record {
                time = r.time;
                value = r.value;
                due = next-IsDue interval now s.due s.last_write_at log r.time r.due early;
                paced = r.paced;
                past = past;
              })
      ]
    ]

-- A timer that runs finds the pace kept.
fired_in_time :
    (interval now d : ℕ) (log : List (ℕ × ℕ))
    → IsDue interval (some d) log
    → d ≤ now
    → (has_waited interval (time_of log) now ≡ true) ⊎ HasGap interval log
fired_in_time interval now d [] i l = absurd i
fired_in_time interval now d (w ∷ log) (inl e) l = inl (ground (arith, e, l))
fired_in_time interval now d (w ∷ log) (inr (b, g)) l = inr g

write_pending-IsRun :
    (interval : ℕ) (o : Option ℕ) (s : Setter) (t : ℕ) (log : List (ℕ × ℕ)) (now : ℕ)
    → (has_waited interval (time_of log) now ≡ true) ⊎ HasGap interval log
    → NotAfter log now
    → IsRun interval s t log
    → IsRun interval (write_pending o s now).0 now (logged (write_pending o s now).1 now log)
write_pending-IsRun interval none s t log now h past r = record {
  time = r.time;
  value = r.value;
  due = tt;
  paced = r.paced;
  past = past;
}
write_pending-IsRun interval (some v) s t log now h past r =
    elim (Bool-cases (is_value s.last_written v)) [
      | inl same ↦
          rw same
            (record { time = r.time; value = r.value; due = tt; paced = r.paced; past = past })
      | inr new ↦ rw new (record {
        time = refl;
        value = refl;
        due = tt;
        paced = push-IsPaced interval now v log h past (rw r.value at new) r.paced;
        past = omega arith;
      })
    ]

fire-IsRun :
    (interval : ℕ) (s : Setter) (t : ℕ) (log : List (ℕ × ℕ)) (now d : ℕ)
    → t ≤ now
    → s.due ≡ some d
    → d ≤ now
    → IsRun interval s t log
    → IsRun interval (fire s now).0 now (logged (fire s now).1 now log)
unfolding fire
fire-IsRun interval s t log now d l e u r =
    let i : IsDue interval (some d) log = rw e at r.due in
    write_pending-IsRun interval s.pending_value s t log now (fired_in_time interval now d log i u)
      (NotAfter-later log t now l r.past) r

Run-IsRun :
    (interval : ℕ) (s : Setter) (t : ℕ) (log : List (ℕ × ℕ))
    → Run interval s t log
    → IsRun interval s t log
Run-IsRun interval _ _ _ start = record {
  time = refl;
  value = refl;
  due = tt;
  paced = tt;
  past = tt;
}
Run-IsRun interval _ _ _ (call s t log now v r l) =
    set-IsRun interval s t log now v l (Run-IsRun interval s t log r)
Run-IsRun interval _ _ _ (timer s t log now d r l e h) =
    fire-IsRun interval s t log now d l e h (Run-IsRun interval s t log r)

-- In every run, however late its timers are, two writes in succession write different values, and of
-- three writes in succession the last is at least the interval after the first: within less than an
-- interval there are at most two.
pub Run-IsPaced :
    (interval : ℕ) (s : Setter) (t : ℕ) (log : List (ℕ × ℕ))
    → Run interval s t log
    → IsPaced interval log
Run-IsPaced interval s t log r = (Run-IsRun interval s t log r).paced

other_value : (o : Option ℕ) (u v : ℕ) → is_value o v ≡ true → u ≢ v → is_value o u ≡ false
other_value none u v h n = refl
other_value (some w) u v h n = ground (arith, ==_iff w v, ==_iff w u)

other_way : (u v : ℕ) → u ≢ v → is_value (some v) u ≡ false
other_way u v n = ground (arith, ==_iff v u)

-- The state once the trailing write, if one is scheduled, has run.
abbrev pub after_timer : Setter → ℕ → Setter
after_timer s later = elim s.due [ none ↦ s | some d ↦ (fire s later).0 ]

-- No trailing write is scheduled, or its time is still to come.
abbrev pub IsAhead : Option ℕ → ℕ → Type 0
IsAhead none now = Unit
IsAhead (some d) now = now < d

ahead_waits :
    (interval now : ℕ) (due : Option ℕ) (log : List (ℕ × ℕ))
    → IsDue interval due log
    → IsAhead due now
    → has_waited interval (time_of log) now ≡ true
    → due ≡ none
ahead_waits interval now none log i a h = refl
ahead_waits interval now (some d) [] i a h = absurd i
ahead_waits interval now (some d) (w ∷ log) (inl e) a h =
    absurd (let le = leb→le _ _ h in omega (arith, e, a, le))
ahead_waits interval now (some d) (w ∷ log) (inr (b, g)) a h =
    absurd (let le = leb→le _ _ h in omega (arith, b, a, le))

-- In every run, a request of another value than the last write, made before the time of any scheduled
-- write, is what the charger has been told once the trailing write has run. There are two exceptions,
-- after which the charger is told an older value: a request that repeats the last write is dropped
-- without cancelling the pending one; and a request that comes an interval after the last write, while
-- the scheduled write is overdue, is written at once, and the pending value after it.
pub set_request :
    (interval : ℕ) (s : Setter) (t : ℕ) (log : List (ℕ × ℕ)) (now later v : ℕ)
    → Run interval s t log
    → (is_value s.last_written v ≡ false
        → IsAhead s.due now
        → (after_timer (set interval s now v).0 later).last_written ≡ some v)
      × ((u d : ℕ)
          → s.due ≡ some d
          → s.pending_value ≡ some u
          → u ≢ v
          → (is_value s.last_written v ≡ true) ⊎ (has_waited interval s.last_write_at now ≡ true)
          → (after_timer (set interval s now v).0 later).last_written ≡ some u)
unfolding set fire
set_request interval s t log now later v r =
    let good = Run-IsRun interval s t log r in
    (
      λ new ahead. elim (Bool-cases (has_waited interval s.last_write_at now)) [
        | inl waited ↦
            rw
              (
                new,
                waited,
                ahead_waits interval now s.due log good.due ahead (rw good.time at waited),
              )
              refl
        | inr early ↦ rw (new, early, new) refl
      ],
      λ u d due pending other how. elim (Bool-cases (is_value s.last_written v)) [
        | inl same ↦ rw (same, due, pending, other_value s.last_written u v same other) refl
        | inr new ↦ elim how [
          | inl same ↦ absurd cc
          | inr waited ↦ rw (new, waited, due, pending, other_way u v other) refl
        ]
      ],
    )
