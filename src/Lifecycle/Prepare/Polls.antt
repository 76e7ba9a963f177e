-- ===== src/Lifecycle/Prepare/Polls.antt =====
-- How often `maybePollVehicles` of src/core/lifecycle.ts asks a vehicle, which may wake a parked car.
use open_smart_charge.Base.{
  ℕ, zero, suc, ◌+◌, ◌≤◌, ◌≡◌, ◌⊎◌, refl, sym, ap, ◌∙◌, subst, Bool, true, false, ◌||◌,
  if◌then◌else◌, none, some, String, List, [], ◌∷◌, arith, get_or_else, min, All, All-map, any_by,
  str_eq, eq_iff, Bool-cases, inl, inr,
}
use native.Mathlib.Nat.{one-le-pow}
use open_smart_charge.Base.Dict.{Dict, get, put, update, get-put, get-update}
use open_smart_charge.Health.{backoff_delay}
use open_smart_charge.SmartCharging.Gates.{should_poll_vehicle}
use open_smart_charge.Lifecycle.Site.{Site, Runtime, PollState}
use open_smart_charge.Lifecycle.Prepare.{
  PollSettings, poll_due, poll_each, polled_at, never_polled, vehicle_poll_backoff,
  maybe_poll_vehicles, poll_set, refresh_done, refresh_failed, is_active, active_of,
}

-- The shortest time between two polls of a vehicle on one connection.
abbrev pub shortest : PollSettings → ℕ
shortest sc = min 30_000 (min sc.poll_interval sc.idle_interval)

-- The vehicle was polled at an instant of this connection.
abbrev IsPolled : ℕ → Dict PollState → String → Type 0
IsPolled now polls v =
    (p : PollState) × (get polls v ≡ some p)
    × (p.last_poll_at ≡ now)
    × (p.polled_this_connection ≡ true)

backoff-zero_or_long :
    (n : ℕ)
    → (backoff_delay n vehicle_poll_backoff ≡ 0) ⊎ (30_000 ≤ backoff_delay n vehicle_poll_backoff)
unfolding backoff_delay
backoff-zero_or_long zero = inl refl
backoff-zero_or_long (suc n) = let one = one-le-pow n 2 (omega arith) in inr (omega arith)

poll_due-waits :
    (sc : PollSettings) (hour now : ℕ) (r : Runtime) (v : String) (p : PollState)
    → p.polled_this_connection ≡ true
    → poll_due sc hour now r v p ≡ true
    → p.last_poll_at + shortest sc ≤ now
unfolding poll_due should_poll_vehicle
poll_due-waits sc hour now r v p polled due =
    ground (arith, backoff-zero_or_long p.consecutive_failures)

put-IsPolled :
    (now : ℕ) (polls : Dict PollState) (v w : String) (f : PollState → PollState)
    → ((p : PollState) → p.last_poll_at ≡ now → (f p).last_poll_at ≡ now)
    → ((p : PollState) → p.polled_this_connection ≡ true → (f p).polled_this_connection ≡ true)
    → IsPolled now polls v
    → IsPolled now (put polls w (f (get_or_else (get polls w) never_polled))) v
put-IsPolled now polls v w f keeps_time keeps_flag (p, e, t, b) = elim (Bool-cases (str_eq w v)) [
  | inl same ↦
      let e' : get_or_else (get polls w) never_polled ≡ p =
        ap (λ k. get_or_else (get polls k) never_polled) ((eq_iff w v).0 same)
        ∙ ap (λ o. get_or_else o never_polled) e in
      (
        f p,
        get-put polls w v (f (get_or_else (get polls w) never_polled)) ∙ rw (same, e') refl,
        keeps_time p t,
        keeps_flag p b,
      )
  | inr other ↦
      (p, get-put polls w v (f (get_or_else (get polls w) never_polled)) ∙ rw other e, t, b)
]

IsPolled-polled_at :
    (now : ℕ) (polls : Dict PollState) (v : String) (p : PollState)
    → IsPolled now (put polls v (polled_at now p)) v
IsPolled-polled_at now polls v p = (
  polled_at now p,
  get-put polls v v (polled_at now p) ∙ rw ((eq_iff v v).1 refl) refl,
  refl,
  refl,
)

poll_each-keeps :
    (sc : PollSettings) (hour now : ℕ) (r : Runtime) (vs : List String) (polls : Dict PollState)
    (v : String)
    → IsPolled now polls v
    → IsPolled now (poll_each sc hour now r vs polls).0 v
unfolding poll_each
poll_each-keeps sc hour now r [] polls v h = h
poll_each-keeps sc hour now r (w ∷ vs) polls v h =
    let p = get_or_else (get polls w) never_polled in
    elim (Bool-cases (poll_due sc hour now r w p)) [
      | inl e ↦ rw e (
          poll_each-keeps sc hour now r vs (put polls w (polled_at now p)) v
            (put-IsPolled now polls v w (polled_at now) (λ q t. refl) (λ q b. refl) h))
      | inr e ↦ rw e (
          poll_each-keeps sc hour now r vs (put polls w p) v
            (put-IsPolled now polls v w (λ q. q) (λ q t. t) (λ q b. b) h))
    ]

poll_each-IsPolled :
    (sc : PollSettings) (hour now : ℕ) (r : Runtime) (vs : List String) (polls : Dict PollState)
    → All (IsPolled now (poll_each sc hour now r vs polls).0) (poll_each sc hour now r vs polls).1
unfolding poll_each
poll_each-IsPolled sc hour now r [] polls = tt
poll_each-IsPolled sc hour now r (w ∷ vs) polls =
    let p = get_or_else (get polls w) never_polled in
    elim (Bool-cases (poll_due sc hour now r w p)) [
      | inl e ↦ rw e (
        poll_each-keeps sc hour now r vs (put polls w (polled_at now p)) w
            (IsPolled-polled_at now polls w p),
        poll_each-IsPolled sc hour now r vs (put polls w (polled_at now p)),
      )
      | inr e ↦ rw e (poll_each-IsPolled sc hour now r vs (put polls w p))
    ]

put_other :
    (t : ℕ) (polls : Dict PollState) (v w : String) (q : PollState)
    → str_eq w v ≡ false
    → IsPolled t polls v
    → IsPolled t (put polls w q) v
put_other t polls v w q other (p, e, a, b) = (p, get-put polls w v q ∙ rw other e, a, b)

poll_each-waits :
    (sc : PollSettings) (hour t later : ℕ) (r : Runtime) (vs : List String) (polls : Dict PollState)
    → All (λ v. IsPolled t polls v → t + shortest sc ≤ later) (poll_each sc hour later r vs polls).1
unfolding poll_each
poll_each-waits sc hour t later r [] polls = tt
poll_each-waits sc hour t later r (w ∷ vs) polls =
    let p = get_or_else (get polls w) never_polled in
    let head_waits : poll_due sc hour later r w p ≡ true
        → IsPolled t polls w
        → t + shortest sc ≤ later =
      λ due (q, e, a, b).
        (let same : p ≡ q = ap (λ o. get_or_else o never_polled) e in
          let x =
            poll_due-waits sc hour later r w p (ap (λ s. s.polled_this_connection) same ∙ b) due in
          let y = ap (λ s. s.last_poll_at) same in omega arith) in
    elim (Bool-cases (poll_due sc hour later r w p)) [
      | inl e ↦ rw e (
        head_waits e,
        All-map (λ v. IsPolled t (put polls w (polled_at later p)) v → t + shortest sc ≤ later)
            (λ v. IsPolled t polls v → t + shortest sc ≤ later) _
            (λ v k h. elim (Bool-cases (str_eq w v)) [
              | inl same ↦ head_waits e (subst (IsPolled t polls) (sym ((eq_iff w v).0 same)) h)
              | inr other ↦ k (put_other t polls v w _ other h)
            ])
            (poll_each-waits sc hour t later r vs (put polls w (polled_at later p))),
      )
      | inr e ↦ rw e (
          All-map (λ v. IsPolled t (put polls w p) v → t + shortest sc ≤ later)
            (λ v. IsPolled t polls v → t + shortest sc ≤ later) _
            (λ v k h. k (put-IsPolled t polls v w (λ q. q) (λ q a. a) (λ q b. b) h))
            (poll_each-waits sc hour t later r vs (put polls w p)))
    ]

All-named :
    (P : String → Type 0) (vs : List String) (v : String)
    → All P vs
    → any_by (λ w. str_eq w v) vs ≡ true
    → P v
All-named P [] v h e = absurd (cc)
All-named P (w ∷ vs) v h e = elim (Bool-cases (str_eq w v)) [
  | inl same ↦ subst P ((eq_iff w v).0 same) h.0
  | inr other ↦ All-named P vs v h.1 (rw other at e)
]

when_connected :
    (sc : PollSettings) (vehicles : Dict Bool) (candidates : List String) (name : String)
    (hour now : ℕ) (site : Site) (r : Runtime)
    → get site.states name ≡ some r
    → r.state.live.connected ≡ true
    → maybe_poll_vehicles sc vehicles candidates name hour now site ≡ (
        let polled =
          poll_each sc hour now r
            (poll_set vehicles candidates r.active_vehicle)
            site.vehicle_poll in
        (record site { vehicle_poll = polled.0 }, polled.1))
unfolding maybe_poll_vehicles
when_connected sc vehicles candidates name hour now site r e on = rw e (simp on)

when_free :
    (sc : PollSettings) (vehicles : Dict Bool) (candidates : List String) (name : String)
    (hour now : ℕ) (site : Site) (r : Runtime)
    → get site.states name ≡ some r
    → r.state.live.connected ≡ false
    → (maybe_poll_vehicles sc vehicles candidates name hour now site).1 ≡ []
unfolding maybe_poll_vehicles
when_free sc vehicles candidates name hour now site r e off = rw e (simp off)

when_unknown :
    (sc : PollSettings) (vehicles : Dict Bool) (candidates : List String) (name : String)
    (hour now : ℕ) (site : Site)
    → get site.states name ≡ none
    → (maybe_poll_vehicles sc vehicles candidates name hour now site).1 ≡ []
unfolding maybe_poll_vehicles
when_unknown sc vehicles candidates name hour now site e = rw e refl

-- A pass that does not start a refresh of a vehicle leaves what is known of its last one.
poll_each-unpolled :
    (sc : PollSettings) (hour t later : ℕ) (r : Runtime) (vs : List String) (polls : Dict PollState)
    (v : String)
    → any_by (λ w. str_eq w v) (poll_each sc hour later r vs polls).1 ≡ false
    → IsPolled t polls v
    → IsPolled t (poll_each sc hour later r vs polls).0 v
unfolding poll_each
poll_each-unpolled sc hour t later r [] polls v n h = h
poll_each-unpolled sc hour t later r (w ∷ vs) polls v n h =
    let p = get_or_else (get polls w) never_polled in
    elim (Bool-cases (poll_due sc hour later r w p)) [
      | inl e ↦
          let rest = poll_each sc hour later r vs (put polls w (polled_at later p)) in
          let n' : (str_eq w v || any_by (λ x. str_eq x v) rest.1) ≡ false = rw e at n in
          let other : str_eq w v ≡ false = ground (arith, n') in
          let after : any_by (λ x. str_eq x v) rest.1 ≡ false = ground (arith, n') in
          rw e (
            poll_each-unpolled sc hour t later r vs (put polls w (polled_at later p)) v after
              (put_other t polls v w _ other h))
      | inr e ↦ rw e (
          poll_each-unpolled sc hour t later r vs (put polls w p) v (rw e at n)
            (put-IsPolled t polls v w (λ q. q) (λ q a. a) (λ q b. b) h))
    ]

-- An answer leaves the time of the last refresh.
update-IsPolled :
    (t : ℕ) (polls : Dict PollState) (v w : String) (f : PollState → PollState)
    → ((p : PollState) → (f p).last_poll_at ≡ p.last_poll_at)
    → ((p : PollState) → (f p).polled_this_connection ≡ p.polled_this_connection)
    → IsPolled t polls v
    → IsPolled t (update polls w f) v
update-IsPolled t polls v w f keeps_time keeps_flag (p, e, a, b) = elim (Bool-cases (str_eq w v)) [
  | inl same ↦ (f p, get-update polls w v f ∙ rw (same, e) refl, keeps_time p ∙ a, keeps_flag p ∙ b)
  | inr other ↦ (p, get-update polls w v f ∙ rw other e, a, b)
]

refresh_done-polls :
    (site : Site) (name w : String) (soc : ℕ)
    → (refresh_done site name w soc).vehicle_poll
      ≡ update site.vehicle_poll w (λ p. record p { consecutive_failures = 0 })
unfolding refresh_done
refresh_done-polls site name w soc =
    elim (Bool-cases (is_active (active_of (get site.states name)) w)) [
      | inl e ↦ rw e refl
      | inr e ↦ rw e refl
    ]

-- The instants of the refreshes of a vehicle, with a pass that started some.
abbrev pub noted : String → ℕ → List String → List ℕ → List ℕ
noted v now started log = if any_by (λ w. str_eq w v) started then now ∷ log else log

-- Passes and answers, in any order, with the instants at which a refresh of the vehicle was started, the
-- newest first. A pass is over a loadpoint whose car is connected; what else changes leaves the table of
-- polls alone.
pub data Passes (sc : PollSettings) (vehicles : Dict Bool) (candidates : List String) (v : String)
    : Site → List ℕ → Type 0 where
  begin : (site : Site) → Passes sc vehicles candidates v site []
  pass :
      (site : Site) (log : List ℕ) (name : String) (hour now : ℕ) (r : Runtime)
      → Passes sc vehicles candidates v site log
      → get site.states name ≡ some r
      → r.state.live.connected ≡ true
      → Passes sc vehicles candidates v
          (maybe_poll_vehicles sc vehicles candidates name hour now site).0
          (noted v now (maybe_poll_vehicles sc vehicles candidates name hour now site).1 log)
  answer :
      (site : Site) (log : List ℕ) (name w : String) (soc : ℕ)
      → Passes sc vehicles candidates v site log
      → Passes sc vehicles candidates v (refresh_done site name w soc) log
  failure :
      (site : Site) (log : List ℕ) (w : String)
      → Passes sc vehicles candidates v site log
      → Passes sc vehicles candidates v (refresh_failed site w) log
  change :
      (site site' : Site) (log : List ℕ)
      → Passes sc vehicles candidates v site log
      → site'.vehicle_poll ≡ site.vehicle_poll
      → Passes sc vehicles candidates v site' log

-- Successive instants, the newest first, lie a distance apart.
abbrev pub AreApart : ℕ → List ℕ → Type 0
AreApart d [] = Unit
AreApart d (t ∷ []) = Unit
AreApart d (t ∷ u ∷ log) = (u + d ≤ t) × AreApart d (u ∷ log)

abbrev Knows : Dict PollState → String → List ℕ → Type 0
Knows polls v [] = Unit
Knows polls v (t ∷ log) = IsPolled t polls v

Knows-map :
    (polls polls' : Dict PollState) (v : String) (log : List ℕ)
    → ((t : ℕ) → IsPolled t polls v → IsPolled t polls' v)
    → Knows polls v log
    → Knows polls' v log
Knows-map polls polls' v [] f k = tt
Knows-map polls polls' v (t ∷ log) f k = f t k

noted-Knows :
    (sc : PollSettings) (hour now : ℕ) (r : Runtime) (vs : List String) (polls : Dict PollState)
    (v : String) (log : List ℕ)
    → let polled = poll_each sc hour now r vs polls in
      AreApart (shortest sc) log
      → Knows polls v log
      → AreApart (shortest sc) (noted v now polled.1 log)
        × Knows polled.0 v (noted v now polled.1 log)
noted-Knows sc hour now r vs polls v log =
    let polled = poll_each sc hour now r vs polls in
    λ a k. elim (Bool-cases (any_by (λ w. str_eq w v) polled.1)) [
      | inl due ↦ rw due (
        grown sc hour now r vs polls v log due a k,
        All-named (IsPolled now polled.0) polled.1 v (poll_each-IsPolled sc hour now r vs polls)
            due,
      )
      | inr not_due ↦ rw not_due (
        a,
        Knows-map polls polled.0 v log (λ t. poll_each-unpolled sc hour t now r vs polls v not_due)
            k,
      )
    ]
  where
    grown :
        (sc : PollSettings) (hour now : ℕ) (r : Runtime) (vs : List String) (polls : Dict PollState)
        (v : String) (log : List ℕ)
        → any_by (λ w. str_eq w v) (poll_each sc hour now r vs polls).1 ≡ true
        → AreApart (shortest sc) log
        → Knows polls v log
        → AreApart (shortest sc) (now ∷ log)
    grown sc hour now r vs polls v [] due a k = tt
    grown sc hour now r vs polls v (t ∷ log) due a k = (
      All-named (λ w. IsPolled t polls w → t + shortest sc ≤ now) _ v
          (poll_each-waits sc hour t now r vs polls) due k,
      a,
    )

Passes-Knows :
    (sc : PollSettings) (vehicles : Dict Bool) (candidates : List String) (v : String) (site : Site)
    (log : List ℕ)
    → Passes sc vehicles candidates v site log
    → AreApart (shortest sc) log × Knows site.vehicle_poll v log
unfolding refresh_failed
Passes-Knows sc vehicles candidates v _ _ (begin site) = (tt, tt)
Passes-Knows sc vehicles candidates v _ _ (answer site log name w soc h) =
    let (a, k) = Passes-Knows sc vehicles candidates v site log h in
    (
      a,
      subst (λ m. Knows m v log) (sym (refresh_done-polls site name w soc))
          (Knows-map _ _ v log
            (λ t. update-IsPolled t site.vehicle_poll v w _ (λ p. refl) (λ p. refl)) k),
    )
Passes-Knows sc vehicles candidates v _ _ (failure site log w h) =
    let (a, k) = Passes-Knows sc vehicles candidates v site log h in
    (
      a,
      Knows-map _ _ v log (λ t. update-IsPolled t site.vehicle_poll v w _ (λ p. refl) (λ p. refl))
          k,
    )
Passes-Knows sc vehicles candidates v _ _ (change site site' log h same) =
    let (a, k) = Passes-Knows sc vehicles candidates v site log h in
    (a, subst (λ m. Knows m v log) (sym same) k)
Passes-Knows sc vehicles candidates v _ _ (pass site log name hour now r h e on) =
    let (a, k) = Passes-Knows sc vehicles candidates v site log h in
    let vs = poll_set vehicles candidates r.active_vehicle in
    rw (when_connected sc vehicles candidates name hour now site r e on)
      (noted-Knows sc hour now r vs site.vehicle_poll v log a k)

-- Over passes of loadpoints whose car is connected, with answers and failures of the refreshes in between
-- and changes of the site that leave the table of polls alone, successive refreshes of a vehicle start at
-- least the shortest interval apart: the least of the two configured intervals and thirty seconds. A pass
-- over a loadpoint whose car is not connected starts no refresh. Such a pass clears the flag of every
-- configured vehicle, so that one may be refreshed anew: it is not among the passes of the first part.
pub maybe_poll_vehicles-AreSpaced :
    (sc : PollSettings) (vehicles : Dict Bool) (candidates : List String) (v : String) (site : Site)
    (log : List ℕ)
    → Passes sc vehicles candidates v site log
    → AreApart (shortest sc) log
      × ((name : String) (hour now : ℕ) (r : Runtime)
          → get site.states name ≡ some r
          → r.state.live.connected ≡ false
          → (maybe_poll_vehicles sc vehicles candidates name hour now site).1 ≡ [])
maybe_poll_vehicles-AreSpaced sc vehicles candidates v site log h = (
  (Passes-Knows sc vehicles candidates v site log h).0,
  λ name hour now r. when_free sc vehicles candidates name hour now site r,
)
