-- ===== src/Lifecycle/Prepare/Tests.antt =====
-- What surrounds the ticks of a garage at concrete inputs.
use open_smart_charge.Base.{ℕ, ◌≡◌, refl, Bool, true, false, none, some, List, [], ◌∷◌, String}
use open_smart_charge.Base.Dict.{Dict, get, put, update}
use open_smart_charge.Health.{backoff_delay}
use open_smart_charge.SmartCharging.Gates.{should_poll_vehicle}
use open_smart_charge.Charger.{ChargerStatus, preparing}
use open_smart_charge.Lifecycle.Site.{Site, Runtime}
use open_smart_charge.Lifecycle.Prepare.{
  TickLoadpoint, maybe_poll_vehicles, poll_each, poll_due, poll_set, refresh_done,
}
use open_smart_charge.Lifecycle.Prepare.Boost.{
  available_since-unplugged_since, unplugged_since, charger_statuses,
}
use open_smart_charge.Lifecycle.Prepare.Polls.{
  maybe_poll_vehicles-AreSpaced, shortest, Passes, begin, pass, answer, noted, AreApart,
}
use open_smart_charge.Lifecycle.Fixtures.{garage, site, frame_of, cadence}

-- Free, plugged for a moment, and free again.
abbrev frames : List (ChargerStatus × ℕ)
frames =
    (frame_of, 1_000)
    ∷ (record frame_of { status = preparing; connected = true }, 61_000)
    ∷ (frame_of, 121_000)
    ∷ (frame_of, 181_000)
    ∷ []

available_since-unplugged_since_example :
    get (charger_statuses site "garage" frames).available_since "garage"
    ≡ unplugged_since (get site.available_since "garage") frames
available_since-unplugged_since_example = available_since-unplugged_since site "garage" frames

restarted : unplugged_since none frames ≡ some 121_000
restarted = refl

abbrev freed : Site
freed = record site { available_since = ("garage", 121_000) ∷ [] }

abbrev garage_lp : TickLoadpoint
garage_lp = record { name = "garage"; auto_revert_to_smart = true }

found : get site.states "garage" ≡ some garage
unfolding get
found = refl

abbrev cars : Dict Bool
cars = ("skoda", true) ∷ []

abbrev on_pass : ℕ → Site → Site × List String
on_pass now s = maybe_poll_vehicles cadence cars ("skoda" ∷ []) "garage" 12 now s

abbrev after_first : Site
after_first = (on_pass 1_000_000 site).0

abbrev after_answer : Site
after_answer = refresh_done after_first "garage" "skoda" 55_000

abbrev times : List ℕ
times =
    noted "skoda" 1_900_000 (on_pass 1_900_000 after_answer).1
      (noted "skoda" 1_000_000 (on_pass 1_000_000 site).1 [])

times_lem : times ≡ 1_900_000 ∷ 1_000_000 ∷ []
unfolding maybe_poll_vehicles poll_each refresh_done poll_due poll_set should_poll_vehicle update
    put get backoff_delay
times_lem = refl

still_found : get after_answer.states "garage" ≡ some garage
unfolding maybe_poll_vehicles refresh_done get
still_found = refl

-- The pass that starts a refresh, the answer to it, and the next pass that starts one.
two_passes : Passes cadence cars ("skoda" ∷ []) "skoda" (on_pass 1_900_000 after_answer).0 times
two_passes =
    pass after_answer (noted "skoda" 1_000_000 (on_pass 1_000_000 site).1 []) "garage" 12 1_900_000
      garage
      (answer after_first (noted "skoda" 1_000_000 (on_pass 1_000_000 site).1 []) "garage" "skoda"
        55_000 (pass site [] "garage" 12 1_000_000 garage (begin site) found refl))
      still_found refl

maybe_poll_vehicles-AreSpaced_example :
    AreApart (shortest cadence) times
    × ((name : String) (hour now : ℕ) (r : Runtime)
        → get (on_pass 1_900_000 after_answer).0.states name ≡ some r
        → r.state.live.connected ≡ false
        → (maybe_poll_vehicles cadence cars
            ("skoda" ∷ [])
            name
            hour
            now
            (on_pass 1_900_000 after_answer).0).1
          ≡ [])
maybe_poll_vehicles-AreSpaced_example =
    maybe_poll_vehicles-AreSpaced cadence cars ("skoda" ∷ []) "skoda"
      (on_pass 1_900_000 after_answer).0 times two_passes
