-- ===== src/Timing/Order.antt =====
-- Which scripts run through: the order of their events' times.
use packetdrill.Base.{
  ℕ, suc, ◌≡◌, ◌↔◌, refl, sym, ap, ◌∙◌, Bool, true, false, ◌&&◌, ◌||◌, List, [], ◌∷◌, some, none,
  length, arith, if◌then◌else◌, Bool-cases, inl, inr,
}
use packetdrill.Base.Int.{ℤ, pos, ◌-ℤ◌, ◌≤ℤ◌, ltb_ℤ, eq_of_parts}
use packetdrill.Timing.{
  ScriptEvent, RunTimes, TimeType, absolute_time, relative_time, any_time, absolute_range_time,
  relative_range_time, adjust_by_type, adjust_relative_event_times, is_absolute,
  is_event_time_absolute, EventState, move_on, get_next_event, Run, script_done, died_in_event,
  run_events,
}

-- Of two events one behind the other, with absolute times both, the second is not earlier.
abbrev pub AreInOrder : ScriptEvent → List ScriptEvent → Type 0
AreInOrder e [] = Unit
AreInOrder e (f ∷ events) =
    ((is_event_time_absolute e && is_event_time_absolute f) ≡ true → e.time_usecs ≤ℤ f.time_usecs)
    × AreInOrder f events

-- At the start no event is current.
abbrev pub start_of : List ScriptEvent → EventState
start_of events = record {
  last_event = none;
  event = none;
  upcoming = events;
  script_start_time_usecs = pos 0;
  script_last_time_usecs = pos 0;
}

-- The adjustment leaves the types of the times, and absolute times.
adjust_keeps_type :
    (type_ : TimeType) (offset : ℤ) (e : ScriptEvent)
    → (adjust_by_type type_ offset e).time_type ≡ e.time_type
unfolding adjust_by_type
adjust_keeps_type absolute_time offset e = refl
adjust_keeps_type relative_time offset e = refl
adjust_keeps_type any_time offset e = refl
adjust_keeps_type absolute_range_time offset e = refl
adjust_keeps_type relative_range_time offset e = refl

adjust_keeps_test :
    (type_ : TimeType) (offset : ℤ) (e f : ScriptEvent)
    → (is_absolute type_
        && is_event_time_absolute f
        && ltb_ℤ f.time_usecs (adjust_by_type type_ offset e).time_usecs)
      ≡ (is_absolute type_ && is_event_time_absolute f && ltb_ℤ f.time_usecs e.time_usecs)
unfolding adjust_by_type
adjust_keeps_test absolute_time offset e f = refl
adjust_keeps_test relative_time offset e f = refl
adjust_keeps_test any_time offset e f = refl
adjust_keeps_test absolute_range_time offset e f = refl
adjust_keeps_test relative_range_time offset e f = refl

backward_iff : (a b : Bool) (x y : ℤ) → ((a && b && ltb_ℤ y x) ≡ false) ↔ ((a && b) ≡ true → x ≤ℤ y)
backward_iff true true x y = (λ h e. ground arith, λ h. let le = h refl in ground arith)
backward_iff true false x y = (λ h e. absurd (cc e), λ h. refl)
backward_iff false b x y = (λ h e. absurd (cc e), λ h. refl)

-- A script's first event is at time 0, and its events are in order.
abbrev pub RunsThrough : List ScriptEvent → Type 0
RunsThrough [] = ⊥
RunsThrough (e ∷ events) = (e.time_usecs ≡ pos 0) × AreInOrder e events

zero_iff : (x : ℤ) → ((ltb_ℤ x (pos 0) || ltb_ℤ (pos 0) x) ≡ false) ↔ (x ≡ pos 0)
zero_iff x = (λ h. eq_of_parts x (pos 0) (ground arith), λ h. rw h refl)

checked_iff :
    (b : Bool) (rest : Run) {P : Type 0}
    → ((rest ≡ script_done) ↔ P)
    → ((if b then rest else died_in_event) ≡ script_done) ↔ ((b ≡ true) × P)
checked_iff true rest h = (λ e. (refl, h.0 e), λ (t, p). h.1 p)
checked_iff false rest h = (λ e. absurd (cc e), λ (t, p). absurd (cc t))

module _ (now : ℕ → ℤ) (run_event : ℕ → ScriptEvent → Bool) (times : RunTimes) where
  -- The event with `n` behind it as it is when its handler is called.
  abbrev pub started : ℕ → ScriptEvent → ScriptEvent
  started n e = adjust_relative_event_times times (now (suc n)) e

  -- The handler of every event comes back.
  abbrev pub AllReturn : List ScriptEvent → Type 0
  AllReturn [] = Unit
  AllReturn (e ∷ events) =
      (run_event (suc (length events)) (started (length events) e) ≡ true) × AllReturn events

  -- The loop from an event `e` that is adjusted, with the events behind it.
  rest_iff :
      (events : List ScriptEvent) (offset : ℤ) (e : ScriptEvent) (state : EventState)
      → (run_events now run_event times
            (suc (length events))
            (record state { event = some (adjust_by_type e.time_type offset e); upcoming = events })
          ≡ script_done)
        ↔ (AreInOrder e events × AllReturn events)
  unfolding run_events get_next_event move_on adjust_relative_event_times
  rest_iff [] offset e state = (λ x. (tt, tt), λ x. refl)
  rest_iff (f ∷ events) offset e state =
      let adjusted = adjust_by_type e.time_type offset e in
      let same : (is_event_time_absolute adjusted
            && is_event_time_absolute f
            && ltb_ℤ f.time_usecs adjusted.time_usecs)
          ≡ (is_event_time_absolute e
              && is_event_time_absolute f
              && ltb_ℤ f.time_usecs e.time_usecs) =
        ap
          (λ t. is_absolute t && is_event_time_absolute f && ltb_ℤ f.time_usecs adjusted.time_usecs)
          (adjust_keeps_type e.time_type offset e)
        ∙ adjust_keeps_test e.time_type offset e f in
      let order =
        backward_iff (is_event_time_absolute e) (is_event_time_absolute f) e.time_usecs
          f.time_usecs in
      let next : EventState = record state {
        script_last_time_usecs = adjusted.time_usecs;
        last_event = some adjusted;
      } in
      let moved = now (suc (length events)) -ℤ times.live_start_time_usecs in
      let ih =
        checked_iff (run_event (suc (length events)) (started (length events) f)) _
          (rest_iff events moved f next) in
      elim (Bool-cases (
        is_event_time_absolute adjusted
        && is_event_time_absolute f
        && ltb_ℤ f.time_usecs adjusted.time_usecs)) [
          | inl back ↦
              rw (run_events, back)
                (
                  (λ run. absurd (cc run)),
                  (λ (ordered, returns). let ok = order.1 ordered.0 in cc (back, same, ok)),
                )
          | inr forth ↦
              rw (run_events, forth)
                (
                  (λ run.
                      let (r, (o, rs)) = ih.0 run in ((order.0 (sym same ∙ forth), o), (r, rs))),
                  (λ (ordered, returns). ih.1 (returns.0, (ordered.1, returns.1))),
                )
        ]

  -- The loop of `run_script` comes to the end of the script, for any clock, exactly if the first event
  -- is at time 0, no event with an absolute time directly behind another one is earlier, and the
  -- handler of every event, called with the event's times adjusted to the clock, comes back. A loop
  -- of one round more than there are events is enough.
  pub run_events_iff :
      (events : List ScriptEvent)
      → (run_events now run_event times (suc (length events)) (start_of events) ≡ script_done)
        ↔ (RunsThrough events × AllReturn events)
  unfolding run_events get_next_event adjust_relative_event_times
  run_events_iff [] = (λ run. absurd (cc run), λ (h, r). absurd h)
  run_events_iff (e ∷ events) =
      let rest = checked_iff (run_event (suc (length events)) (started (length events) e)) _ (
        rest_iff events (now (suc (length events)) -ℤ times.live_start_time_usecs) e
          (record (start_of events) { script_start_time_usecs = e.time_usecs })) in
      elim (Bool-cases (ltb_ℤ e.time_usecs (pos 0) || ltb_ℤ (pos 0) e.time_usecs)) [
        | inl off ↦
            rw (run_events, off)
              (
                (λ run. absurd (cc run)),
                (λ (h, r). let ok = (zero_iff e.time_usecs).1 h.0 in cc (off, ok)),
              )
        | inr at_zero ↦
            rw (run_events, at_zero)
              (
                (λ run.
                    let (r, (o, rs)) = rest.0 run in
                    (((zero_iff e.time_usecs).0 at_zero, o), (r, rs))),
                (λ (h, r). rest.1 (r.0, (h.1, r.1))),
              )
      ]
