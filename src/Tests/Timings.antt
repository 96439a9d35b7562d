-- ===== src/Tests/Timings.antt =====
-- The times of events at concrete inputs.
use packetdrill.Base.{
  ℕ, suc, Bool, ltb, ◌≡◌, ◌↔◌, refl, none, [], ◌∷◌, ◌++◌, length, List, if◌then◌else◌, arith,
}
use packetdrill.Base.Int.{ℤ, pos, negsuc, ◌+ℤ◌, ◌-ℤ◌, ◌≤ℤ◌, ltb_ℤ}
use packetdrill.Timing.{
  ScriptEvent, TimeType, absolute_time, relative_time, adjust_relative_event_times, wait_for_event,
  on_time, died, run_events, script_done, died_in_event, get_next_event, move_on, adjust_by_type,
}
use packetdrill.Timing.Wait.{AreBefore, times_of, wait_for_event-adjust}
use packetdrill.Timing.Order.{start_of, RunsThrough, AllReturn, run_events_iff}

abbrev event_at : TimeType → ℤ → ScriptEvent
event_at type_ time = record {
  time_usecs = time;
  time_usecs_end = negsuc 0;
  offset_usecs = negsuc 0;
  time_type = type_;
  blocking_end = none;
}

early : AreBefore (pos 2000 +ℤ pos 10000) (pos 2001 ∷ pos 11900 ∷ [])
unfolding ◌+ℤ◌
early = (refl, (refl, tt))

target-le : pos 2000 +ℤ pos 10000 ≤ℤ pos 12000
unfolding ◌+ℤ◌
target-le = omega arith

-- Ten milliseconds behind the event before, which happened at 2000.
wait_for_event-adjust_example :
    wait_for_event
      (times_of (pos 1000) (pos 4000))
      (adjust_relative_event_times
        (times_of (pos 1000) (pos 4000))
        (pos 2000)
        (record (event_at absolute_time (pos 10000)) { time_type = relative_time }))
      ((pos 2001 ∷ pos 11900 ∷ []) ++ (pos 12000 ∷ pos 12003 ∷ []))
    ≡ (if ltb_ℤ (pos 2000 +ℤ pos 10000 +ℤ pos 4000) (pos 12003) then died else on_time (pos 12003))
wait_for_event-adjust_example =
    wait_for_event-adjust (pos 1000) (pos 4000) (event_at absolute_time (pos 10000)) (pos 2000)
      (pos 12000) (pos 12003) (pos 2001 ∷ pos 11900 ∷ []) [] (omega arith) early target-le
      (omega arith)

abbrev three_events : List ScriptEvent
three_events =
    event_at absolute_time (pos 0)
    ∷ event_at relative_time (pos 500)
    ∷ event_at absolute_time (pos 100)
    ∷ []

-- A clock that stands still, and a handler that fails for the last event.
abbrev clock : ℕ → ℤ
clock n = pos 700

abbrev all_but_last : ℕ → ScriptEvent → Bool
all_but_last n e = ltb 1 n

stops_in_last :
    run_events clock all_but_last (times_of (pos 50) (pos 10)) 4 (start_of three_events)
    ≡ died_in_event
unfolding run_events get_next_event move_on adjust_relative_event_times adjust_by_type ◌+ℤ◌ ◌-ℤ◌
stops_in_last = refl

run_events_iff_example :
    (run_events clock all_but_last
        (times_of (pos 50) (pos 10))
        (suc (length three_events))
        (start_of three_events)
      ≡ script_done)
    ↔ (RunsThrough three_events
        × AllReturn clock all_but_last (times_of (pos 50) (pos 10)) three_events)
run_events_iff_example = run_events_iff clock all_but_last (times_of (pos 50) (pos 10)) three_events
