-- ===== src/Timing.antt =====
-- The times of a script's events: gtests/net/packetdrill/run.c and run.h. Times are in
-- microseconds, as integers without bounds; where the source's 64 bits would overflow, the program
-- is undefined. The clock is a parameter: what `now_usecs` gives, call by call.
pub mod Wait
pub mod Order
use packetdrill.Base.{
  ℕ, zero, suc, Bool, true, false, ◌&&◌, ◌||◌, List, [], ◌∷◌, Option, none, some, if◌then◌else◌,
}
use packetdrill.Base.Int.{ℤ, pos, ◌+ℤ◌, ◌-ℤ◌, ltb_ℤ}

pub data TimeType : Type 0 where
  absolute_time relative_time any_time absolute_range_time relative_range_time : TimeType

-- The times of `struct event`. `blocking_end` is the end time of a blocking system call, and `none`
-- for any other event.
pub record ScriptEvent : Type 0 where
  pub time_usecs : ℤ
  pub time_usecs_end : ℤ
  pub offset_usecs : ℤ
  pub time_type : TimeType
  pub blocking_end : Option ℤ

-- The start times of `struct state`, and the configured tolerance.
pub record RunTimes : Type 0 where
  pub script_start_time_usecs : ℤ
  pub live_start_time_usecs : ℤ
  pub tolerance_usecs : ℤ

unfoldable pub script_time_to_live_time_usecs : RunTimes → ℤ → ℤ
script_time_to_live_time_usecs state script_time_usecs =
    state.live_start_time_usecs +ℤ (script_time_usecs -ℤ state.script_start_time_usecs)

unfoldable pub is_within : ℤ → ℤ → ℤ → ℤ → Bool
is_within actual first last tolerance =
    if ltb_ℤ actual (first -ℤ tolerance) || ltb_ℤ (last +ℤ tolerance) actual then false else true

-- `false` is STATUS_ERR.
unfoldable pub verify_time : RunTimes → TimeType → ℤ → ℤ → ℤ → Bool
verify_time state any_time script_usecs script_usecs_end live_usecs = true
verify_time state absolute_range_time script_usecs script_usecs_end live_usecs =
    is_within (live_usecs -ℤ state.live_start_time_usecs)
      (script_usecs -ℤ state.script_start_time_usecs)
      (script_usecs_end -ℤ state.script_start_time_usecs) state.tolerance_usecs
verify_time state relative_range_time script_usecs script_usecs_end live_usecs =
    is_within (live_usecs -ℤ state.live_start_time_usecs)
      (script_usecs -ℤ state.script_start_time_usecs)
      (script_usecs_end -ℤ state.script_start_time_usecs) state.tolerance_usecs
verify_time state other script_usecs script_usecs_end live_usecs =
    is_within (live_usecs -ℤ state.live_start_time_usecs)
      (script_usecs -ℤ state.script_start_time_usecs)
      (script_usecs -ℤ state.script_start_time_usecs) state.tolerance_usecs

abbrev pub add_to : ℤ → Option ℤ → Option ℤ
add_to offset none = none
add_to offset (some end) = some (end +ℤ offset)

-- `now` is what `now_usecs` gives. Absolute events stay as they are.
unfoldable pub adjust_by_type : TimeType → ℤ → ScriptEvent → ScriptEvent
adjust_by_type any_time offset event = record event {
  offset_usecs = offset;
  time_usecs = event.time_usecs +ℤ offset;
}
adjust_by_type relative_time offset event = record event {
  offset_usecs = offset;
  time_usecs = event.time_usecs +ℤ offset;
  blocking_end = add_to offset event.blocking_end;
}
adjust_by_type relative_range_time offset event = record event {
  offset_usecs = offset;
  time_usecs = event.time_usecs +ℤ offset;
  time_usecs_end = event.time_usecs_end +ℤ offset;
}
adjust_by_type other offset event = event

unfoldable pub adjust_relative_event_times : RunTimes → ℤ → ScriptEvent → ScriptEvent
adjust_relative_event_times state now event =
    adjust_by_type event.time_type (now -ℤ state.live_start_time_usecs) event

-- The loop of `wait_for_event` over the clock's readings: those that are left when it ends.
unfoldable pub wait_loop : ℤ → List ℤ → Option (List ℤ)
wait_loop event_usecs [] = none
wait_loop event_usecs (now ∷ readings) =
    if ltb_ℤ now event_usecs then wait_loop event_usecs readings else some readings

-- `died` is the timing error of `check_event_time`.
pub data Waited : Type 0 where
  on_time : ℤ → Waited
  died clock_ended : Waited

unfoldable pub check_event_time : RunTimes → ScriptEvent → ℤ → Waited
check_event_time state event live_usecs =
    if verify_time state event.time_type event.time_usecs event.time_usecs_end live_usecs
    then on_time live_usecs
    else died

unfoldable pub wait_for_event : RunTimes → ScriptEvent → List ℤ → Waited
wait_for_event state event readings =
    elim (wait_loop (script_time_to_live_time_usecs state event.time_usecs) readings) [
      | none ↦ clock_ended
      | some [] ↦ clock_ended
      | some (now ∷ rest) ↦ check_event_time state event now
    ]

abbrev pub is_absolute : TimeType → Bool
is_absolute absolute_time = true
is_absolute absolute_range_time = true
is_absolute relative_time = false
is_absolute any_time = false
is_absolute relative_range_time = false

abbrev pub is_event_time_absolute : ScriptEvent → Bool
is_event_time_absolute event = is_absolute event.time_type

-- The events in `struct state`: the last one, the current one and those behind it; `none` is NULL.
pub record EventState : Type 0 where
  pub last_event : Option ScriptEvent
  pub event : Option ScriptEvent
  pub upcoming : List ScriptEvent
  pub script_start_time_usecs : ℤ
  pub script_last_time_usecs : ℤ

-- `null_event` is the access to the first event of an empty script.
pub data Next : Type 0 where
  next_event : EventState → Next
  not_at_zero goes_backward null_event : Next

-- The step past the current event `e`.
unfoldable pub move_on : EventState → ScriptEvent → List ScriptEvent → Next
move_on state e [] =
    next_event
      (record state { script_last_time_usecs = e.time_usecs; last_event = some e; event = none })
move_on state e (f ∷ upcoming) =
    if is_event_time_absolute e && is_event_time_absolute f && ltb_ℤ f.time_usecs e.time_usecs
    then goes_backward
    else next_event (record state {
      script_last_time_usecs = e.time_usecs;
      last_event = some e;
      event = some f;
      upcoming = upcoming;
    })

unfoldable pub get_next_event : EventState → Next
get_next_event state = elim state.event [
  | some e ↦ move_on state e state.upcoming
  | none ↦ elim state.upcoming [
    | [] ↦ null_event
    | e ∷ upcoming ↦
        if ltb_ℤ e.time_usecs (pos 0) || ltb_ℤ (pos 0) e.time_usecs
        then not_at_zero
        else next_event (record state {
          event = some e;
          upcoming = upcoming;
          script_start_time_usecs = e.time_usecs;
        })
  ]
]

-- How the loop of `run_script` ends; `died_in_event` is a handler that ends the program.
pub data Run : Type 0 where
  script_done refused died_in_event crashed stuck : Run

-- The loop of `run_script`. For each round, `now` gives the clock at the adjustment, and `run_event`
-- whether the `switch` on the type of the adjusted event, a parameter here, comes back: the handlers
-- of packets, system calls, commands and code end the program where the event is late or fails. They
-- leave the times of the events alone.
module _ (now : ℕ → ℤ) (run_event : ℕ → ScriptEvent → Bool) (times : RunTimes) where
  unfoldable pub run_events : ℕ → EventState → Run
  unfolding get_next_event adjust_relative_event_times
  run_events zero state = stuck
  run_events (suc fuel) state = elim (get_next_event state) [
    | not_at_zero ↦ refused
    | goes_backward ↦ refused
    | null_event ↦ crashed
    | next_event state' ↦ elim state'.event [
      | none ↦ script_done
      | some e ↦
          let adjusted = adjust_relative_event_times times (now fuel) e in
          let rest = run_events fuel (record state' { event = some adjusted }) in
          if run_event fuel adjusted then rest else died_in_event
    ]
  ]
