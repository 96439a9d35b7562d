-- ===== src/Timing/Wait.antt =====
-- When an event happens.
use packetdrill.Base.{
  ◌+◌, ◌≡◌, Bool, arith, ap, ◌∙◌, refl, true, false, List, [], ◌∷◌, ◌++◌, some, if◌then◌else◌, All,
}
use packetdrill.Base.Int.{ℤ, pos, pos_part, neg_part, ◌+ℤ◌, ◌-ℤ◌, ◌≤ℤ◌, ltb_ℤ, int_laws}
use packetdrill.Timing.{
  ScriptEvent, RunTimes, relative_time, script_time_to_live_time_usecs, is_within, verify_time,
  adjust_by_type, adjust_relative_event_times, wait_loop, wait_for_event, check_event_time, on_time,
  died,
}

-- Readings before a time.
abbrev pub AreBefore : ℤ → List ℤ → Type 0
AreBefore time = All (λ t. ltb_ℤ t time ≡ true)

wait_loop-append :
    (time : ℤ) (before readings : List ℤ)
    → AreBefore time before
    → wait_loop time (before ++ readings) ≡ wait_loop time readings
unfolding wait_loop
wait_loop-append time [] readings h = refl
wait_loop-append time (t ∷ before) readings (h, hs) =
    rw h (wait_loop-append time before readings hs)

-- The time that a relative event waits for.
relative_target :
    (now start delay : ℤ) → start +ℤ ((delay +ℤ (now -ℤ start)) -ℤ pos 0) ≡ now +ℤ delay
relative_target now start delay = omega int_laws

not_lt : (a b : ℤ) → b ≤ℤ a → ltb_ℤ a b ≡ false
not_lt a b h = ground arith

-- The order of two integers depends on their difference alone.
ltb_shift :
    (a b c d : ℤ)
    → pos_part a + neg_part b + (pos_part d + neg_part c)
      ≡ pos_part b + neg_part a + (pos_part c + neg_part d)
    → ltb_ℤ a b ≡ ltb_ℤ c d
ltb_shift a b c d h = ground arith

wait_for_event_at :
    (state : RunTimes) (event : ScriptEvent) (readings after : List ℤ) (now : ℤ)
    → wait_loop (script_time_to_live_time_usecs state event.time_usecs) readings
      ≡ some (now ∷ after)
    → wait_for_event state event readings ≡ check_event_time state event now
unfolding wait_for_event
wait_for_event_at state event readings after now e = rw (e, wait_for_event) refl

wait_loop_reached : (time t : ℤ) (rest : List ℤ) → time ≤ℤ t → wait_loop time (t ∷ rest) ≡ some rest
unfolding wait_loop
wait_loop_reached time t rest h = let e = not_lt t time h in rw e refl

within_after :
    (actual expected tolerance latest now : ℤ)
    → expected -ℤ tolerance ≤ℤ actual
    → ltb_ℤ (expected +ℤ tolerance) actual ≡ ltb_ℤ latest now
    → (if is_within actual expected expected tolerance then on_time now else died)
      ≡ (if ltb_ℤ latest now then died else on_time now)
unfolding is_within
within_after actual expected tolerance latest now h e =
    let early = not_lt actual (expected -ℤ tolerance) h in
    rw (early, e) (outcome (ltb_ℤ latest now))
  where
    outcome :
        (b : Bool)
        → (if (if b then false else true) then on_time now else died)
          ≡ (if b then died else on_time now)
    outcome true = refl
    outcome false = refl

-- The times of a run, whose script starts at 0.
abbrev pub times_of : ℤ → ℤ → RunTimes
times_of live tolerance = record {
  script_start_time_usecs = pos 0;
  live_start_time_usecs = live;
  tolerance_usecs = tolerance;
}

-- An event with a relative time, whose time is adjusted at `now`, is waited for until the clock first
-- reads its delay behind `now` or more, however long that takes. It is on time if the reading after
-- that, `t'`, is within the tolerance behind, and a timing error if not. The tolerance is not
-- negative, and the script starts at time 0.
pub wait_for_event-adjust :
    (live tolerance : ℤ) (event : ScriptEvent) (now t t' : ℤ) (before after : List ℤ)
    → pos 0 ≤ℤ tolerance
    → AreBefore (now +ℤ event.time_usecs) before
    → now +ℤ event.time_usecs ≤ℤ t
    → t ≤ℤ t'
    → wait_for_event
        (times_of live tolerance)
        (adjust_relative_event_times
          (times_of live tolerance)
          now
          (record event { time_type = relative_time }))
        (before ++ (t ∷ t' ∷ after))
      ≡ (if ltb_ℤ (now +ℤ event.time_usecs +ℤ tolerance) t' then died else on_time t')
unfolding adjust_relative_event_times adjust_by_type script_time_to_live_time_usecs check_event_time
    verify_time
wait_for_event-adjust live tolerance event now t t' before after tol early h k =
    let delay = event.time_usecs in
    let time = delay +ℤ (now -ℤ live) in
    let adjusted =
      adjust_relative_event_times (times_of live tolerance) now
        (record event { time_type = relative_time }) in
    let waited : wait_loop (live +ℤ (time -ℤ pos 0)) (before ++ (t ∷ t' ∷ after))
        ≡ some (t' ∷ after) =
      ap (λ x. wait_loop x (before ++ (t ∷ t' ∷ after))) (relative_target now live delay)
      ∙ wait_loop-append (now +ℤ delay) before (t ∷ t' ∷ after) early
      ∙ wait_loop_reached (now +ℤ delay) t (t' ∷ after) h in
    wait_for_event_at (times_of live tolerance) adjusted (before ++ (t ∷ t' ∷ after)) after t'
      waited
    ∙ within_after (t' -ℤ live) (time -ℤ pos 0) tolerance (now +ℤ delay +ℤ tolerance) t'
        (omega int_laws)
        (ltb_shift ((time -ℤ pos 0) +ℤ tolerance) (t' -ℤ live) (now +ℤ delay +ℤ tolerance) t'
          (omega int_laws))
