-- ===== src/Tests/Monitors.antt =====
-- The theorems about the monitor, at the state in which the producer has put its first number.
use sgx_experiments.Prelude.{◌≤◌, ◌+◌, ◌≡◌, ◌⊎◌, ℕ, refl, true, false, List}
use sgx_experiments.Thread.Buffer.{CondBuffer, produced, buffer, Choice, run}
use sgx_experiments.Thread.Buffer.Progress.{work}
use sgx_experiments.Thread.Monitor.{
  Place, before_lock, at_test, before_write, before_advance, before_wrap, before_count,
  before_signal, before_unlock, producer_loop, to, turn, turn_at, Monitor, monitor, no_signal,
  nobody, Step, producing, Steps, here, next, rounds,
}
use sgx_experiments.Thread.Monitor.Balance.{bit, holds}
use sgx_experiments.Thread.Monitor.Invariant.{holding, Steps-exclusive}
use sgx_experiments.Thread.Monitor.Refinement.{Steps-run}
use sgx_experiments.Thread.Monitor.Termination.{steps, monitor-terminates}

abbrev locked_monitor : Monitor
locked_monitor = record monitor {
  locked = true;
  producer = record { place = at_test; left = 2000 };
}

-- The assignments of the first round, and its end.
abbrev at_place : Place → ℕ → CondBuffer → Monitor
at_place place left b = record locked_monitor {
  buffer = b;
  producer = record { place = place; left = left };
}

abbrev written : CondBuffer
written = producer_loop.write buffer

abbrev advanced : CondBuffer
advanced = producer_loop.advance written

abbrev unlocked_monitor : Monitor
unlocked_monitor = record (at_place before_lock 1999 (produced buffer)) { locked = false }

locks_first : Step monitor locked_monitor
unfolding turn turn_at
locks_first = producing (to buffer true at_test 2000 false) monitor.consumers refl no_signal

passes_then : Step locked_monitor (at_place before_write 2000 buffer)
unfolding turn turn_at
passes_then = producing (to buffer true before_write 2000 false) monitor.consumers refl no_signal

writes_then : Step (at_place before_write 2000 buffer) (at_place before_advance 2000 written)
unfolding turn turn_at
writes_then = producing (to written true before_advance 2000 false) monitor.consumers refl no_signal

advances_then : Step (at_place before_advance 2000 written) (at_place before_wrap 2000 advanced)
unfolding turn turn_at
advances_then = producing (to advanced true before_wrap 2000 false) monitor.consumers refl no_signal

wraps_then :
    Step
      (at_place before_wrap 2000 advanced)
      (at_place before_count 2000 (producer_loop.wrap advanced))
unfolding turn turn_at
wraps_then =
    producing (to (producer_loop.wrap advanced) true before_count 2000 false) monitor.consumers refl
      no_signal

changes_then :
    Step
      (at_place before_count 2000 (producer_loop.wrap advanced))
      (at_place before_signal 1999 (produced buffer))
unfolding turn turn_at
changes_then =
    producing (to (produced buffer) true before_signal 1999 false) monitor.consumers refl no_signal

signals_then :
    Step
      (at_place before_signal 1999 (produced buffer))
      (at_place before_unlock 1999 (produced buffer))
unfolding turn turn_at
signals_then =
    producing (to (produced buffer) true before_unlock 1999 true) monitor.consumers refl
      (nobody refl)

unlocks_last : Step (at_place before_unlock 1999 (produced buffer)) unlocked_monitor
unfolding turn turn_at
unlocks_last =
    producing (to (produced buffer) false before_lock 1999 false) monitor.consumers refl no_signal

-- In the middle of the round, and behind it.
abbrev put_monitor : Monitor
put_monitor = at_place before_wrap 2000 advanced

put_path : Steps monitor put_monitor
put_path = next (next (next (next here locks_first) passes_then) writes_then) advances_then

round_path : Steps monitor unlocked_monitor
round_path = next (next (next (next put_path wraps_then) changes_then) signals_then) unlocks_last

Steps-run_example :
    (schedule : List Choice) × (run schedule (rounds monitor) ≡ rounds unlocked_monitor)
Steps-run_example = Steps-run unlocked_monitor round_path refl

Steps-exclusive_example :
    (holds put_monitor.producer.place + holding put_monitor.consumers ≤ 1)
    × (bit put_monitor.locked ≡ holds put_monitor.producer.place + holding put_monitor.consumers)
Steps-exclusive_example = Steps-exclusive put_monitor put_path

monitor-terminates_example :
    (steps put_path ≤ 40030)
    × (((work (rounds put_monitor).1 ≡ 0) × (put_monitor.buffer.occupied ≡ 0))
        ⊎ ((n : Monitor) × Step put_monitor n))
monitor-terminates_example = monitor-terminates put_monitor put_path
