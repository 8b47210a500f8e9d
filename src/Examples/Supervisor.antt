-- ===== src/Examples/Supervisor.antt =====
-- A supervisor whose one bot exits at once, each time.
use freqpanda.Prelude.{◌≡◌, refl, true, not, ◌&&◌, [], ◌∷◌}
use freqpanda.Prelude.Dict.{get, put, remove}
use freqpanda.Prelude.Fixed.{Fixed, fixed_float}
use freqpanda.Strategy.Schema.{contains}
use freqpanda.Execution.Supervisor.{
  Settings, Pass, spawned, marked_error, reconcile_once, run_forever, new_supervisor, start_one,
  start_missing, stop_one, stop_undesired, reap_one, reap_exited, reap_dead_children, spawn,
  give_up, intersect, recent,
}
use freqpanda.Execution.Supervisor.Settled.{is_running}
use freqpanda.Execution.Supervisor.Converges.{run_forever-converges}
use freqpanda.Examples.Sample.{whole}

abbrev settings : Settings Fixed
settings = record { max_restarts_in_window = 1; crash_loop_window_seconds = whole 300 }

abbrev crashed : Pass Fixed
crashed = record {
  desired_running = "a" ∷ [];
  has_exited = λ bot_id. true;
  clock = λ bot_id. whole 50;
}

-- It is started, restarted once, and given up.
started_twice :
    (run_forever settings (crashed ∷ crashed ∷ crashed ∷ crashed ∷ []) new_supervisor).log
    ≡ spawned "a" ∷ spawned "a" ∷ marked_error "a" ∷ []
unfolding run_forever reconcile_once start_one start_missing stop_one stop_undesired reap_one
    reap_exited reap_dead_children spawn give_up intersect recent contains get put remove
started_twice = refl

run_forever-converges_example :
    let sup =
      reconcile_once settings crashed (run_forever settings (crashed ∷ []) new_supervisor) in
    is_running sup "a" ≡ (contains "a" ("a" ∷ []) && not (contains "a" sup.given_up))
run_forever-converges_example = run_forever-converges settings (crashed ∷ []) crashed "a"
