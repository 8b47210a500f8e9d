-- ===== src/Execution/Supervisor/Restarts.antt =====
-- What the supervisor does with a bot that keeps crashing.
use freqpanda.Prelude.{ℕ, zero, suc, ◌≡◌, String, true, List, [], ◌∷◌, All}
use freqpanda.Prelude.Float.{Float}
use freqpanda.Execution.Supervisor.{Settings, Supervisor, Pass, Effect, spawned, marked_error}

-- What is done over a number of crashes, with a number of restarts left.
pub crash_loop : String → (restarts crashes : ℕ) → List Effect
crash_loop bot_id restarts zero = []
crash_loop bot_id zero (suc crashes) = marked_error bot_id ∷ []
crash_loop bot_id (suc restarts) (suc crashes) = spawned bot_id ∷ crash_loop bot_id restarts crashes

module _ {F : Type 0} where
  -- A pass at a time, where one bot is to run and its process has exited.
  abbrev pub crashed_at : String → F → Pass F
  crashed_at bot_id t = record {
    desired_running = bot_id ∷ [];
    has_exited = λ id. true;
    clock = λ id. t;
  }

  abbrev running : String → List F → List Effect → Supervisor F
  running bot_id restart_times log = record {
    children = (bot_id, record { restart_times = restart_times }) ∷ [];
    given_up = [];
    log = log;
  }

  abbrev abandoned : String → List Effect → Supervisor F
  abandoned bot_id log = record { children = []; given_up = bot_id ∷ []; log = log }

module _ {F : Type 0} ⦃fl : Float F⦄ (settings : Settings F) where
  -- Every time is within the window of each one before it.
  abbrev pub IsBurst : List F → Type 0
  IsBurst [] = Unit
  IsBurst (t ∷ ts) =
      All (λ u. fl.lt (fl.sub u t) settings.crash_loop_window_seconds ≡ true) ts × IsBurst ts

  abbrev Counts : List F → F → Type 0
  Counts used t = All (λ u. fl.lt (fl.sub t u) settings.crash_loop_window_seconds ≡ true) used
