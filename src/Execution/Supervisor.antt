-- ===== src/Execution/Supervisor.antt =====
-- freqpanda_execution/supervisor.py. Sets are lists of names, and what the supervisor does to
-- processes and to the database is kept in order in `log`. A process that is started, stopped or
-- reported does not fail here: an exception would end the pass where it is, and the next one goes on.
pub mod Settled
pub mod Converges
pub mod Restarts
use freqpanda.Prelude.{
  ℕ, String, Bool, true, false, not, ◌&&◌, Option, none, some, List, [], ◌∷◌, ◌++◌, length, leb,
  if◌then◌else◌,
}
use freqpanda.Prelude.Dict.{get, put, remove}
use freqpanda.Prelude.Float.{Float}
use freqpanda.Strategy.Schema.{contains}

-- _Child: the process is the one last spawned for the name.
pub record Child (F : Type 0) : Type 0 where
  pub restart_times : List F

pub data Effect : Type 0 where
  spawned stopped marked_error : String → Effect

-- The fields of Settings that the supervisor reads.
pub record Settings (F : Type 0) : Type 0 where
  pub max_restarts_in_window : ℕ
  pub crash_loop_window_seconds : F

pub record Supervisor (F : Type 0) : Type 0 where
  pub children : List (String × Child F)
  pub given_up : List String
  pub log : List Effect

-- What a pass finds: the bots with desired_status 'running', whether a bot's process has exited, and
-- the monotonic clock when it looks at a bot.
pub record Pass (F : Type 0) : Type 0 where
  pub desired_running : List String
  pub has_exited : String → Bool
  pub clock : String → F

abbrev pub is_some {ℓ} : {A : Type ℓ} → Option A → Bool
is_some none = false
is_some (some a) = true

-- set intersection
unfoldable pub intersect : List String → List String → List String
intersect [] allowed = []
intersect (x ∷ xs) allowed =
    let rest = intersect xs allowed in if contains x allowed then x ∷ rest else rest

module _ {F : Type 0} where
  -- Supervisor._spawn
  unfoldable pub spawn : String → List F → Supervisor F → Supervisor F
  spawn bot_id restart_times sup = record sup {
    children = put bot_id (record { restart_times = restart_times }) sup.children;
    log = sup.log ++ (spawned bot_id ∷ []);
  }

  -- Supervisor._stop
  unfoldable pub stop : String → Supervisor F → Supervisor F
  stop bot_id sup = record sup {
    children = remove bot_id sup.children;
    log = sup.log ++ (stopped bot_id ∷ []);
  }

  unfoldable pub give_up : String → Supervisor F → Supervisor F
  give_up bot_id sup = record sup {
    given_up = bot_id ∷ sup.given_up;
    log = sup.log ++ (marked_error bot_id ∷ []);
  }

  -- The start of one desired bot, unless it has a child or is given up.
  unfoldable pub start_one : String → Supervisor F → Supervisor F
  unfolding spawn
  start_one bot_id sup =
      if not (is_some (get bot_id sup.children)) && not (contains bot_id sup.given_up)
      then spawn bot_id [] sup
      else sup

  unfoldable pub start_missing : List String → Supervisor F → Supervisor F
  start_missing [] sup = sup
  start_missing (bot_id ∷ rest) sup = start_missing rest (start_one bot_id sup)

  unfoldable pub stop_one : List String → String → Supervisor F → Supervisor F
  unfolding stop
  stop_one desired bot_id sup = if contains bot_id desired then sup else stop bot_id sup

  unfoldable pub stop_undesired :
      List String → List (String × Child F) → Supervisor F → Supervisor F
  stop_undesired desired [] sup = sup
  stop_undesired desired ((bot_id, child) ∷ rest) sup =
      stop_undesired desired rest (stop_one desired bot_id sup)

module _ {F : Type 0} ⦃fl : Float F⦄ (settings : Settings F) where
  -- [t for t in restart_times if now - t < crash_loop_window_seconds]
  unfoldable pub recent : F → List F → List F
  recent now [] = []
  recent now (t ∷ ts) =
      let rest = recent now ts in
      if fl.lt (fl.sub now t) settings.crash_loop_window_seconds then t ∷ rest else rest

  -- _reap_dead_children after an exit: one child
  unfoldable pub reap_exited : Pass F → String → Child F → Supervisor F → Supervisor F
  unfolding spawn give_up
  reap_exited pass bot_id child sup =
      let left = record sup { children = remove bot_id sup.children } in
      let now = pass.clock bot_id in
      let restart_times = recent now child.restart_times in
      if not (contains bot_id pass.desired_running)
      then left
      else if leb settings.max_restarts_in_window (length restart_times)
      then give_up bot_id left
      else spawn bot_id (restart_times ++ (now ∷ [])) left

  unfoldable pub reap_one : Pass F → String → Child F → Supervisor F → Supervisor F
  unfolding reap_exited
  reap_one pass bot_id child sup =
      if pass.has_exited bot_id then reap_exited pass bot_id child sup else sup

  -- Supervisor._reap_dead_children, over the children that there were when it started
  unfoldable pub reap_dead_children : Pass F → List (String × Child F) → Supervisor F → Supervisor F
  reap_dead_children pass [] sup = sup
  reap_dead_children pass ((bot_id, child) ∷ rest) sup =
      reap_dead_children pass rest (reap_one pass bot_id child sup)

  -- Supervisor.reconcile_once
  unfoldable pub reconcile_once : Pass F → Supervisor F → Supervisor F
  reconcile_once pass sup =
      let kept = record sup { given_up = intersect sup.given_up pass.desired_running } in
      let reaped = reap_dead_children pass kept.children kept in
      let started = start_missing pass.desired_running reaped in
      stop_undesired pass.desired_running started.children started

  -- Supervisor.run_forever, by the passes so far
  unfoldable pub run_forever : List (Pass F) → Supervisor F → Supervisor F
  run_forever [] sup = sup
  run_forever (pass ∷ rest) sup = run_forever rest (reconcile_once pass sup)

abbrev pub new_supervisor : {F : Type 0} → Supervisor F
new_supervisor = record { children = []; given_up = []; log = [] }
