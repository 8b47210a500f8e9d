-- ===== src/Execution/Supervisor/Converges.antt =====
-- The children of the supervisor against the desired bots.
use freqpanda.Prelude.{
  String, ◌≡◌, refl, ◌∙◌, not, ◌&&◌, List, [], ◌∷◌, arith, Bool-cases, inl, inr,
}
use freqpanda.Prelude.Dict.{get, Distinct, Distinct-put, Distinct-remove}
use freqpanda.Prelude.Float.{Float}
use freqpanda.Strategy.Schema.{contains}
use freqpanda.Execution.Supervisor.{
  Child, Settings, Supervisor, Pass, is_some, intersect, spawn, stop, start_one, start_missing,
  stop_one, stop_undesired, reap_dead_children, reap_one, reconcile_once, run_forever,
  new_supervisor,
}
use freqpanda.Execution.Supervisor.Settled.{
  is_running, contains-intersect, IsSettled, start_missing-running, stop_undesired-running,
  start_missing-Settles, stop_undesired-Settles, reap-Settles, reap_one-Distinct,
}

module _ {F : Type 0} where
  start_missing-Distinct :
      (desired : List String) (sup : Supervisor F)
      → Distinct sup.children
      → Distinct (start_missing desired sup).children
  unfolding start_missing start_one spawn
  start_missing-Distinct [] sup h = h
  start_missing-Distinct (k ∷ rest) sup h =
      start_missing-Distinct rest (start_one k sup)
        (elim (Bool-cases (not (is_some (get k sup.children)) && not (contains k sup.given_up))) [
          | inl e ↦ rw e (Distinct-put k _ _ h)
          | inr e ↦ rw e h
        ])

  stop_undesired-Distinct :
      (desired : List String) (items : List (String × Child F)) (sup : Supervisor F)
      → Distinct sup.children
      → Distinct (stop_undesired desired items sup).children
  unfolding stop_undesired stop_one stop
  stop_undesired-Distinct desired [] sup h = h
  stop_undesired-Distinct desired ((k, child) ∷ rest) sup h =
      stop_undesired-Distinct desired rest (stop_one desired k sup)
        (elim (Bool-cases (contains k desired)) [
          | inl e ↦ rw e h
          | inr e ↦ rw e (Distinct-remove k _ h)
        ])

module _ {F : Type 0} ⦃fl : Float F⦄ (settings : Settings F) where
  reap-Distinct :
      (pass : Pass F) (items : List (String × Child F)) (sup : Supervisor F)
      → Distinct sup.children
      → Distinct (reap_dead_children settings pass items sup).children
  unfolding reap_dead_children
  reap-Distinct pass [] sup h = h
  reap-Distinct pass ((k, child) ∷ rest) sup h =
      reap-Distinct pass rest (reap_one settings pass k child sup)
        (reap_one-Distinct settings pass k child sup h)

  -- The supervisor after the dead children are reaped.
  abbrev reaped : Pass F → Supervisor F → Supervisor F
  reaped pass sup =
      let kept = record sup { given_up = intersect sup.given_up pass.desired_running } in
      reap_dead_children settings pass kept.children kept

  reaped-IsSettled :
      (pass : Pass F) (sup : Supervisor F) → IsSettled sup → IsSettled (reaped pass sup)
  reaped-IsSettled pass sup h =
      let kept = record sup { given_up = intersect sup.given_up pass.desired_running } in
      (
        reap-Distinct pass kept.children kept h.0,
        λ j.
            reap-Settles settings pass kept.children kept h.0 (λ k e. e)
              (λ i. ground (arith, h.1 i, contains-intersect i sup.given_up pass.desired_running))
              j,
      )

  reconcile_once-IsSettled :
      (pass : Pass F) (sup : Supervisor F)
      → IsSettled sup
      → IsSettled (reconcile_once settings pass sup)
  unfolding reconcile_once
  reconcile_once-IsSettled pass sup h =
      let (distinct, settles) = reaped-IsSettled pass sup h in
      let started = start_missing pass.desired_running (reaped pass sup) in
      (
        stop_undesired-Distinct pass.desired_running started.children started
            (start_missing-Distinct pass.desired_running (reaped pass sup) distinct),
        λ j.
            stop_undesired-Settles pass.desired_running started.children started j
              (start_missing-Settles pass.desired_running (reaped pass sup) j (settles j)),
      )

  reconcile_once-running :
      (pass : Pass F) (sup : Supervisor F) (j : String)
      → IsSettled sup
      → let sup' = reconcile_once settings pass sup in
        is_running sup' j ≡ (contains j pass.desired_running && not (contains j sup'.given_up))
  unfolding reconcile_once
  reconcile_once-running pass sup j h =
      let settled = (reaped-IsSettled pass sup h).1 j in
      let started = start_missing pass.desired_running (reaped pass sup) in
      let (runs, same) = start_missing-running pass.desired_running (reaped pass sup) j in
      let (left, kept) = stop_undesired-running pass.desired_running started.children started j in
      left ∙ rw (kept, same, runs) (ground arith)

  run-IsSettled :
      (passes : List (Pass F)) (sup : Supervisor F)
      → IsSettled sup
      → IsSettled (run_forever settings passes sup)
  unfolding run_forever
  run-IsSettled [] sup h = h
  run-IsSettled (pass ∷ rest) sup h =
      run-IsSettled rest (reconcile_once settings pass sup) (reconcile_once-IsSettled pass sup h)

  new-IsSettled : IsSettled {F = F} new_supervisor
  unfolding get
  new-IsSettled = (tt, λ j. refl)

  -- After any passes, whatever the processes did in between, one more pass leaves exactly the desired
  -- bots running that the supervisor has not given up on.
  pub run_forever-converges :
      (passes : List (Pass F)) (pass : Pass F) (bot_id : String)
      → let sup = reconcile_once settings pass (run_forever settings passes new_supervisor) in
        is_running sup bot_id
        ≡ (contains bot_id pass.desired_running && not (contains bot_id sup.given_up))
  run_forever-converges passes pass bot_id =
      reconcile_once-running pass (run_forever settings passes new_supervisor) bot_id
        (run-IsSettled passes new_supervisor new-IsSettled)
