-- ===== src/Execution/Supervisor/Settled.antt =====
-- What a pass of the supervisor settles.
use freqpanda.Prelude.{
  String, ◌≡◌, ◌∙◌, inl, inr, Bool, true, false, not, ◌&&◌, ◌||◌, List, [], ◌∷◌, ◌++◌, length, leb,
  arith, Bool-cases, str_eq, eq_iff,
}
use freqpanda.Prelude.Dict.{
  get, remove, get-put, get-remove, Distinct, Distinct-put, Distinct-remove,
}
use freqpanda.Prelude.Float.{Float}
use freqpanda.Strategy.Schema.{contains}
use freqpanda.Execution.Supervisor.{
  Child, Settings, Supervisor, Pass, is_some, intersect, spawn, stop, give_up, start_missing,
  stop_undesired, recent, start_one, stop_one, reap_one, reap_exited, reap_dead_children,
}

-- Is there a child for a bot?
abbrev pub is_running : {F : Type 0} → Supervisor F → String → Bool
is_running sup bot_id = is_some (get bot_id sup.children)

pub contains-intersect :
    (x : String) (xs allowed : List String)
    → contains x (intersect xs allowed) ≡ (contains x xs && contains x allowed)
unfolding intersect contains
contains-intersect x [] allowed = ground arith
contains-intersect x (y ∷ ys) allowed = grind (arith, contains-intersect x ys allowed, eq_iff y x)

module _ {F : Type 0} where
  -- Each bot has one child, and none that the supervisor has given up on.
  abbrev pub IsSettled : Supervisor F → Type 0
  IsSettled sup =
      Distinct sup.children × ((j : String) → (is_running sup j && contains j sup.given_up) ≡ false)

  start_one-running :
      (k : String) (sup : Supervisor F) (j : String)
      → (is_running (start_one k sup) j
          ≡ (is_running sup j || (str_eq k j && not (contains j sup.given_up))))
        × ((start_one k sup).given_up ≡ sup.given_up)
  unfolding start_one spawn
  start_one-running k sup j =
      grind (arith, get-put k j (record { restart_times = [] }) sup.children, eq_iff k j)

  pub start_missing-running :
      (desired : List String) (sup : Supervisor F) (j : String)
      → (is_running (start_missing desired sup) j
          ≡ (is_running sup j || (contains j desired && not (contains j sup.given_up))))
        × ((start_missing desired sup).given_up ≡ sup.given_up)
  unfolding start_missing contains
  start_missing-running [] sup j = ground arith
  start_missing-running (k ∷ rest) sup j =
      let (running, same) = start_one-running k sup j in
      let (all, kept) = start_missing-running rest (start_one k sup) j in
      (all ∙ rw (running, same) (ground arith), kept ∙ same)

  stop_one-running :
      (desired : List String) (k : String) (sup : Supervisor F) (j : String)
      → (is_running (stop_one desired k sup) j
          ≡ (is_running sup j && (not (str_eq k j) || contains j desired)))
        × ((stop_one desired k sup).given_up ≡ sup.given_up)
  unfolding stop_one stop
  stop_one-running desired k sup j = grind (arith, get-remove k j sup.children, eq_iff k j)

  pub stop_undesired-running :
      (desired : List String) (items : List (String × Child F)) (sup : Supervisor F) (j : String)
      → (is_running (stop_undesired desired items sup) j
          ≡ (is_running sup j && (not (is_some (get j items)) || contains j desired)))
        × ((stop_undesired desired items sup).given_up ≡ sup.given_up)
  unfolding stop_undesired get
  stop_undesired-running desired [] sup j = ground arith
  stop_undesired-running desired ((k, child) ∷ rest) sup j =
      let (running, same) = stop_one-running desired k sup j in
      let (all, kept) = stop_undesired-running desired rest (stop_one desired k sup) j in
      (all ∙ rw running (ground arith), kept ∙ same)

  -- What is settled at one bot.
  abbrev Settles : Supervisor F → String → Type 0
  Settles sup j = (is_running sup j && contains j sup.given_up) ≡ false

  pub start_missing-Settles :
      (desired : List String) (sup : Supervisor F) (j : String)
      → Settles sup j
      → Settles (start_missing desired sup) j
  start_missing-Settles desired sup j h =
      let (running, same) = start_missing-running desired sup j in rw (running, same) (ground arith)

  pub stop_undesired-Settles :
      (desired : List String) (items : List (String × Child F)) (sup : Supervisor F) (j : String)
      → Settles sup j
      → Settles (stop_undesired desired items sup) j
  stop_undesired-Settles desired items sup j h =
      let (running, same) = stop_undesired-running desired items sup j in
      rw (running, same) (ground arith)

module _ {F : Type 0} ⦃fl : Float F⦄ (settings : Settings F) where
  -- A child that is looked at is running, and so is every other of the list, until its turn.
  reap_one-Settles :
      (pass : Pass F) (k : String) (child : Child F) (sup : Supervisor F) (j : String)
      → is_running sup k ≡ true
      → Settles sup k
      → Settles sup j
      → Settles (reap_one settings pass k child sup) j
        × (str_eq k j ≡ false
            → is_running (reap_one settings pass k child sup) j ≡ is_running sup j)
  unfolding reap_one reap_exited spawn give_up contains
  reap_one-Settles pass k child sup j running hk hj = grind (
    arith,
    get-remove k j sup.children,
    get-put k j
        (record {
          restart_times = recent settings (pass.clock k) child.restart_times ++ (pass.clock k ∷ []);
        })
        (remove k sup.children),
    eq_iff k j,
  )

  pub reap-Settles :
      (pass : Pass F) (items : List (String × Child F)) (sup : Supervisor F)
      → Distinct items
      → ((k : String) → is_some (get k items) ≡ true → is_running sup k ≡ true)
      → ((j : String) → Settles sup j)
      → (j : String) → Settles (reap_dead_children settings pass items sup) j
  unfolding reap_dead_children get
  reap-Settles pass [] sup distinct running h j = h j
  reap-Settles pass ((k, child) ∷ rest) sup distinct running h j =
      let runs = running k (ground (arith, eq_iff k k)) in
      reap-Settles pass rest (reap_one settings pass k child sup) distinct.1
        (λ i e. grind (
          arith,
          (reap_one-Settles pass k child sup i runs (h k) (h i)).1,
          running i,
          eq_iff k i,
          distinct.0,
        ))
        (λ i. (reap_one-Settles pass k child sup i runs (h k) (h i)).0) j

  pub reap_one-Distinct :
      (pass : Pass F) (k : String) (child : Child F) (sup : Supervisor F)
      → Distinct sup.children
      → Distinct (reap_one settings pass k child sup).children
  unfolding reap_one reap_exited spawn give_up
  reap_one-Distinct pass k child sup h =
      let left = Distinct-remove k sup.children h in
      elim (Bool-cases (pass.has_exited k)) [
        | inr e ↦ rw e h
        | inl e ↦ rw e (elim (Bool-cases (contains k pass.desired_running)) [
          | inr d ↦ rw d left
          | inl d ↦
              rw d
                (elim (Bool-cases (
                  leb settings.max_restarts_in_window
                    (length (recent settings (pass.clock k) child.restart_times)))) [
                      | inl r ↦ rw r left
                      | inr r ↦ rw r (Distinct-put k _ _ left)
                    ])
        ])
      ]
