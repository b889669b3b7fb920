-- ===== src/Tests/OfPrompt.antt =====
-- Runs of the programs of exercise-xenomai that print the names of their tasks.
use edfomai.Exercise.Prompt
use edfomai.Exercise.Names
use edfomai.Exercise.Names.{names_step}
use edfomai.Exercise.Prompt.{
  Actor, spawns, demos, Prompt, begun, demo_ended, main_returned, failed, says, returned,
  prompt_step,
}
use edfomai.Exercise.Prompt.Order.{lines}
use edfomai.Exercise.Prompt.Ends.{Moves, run-Ends}
use edfomai.Exercise.Hello.{demo_b, hello, inquiring_error, task_name}
use edfomai.Platform.{refused}
use edfomai.Base.{
  ℕ, ◌==◌, ◌≤◌, ◌≡◌, ◌⊎◌, refl, true, Option, none, some, List, [], ◌∷◌, if◌then◌else◌, length,
}
use edfomai.Tasks.{run}

-- The inquiry of the third task fails.
abbrev third : ℕ → Option ℕ
third k = if k == 2 then some 3 else none

-- A round whose task prints its name, and one whose task fails.
abbrev round : ℕ → List Actor → List Actor
round k rest = spawns ∷ spawns ∷ spawns ∷ demos k ∷ demos k ∷ demos k ∷ spawns ∷ rest

abbrev prompt_schedule : List Actor
prompt_schedule =
    round 0
      (round 1 (spawns ∷ spawns ∷ spawns ∷ demos 2 ∷ spawns ∷ round 3 (round 4 (spawns ∷ []))))

abbrev prompt_end : Prompt
prompt_end = record {
  i = 5;
  str = 4;
  demo_task = 4;
  names = 0 ∷ 1 ∷ 2 ∷ 3 ∷ 4 ∷ [];
  tasks = demo_ended ∷ demo_ended ∷ demo_ended ∷ demo_ended ∷ demo_ended ∷ [];
  main_pc = main_returned;
  out = says 4 4 ∷ says 3 3 ∷ failed 3 ∷ says 1 1 ∷ says 0 0 ∷ [];
}

prompt_run : run (prompt_step third) prompt_schedule (begun 77) ≡ some prompt_end
unfolding run prompt_step Prompt.running Prompt.main Prompt.demo
prompt_run = refl

run-Ends_example :
    (length prompt_schedule ≤ 41)
    × (((returned prompt_end.main_pc ≡ true) × (prompt_end.out ≡ lines third 5))
        ⊎ Moves third prompt_end)
run-Ends_example = run-Ends third 77 prompt_schedule prompt_end prompt_run

-- Without the priorities the second task can print its name while main() is in the third round.
abbrev names_schedule : List Actor
names_schedule =
    spawns
    ∷ spawns
    ∷ spawns
    ∷ spawns
    ∷ spawns
    ∷ spawns
    ∷ spawns
    ∷ spawns
    ∷ spawns
    ∷ demos 1
    ∷ demos 1
    ∷ []

names_run :
    run (names_step third) names_schedule (Names.begun 77)
    ≡ some (record {
      i = 2;
      str = 2;
      demo_task = 1;
      names = 0 ∷ 1 ∷ 0 ∷ 0 ∷ 0 ∷ [];
      tasks =
          Names.demo_started ∷ Names.demo_ended ∷ Names.demo_off ∷ Names.demo_off ∷ Names.demo_off
          ∷ [];
      main_pc = Prompt.main_named;
      out = record { task = 1; text = Names.task_name 1 } ∷ [];
    })
unfolding run names_step Names.running Names.main Names.demo
names_run = refl

-- A kernel that knows no pointer, and a block that holds the name "x".
hello_b_run :
    demo_b (λ p. refused 2) 0 (record { name = 120 ∷ []; cprio = 0 })
    ≡ hello ∷ inquiring_error 3 ∷ task_name (120 ∷ []) ∷ []
unfolding demo_b
hello_b_run = refl
