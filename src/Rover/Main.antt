-- ===== src/Rover/Main.antt =====
-- The main program of exercise-edfomai/mars_rover.c on edfomai-app.c. The prints are left out.
use edfomai.Base.{
  ℕ, ◌*◌, ◌%◌, ◌^◌, List, [], ◌∷◌, get_or, M, pure, ◌>>=◌, ◌>>◌, if◌then◌else◌, ℤ, pos, negsuc,
  Name, Ptr, null,
}
use edfomai.Platform.{RtTask}
use edfomai.Driver.{failed}
use edfomai.App.{Skin, App, edf_init, edf_dispose}
use edfomai.Launch.{Native, call, spawn}

-- The addresses of the globals and the functions, which the linker fixes; `row k` is params[k].
pub record Image : Type 0 where
  pub task : RtTask
  pub sensing_done : Ptr
  pub processing_done : Ptr
  pub ex_lock : Ptr
  pub sense : Ptr
  pub process : Ptr
  pub act : Ptr
  pub comunicate : Ptr
  pub catch_signal : Ptr
  pub row : ℕ → Ptr

abbrev pub time_unit : ℕ
time_unit = 1000000000

-- The period, the busy time and the deadline of each task, in time units.
abbrev pub params : List (List ℕ)
params = (11 ∷ 2 ∷ 3 ∷ []) ∷ (11 ∷ 3 ∷ 7 ∷ []) ∷ (11 ∷ 2 ∷ 10 ∷ []) ∷ []

-- `params[i][j]*t`, in 64 bits.
abbrev pub scaled : ℕ → ℕ → ℕ
scaled i j = (get_or (get_or params i []) j 0 * time_unit) % 2 ^ 64

abbrev pub sensor_name : Name
sensor_name = b's' ∷ b'e' ∷ b'n' ∷ b's' ∷ b'o' ∷ b'r' ∷ []

abbrev pub processor_name : Name
processor_name = b'p' ∷ b'r' ∷ b'o' ∷ b'c' ∷ b'e' ∷ b's' ∷ b's' ∷ b'o' ∷ b'r' ∷ []

abbrev pub actuator_name : Name
actuator_name = b'a' ∷ b'c' ∷ b't' ∷ b'u' ∷ b'a' ∷ b't' ∷ b'o' ∷ b'r' ∷ []

abbrev pub comunicator_name : Name
comunicator_name = b'c' ∷ b'o' ∷ b'm' ∷ b'u' ∷ b'n' ∷ b'i' ∷ b'c' ∷ b'a' ∷ b't' ∷ b'o' ∷ b'r' ∷ []

-- The names of the semaphores, "sensorSem" and so on, are handed to the skin.
pub record SemNames : Type 0 where
  pub sensor_sem : Name
  pub processor_sem : Name
  pub shared_resource : Name

-- SIGINT and SIGTERM.
abbrev pub sigint : ℕ
sigint = 2

abbrev pub sigterm : ℕ
sigterm = 15

module _ {S : Skin} (N : Native S) (I : Image) (names : SemNames) where
  open N use {rt_print_auto_init, mlockall, rt_sem_create, signal, pause}
  open I use {
    task, sensing_done, processing_done, ex_lock, sense, process, act, comunicate, catch_signal,
    row,
  }

  unfoldable pub startup : M (App S) (Unit {0})
  startup = do
    call (rt_sem_create sensing_done names.sensor_sem 0)
    call (rt_sem_create processing_done names.processor_sem 0)
    call (rt_sem_create ex_lock names.shared_resource 1)
    _ ← spawn N task sensor_name 90 (scaled 0 2) sense (row 0)
    _ ← spawn N task processor_name 89 (scaled 1 2) process (row 1)
    _ ← spawn N task actuator_name 88 (scaled 2 2) act (row 2)
    _ ← spawn N task comunicator_name 87 ((65 * time_unit) % 2 ^ 64) comunicate null
    pure tt

  unfoldable pub init_edfomai : M (App S) ℤ
  init_edfomai = do call rt_print_auto_init; call mlockall; edf_init

  unfoldable pub wait_for_ctrl_c : M (App S) (Unit {0})
  wait_for_ctrl_c = do
    call (signal sigterm catch_signal)
    call (signal sigint catch_signal)
    call pause

  unfoldable pub cleanup : M (App S) (Unit {0})
  cleanup = do _ ← edf_dispose; pure tt

  unfoldable pub main : M (App S) ℤ
  main = do
    ret ← init_edfomai
    if failed ret then pure (negsuc 0) else do startup; wait_for_ctrl_c; cleanup; pure (pos 0)
