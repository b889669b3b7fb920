-- ===== src/Tests/OfApp.antt =====
-- The operations of edfomai-app.c on the simulated skin.
use edfomai.Base.{◌≡◌, ◌≢◌, null, some, arith}
use edfomai.App.{Skin, edf_task_start, edf_task_wait_period}
use edfomai.App.Task.{heap_block, started, task_start_lem, waited, task_wait_period_lem}
use edfomai.Tests.Sim.{total}
use edfomai.Tests.SimApp.{sim_skin, open_app}

has_room : heap_block open_app ≢ null
unfolding total
has_room e = omega arith

task_start_lem_example :
    edf_task_start 1 500 70 80 open_app
    ≡ some (started 1 500 70 80 open_app (Skin.rt_task_inquire sim_skin 1 open_app.os))
task_start_lem_example = task_start_lem 1 500 70 80 open_app has_room

task_wait_period_lem_example :
    edf_task_wait_period 90 open_app
    ≡ some (waited 90 open_app (Skin.rt_task_inquire sim_skin 1 open_app.os))
task_wait_period_lem_example = task_wait_period_lem 90 open_app has_room λ e. omega arith
