-- ===== src/Tests/OfLaunch.antt =====
-- The main programs on the skin that logs.
use edfomai.Base.{◌≡◌, ◌⊎◌, true, false, some, [], ◌++◌, ℤ, pos, negsuc}
use edfomai.App.{App, is_negative}
use edfomai.Rover.Main.{Image, SemNames, main}
use edfomai.Rover.Creations.{creations, opening, main-creations}
use edfomai.Launch.{Watch}
use edfomai.Tests.SimLaunch.{log_skin, log_native, log_watch, log_naming, silent_app}

abbrev pub rover_image : Image
rover_image = record {
  task = 100;
  sensing_done = 200;
  processing_done = 300;
  ex_lock = 400;
  sense = 500;
  process = 600;
  act = 700;
  comunicate = 800;
  catch_signal = 900;
  row = λ k. 1000;
}

abbrev pub no_names : SemNames
no_names = record { sensor_sem = []; processor_sem = []; shared_resource = [] }

main-creations_example :
    (r : ℤ) × (b : App log_skin) × (main log_native rover_image no_names silent_app ≡ some (r, b))
    × (((is_negative (opening log_native silent_app).0 ≡ true)
          × (r ≡ negsuc 0)
          × (Watch.sent log_watch b.os ≡ Watch.sent log_watch silent_app.os))
        ⊎ ((is_negative (opening log_native silent_app).0 ≡ false)
            × (r ≡ pos 0)
            × (Watch.sent log_watch b.os ≡ creations ++ Watch.sent log_watch silent_app.os)))
main-creations_example = main-creations log_watch log_naming rover_image no_names silent_app
