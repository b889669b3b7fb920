-- ===== src/Tests/OfTrial.antt =====
-- sporadic_test.c and periodic_test.c on the skin with named tasks, and the descriptors of the library.
use edfomai.Base.{◌≡◌, refl, true, some, List, [], ◌∷◌, ◌>>=◌, ◌>>◌, pure, for_each, ℤ, pos, arith}
use edfomai.App.{Skin, App, edf_init}
use edfomai.App.Leak.{
  Descriptors, Use, initialises, disposes, starts, waits, use_library, init-leaks,
}
use edfomai.Launch.{Watch}
use edfomai.Launch.Wait.{rounds}
use edfomai.Trial.Periodic
use edfomai.Trial.Work.{demo-sent}
use edfomai.Trial.Leaks.{main-leaks}
use edfomai.Tests.Sim.{total}
use edfomai.Tests.SimLaunch.{skin_of, native_of, watch_of, own_name, running_app, total_room}
use edfomai.Tests.SimTrial.{
  trial_skin, trial_native, trial_spawning, trial_descriptors, trial_leaves, trial_image, trial_app,
}

abbrev holding : App trial_skin
holding = record {
  os = record { log = []; names = λ t. []; opened = 1 ∷ [] };
  device = pos 1;
  live = [];
}

-- Two tasks of a process, each of which disposes.
abbrev two_users : List Use
two_users = initialises ∷ waits 90 ∷ disposes ∷ starts 11 500 70 80 ∷ disposes ∷ []

init-leaks_example :
    (r : ℤ) × (b : App trial_skin) × ((edf_init >>= λ r. for_each two_users use_library >> pure r)
        holding
      ≡ some (r, b))
    × (Descriptors.is_open trial_descriptors 1 b.os ≡ true)
init-leaks_example =
    init-leaks trial_descriptors 1 (λ live s. total_room live) (λ s e. omega arith) holding
      two_users refl

main-leaks_example :
    (b : App trial_skin) × (Periodic.main trial_native trial_spawning trial_image
        (for_each (initialises ∷ waits 90 ∷ disposes ∷ []) use_library)
        trial_app
      ≡ some (pos 0, b))
    × (Descriptors.is_open trial_descriptors 1 b.os ≡ true)
unfolding total
main-leaks_example =
    main-leaks trial_descriptors trial_leaves trial_image (λ live s. total_room live)
      (λ s e. omega arith) 1 (waits 90 ∷ disposes ∷ []) trial_app
      (record { log = []; names = λ t. []; opened = 1 ∷ [] }) refl

demo-sent_example :
    (s' : Skin.State (skin_of (λ s. own_name))) × (b : App (skin_of (λ s. own_name)))
    × (Periodic.demo (native_of (λ s. own_name)) 90 2000000 running_app ≡ some (tt, b))
    × (b.os ≡ (Skin.rt_dev_close (skin_of (λ s. own_name)) (pos 3) s').1)
    × (b.live ≡ running_app.live)
    × (Watch.sent (watch_of (λ s. own_name)) b.os
        ≡ rounds own_name 10 (Watch.sent (watch_of (λ s. own_name)) running_app.os))
demo-sent_example =
    demo-sent (watch_of (λ s. own_name)) own_name 90 2000000 3 running_app.os running_app
      (λ s e. omega arith, λ s. (record { name = own_name; cprio = 20 }, refl, refl)) refl
