-- ===== src/Tests/OfRover.antt =====
-- A run of the tasks of exercise-edfomai/mars_rover.c: the sensor takes the lock.
use edfomai.Base.{◌+◌, ◌≡◌, refl}
use edfomai.Rover.{Rover, started_up, sense_busy, sense_locked, sensing, sense, rover_step}
use edfomai.Tasks.{Reached, at_start, after}
use edfomai.Rover.Rounds.{AllWait, Runs, Reached-AllWait}
use edfomai.Rover.Exclusion.{Local, Reached-holders}
use edfomai.Rover.Holders.{holders}

abbrev spun : Rover
spun = record started_up { sensor = sense_busy }

abbrev in_section : Rover
in_section = record started_up { ex_lock = 0; sensor = sense_locked }

in_section-Reached : Reached rover_step started_up in_section
unfolding rover_step sense
in_section-Reached =
    after spun in_section sensing (after started_up spun sensing at_start refl) refl

Reached-holders_example :
    (holders in_section + in_section.ex_lock ≡ 1)
    × Local in_section.processor in_section.shared_resource
Reached-holders_example = Reached-holders in_section in_section-Reached

in_section-Runs : Runs in_section
in_section-Runs = record {
  unstopped = refl;
  senses = λ z. cc;
  processes = λ z. cc;
  acts = λ z. cc;
  comunicates = λ z. cc;
}

Reached-AllWait_example : (t : Rover) × Reached rover_step in_section t × AllWait t
Reached-AllWait_example = Reached-AllWait in_section in_section-Reached in_section-Runs
