-- ===== src/Tests/Clocks.antt =====
-- The clocks at concrete inputs.
use external_servo.Prelude.Word.{wrap32}
use external_servo.Prelude.{ℕ, ◌-◌, ◌^◌, ◌≡◌, ◌⊎◌, refl, some, List, [], ◌∷◌, map, arith}
use external_servo.Prelude.Int.{ℤ, pos, negsuc, ◌+ℤ◌, ◌*ℤ◌, ◌≤ℤ◌, ◌<ℤ◌}
use external_servo.Double.{whole}
use external_servo.Tmv.{Timespec, ns_per_sec}
use external_servo.Clockadj.{Clockadj, clock_realtime, clockadj_step}
use external_servo.Clockadj.Compare.{Reading, Comparison, clockadj_compare}
use external_servo.Clockadj.Step.{clockadj_step_lem}
use external_servo.Clockadj.Compare.{Chosen, clockadj_compare-Chosen}
use external_servo.Config.Types.{DeviceConfig}
use external_servo.Config.Tables.{text}
use external_servo.Config.State.{zero_device_config}
use external_servo.Main.{device_init}
use external_servo.Main.Clocks.{IsOpened, device_init-IsOpened}

clockadj_step_lem_example :
    let tx = (clockadj_step (pos 0) (negsuc 1_499_999_999)).tx in
    (tx.tv_sec *ℤ pos ns_per_sec +ℤ tx.tv_usec ≡ negsuc 1_499_999_999)
    × pos 0 ≤ℤ tx.tv_usec
    × tx.tv_usec <ℤ pos ns_per_sec
clockadj_step_lem_example =
    clockadj_step_lem (pos 0) (negsuc 1_499_999_999) (omega arith, omega arith) (omega arith)

abbrev time : ℕ → Timespec
time ns = record { tv_sec = pos 5; tv_nsec = pos ns }

abbrev reading : ℕ → ℕ → ℕ → Reading
reading a b c = record { tdst1 = time a; tsrc = time b; tdst2 = time c }

abbrev readings : List Reading
readings = reading 100 140 200 ∷ reading 300 310 330 ∷ reading 400 420 500 ∷ []

abbrev before : Comparison
before = record { offset = pos 0; ts = 0; delay = pos 0 }

clockadj_compare-Chosen_example :
    let (code, result) = clockadj_compare (pos 5) (map some readings) before in
    code ≡ pos 0 × Chosen (record before { delay = pos (2 ^ 63 - 1) }) readings result
clockadj_compare-Chosen_example = clockadj_compare-Chosen (pos 5) readings before

abbrev statics : Clockadj
statics = record { realtime_leap_bit = pos 0; realtime_hz = pos 0; realtime_nominal_tick = pos 0 }

-- one device for the frequency and the time of day
abbrev device : DeviceConfig
device = record zero_device_config { freq_device = text "/dev/ptp0"; tod_device = text "/dev/ptp0" }

abbrev opens : List ℕ → ℤ
opens name = pos 4

abbrev opened : DeviceConfig
opened = record device { freq_clk_id = negsuc 36; tod_clk_id = negsuc 36 }

device_init-IsOpened_example :
    ((device.freq_device ≡ [])
      × (device.tod_device ≡ [])
      × (opened.freq_clk_id ≡ clock_realtime)
      × (opened.tod_clk_id ≡ clock_realtime))
    ⊎ (IsOpened (opens device.freq_device) opened.freq_clk_id
        × IsOpened (opens device.tod_device) opened.tod_clk_id)
unfolding device_init wrap32 ◌+ℤ◌ ◌*ℤ◌
device_init-IsOpened_example = device_init-IsOpened opens device opened refl
