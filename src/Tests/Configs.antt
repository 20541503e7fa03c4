-- ===== src/Tests/Configs.antt =====
-- The configuration at concrete inputs, with whole numbers for the doubles.
use external_servo.Prelude.{
  ℕ, zero, suc, ◌<◌, ◌^◌, ◌≡◌, ◌≢◌, refl, true, Option, none, some, List, [], ◌∷◌, All, get_elem?,
  arith,
}
use external_servo.Prelude.Int.{ℤ, pos, negsuc, neg_ℕ, neg_ℤ}
use external_servo.Double.{whole, whole-IsExact}
use external_servo.Logger.{first_logger}
use external_servo.Config.Tables.{text, logger_tbl, servo_config_tbl, device_tbl}
use external_servo.Config.Fields.{
  atoi, signed, without_spaces, assign_logger, assign_servo, assign_device, update_logger_config,
  update_servo_config, update_device_config,
}
use external_servo.Config.Fields.Range.{IsFine, unchecked, update_config-unchecked}
use external_servo.Config.Fields.Atoi.{digits_of, signed-digits_of}
use external_servo.Logger.{logger_configure}
use external_servo.Config.Types.{LoggerConfig}
use external_servo.Config.Parser.Printed.{
  ServoSettings, DeviceSettings, file_of, servo_of, device_of,
}
use external_servo.Config.Parser.Printed.Read.{servo_config_parse-file_of}
use external_servo.Config.Parser.{servo_config_parse}
use external_servo.Config.State.{
  Token, stream_end, block_mapping_start, other, start_logger_block, logger_block, Globals,
  ParserData, running, returned, zero_logger_config, zero_servo_config, zero_device_config,
  first_data,
}
use external_servo.Config.Parser.Document.{
  Document, logging, servo, device, unknown, tokens, described,
}
use external_servo.Config.Parser.Refine.{servo_config_parse-described}
use external_servo.Config.Parser.Strings.{OutcomeFits, servo_config_parse-OutcomeFits}
use external_servo.Config.Parser.Loop.{servo_config_parse-running}

abbrev pub globals : Globals ℤ
globals = record {
  log = first_logger;
  servo_config = zero_servo_config;
  device_config = zero_device_config;
}

abbrev document : Document
document =
    (
      logging,
      (text "logging_level", text "7") ∷ (text "msg_tag", text "a tag of more than 15 bytes") ∷ [],
    )
    ∷ (unknown (text "monitor"), (text "poll_time", text "7") ∷ [])
    ∷ (servo, (text "type", text "linreg") ∷ (text "step_threshold", text "2") ∷ [])
    ∷ (device, (text "freq_device", text "/dev/ptp0") ∷ (text "poll_time", text "300") ∷ [])
    ∷ []

servo_config_parse-described_example :
    servo_config_parse atoi true true (get_elem? (tokens document)) 100 globals
    ≡ described atoi document globals
servo_config_parse-described_example =
    servo_config_parse-described atoi document 100 globals
      (tt, ((refl, refl, refl), (tt, (tt, tt)))) (omega arith)

-- in the block of the logger
abbrev in_block : ParserData ℤ
in_block = record (first_data globals) {
  state = start_logger_block;
  block_id = 1;
  block_name = some (text "logging") ∷ none ∷ [];
  key = some (text "logging_level");
  config = logger_block zero_logger_config;
  in_value = true;
}

-- an empty file
abbrev empty : ℕ → Option Token
empty zero = some other
empty (suc zero) = some stream_end
empty (suc (suc n)) = some other

empty-unstarted : (n : ℕ) → (t : Token) × (empty n ≡ some t) × (t ≢ block_mapping_start)
empty-unstarted zero = (other, refl, ground arith)
empty-unstarted (suc zero) = (stream_end, refl, ground arith)
empty-unstarted (suc (suc n)) = (other, refl, ground arith)

servo_config_parse-running_example : servo_config_parse atoi true true empty 1000 globals ≡ running
servo_config_parse-running_example =
    servo_config_parse-running atoi empty 1000 globals empty-unstarted

logger-IsFine : All IsFine (logger_tbl {D = ℤ})
logger-IsFine = ground arith

servo-IsFine : All IsFine (servo_config_tbl {D = ℤ})
unfolding neg_ℤ
servo-IsFine = ground arith

device-IsFine : All IsFine (device_tbl {D = ℤ})
device-IsFine = ground arith

update_config-unchecked_example :
    (update_logger_config atoi zero_logger_config (text "logging_level") (text "9")
      ≡ unchecked atoi logger_tbl assign_logger zero_logger_config
          (text "logging_level")
          (text "9"))
    × (update_servo_config atoi zero_servo_config (text "logging_level") (text "9")
        ≡ unchecked atoi servo_config_tbl assign_servo zero_servo_config
            (text "logging_level")
            (text "9"))
    × (update_device_config atoi zero_device_config (text "logging_level") (text "9")
        ≡ unchecked atoi device_tbl assign_device zero_device_config
            (text "logging_level")
            (text "9"))
update_config-unchecked_example =
    update_config-unchecked whole-IsExact atoi (text "logging_level") (text "9") zero_logger_config
      zero_servo_config zero_device_config logger-IsFine servo-IsFine device-IsFine

servo_config_parse-OutcomeFits_example :
    OutcomeFits (servo_config_parse atoi true true (get_elem? (tokens document)) 100 globals)
servo_config_parse-OutcomeFits_example =
    servo_config_parse-OutcomeFits atoi true true (get_elem? (tokens document)) 100 globals
      (omega arith)

-- a whole number in decimal, which `strtod` reads
abbrev whole_text : ℤ → List ℕ
whole_text (pos n) = digits_of n n
whole_text (negsuc n) = 45 ∷ digits_of (suc n) (suc n)

abbrev read_whole : List ℕ → ℤ
read_whole s = signed (without_spaces s)

below_power : (n : ℕ) → n < 10 ^ n
below_power zero = omega arith
below_power (suc n) = grind (arith, below_power n)

read_whole-whole_text : (x : ℤ) → read_whole (whole_text x) ≡ x
read_whole-whole_text (pos n) = (signed-digits_of n n (below_power n)).0
read_whole-whole_text (negsuc n) = (signed-digits_of (suc n) (suc n) (below_power (suc n))).1

abbrev logger_settings : LoggerConfig
logger_settings = record { log_level = 7; use_syslog = 1; msg_tag = text "servo"; use_stdout = 0 }

abbrev servo_settings : ServoSettings ℤ
servo_settings = record {
  kind = 1;
  software = 0;
  frequency = pos 500000;
  step = pos 1000;
  first_step = pos 20000;
  offset = pos 50;
  offsets = pos 10;
  kp = pos 1;
  ki = pos 0;
  kp_scale = pos 0;
  kp_exponent = neg_ℕ 3;
  kp_norm_max = pos 1;
  ki_scale = pos 2;
  ki_exponent = pos 4;
  ki_norm_max = pos 1;
  segment = pos 2;
}

abbrev device_settings : DeviceSettings
device_settings = record {
  tod = text "/dev/ptp0";
  freq = text "/dev/ptp1";
  address = text "/var/run/monitor";
  time = 300;
  mode = 2;
  filter = 1;
  len = pos 16;
}

servo_config_parse-file_of_example :
    servo_config_parse read_whole true true
      (get_elem? (tokens (file_of whole_text logger_settings servo_settings device_settings)))
      200
      globals
    ≡ returned (pos 0) (record {
      log = logger_configure logger_settings first_logger;
      servo_config = servo_of servo_settings;
      device_config = device_of device_settings;
    })
servo_config_parse-file_of_example =
    servo_config_parse-file_of whole-IsExact read_whole logger-IsFine servo-IsFine device-IsFine
      whole_text read_whole-whole_text logger_settings servo_settings device_settings 200 globals
      (omega arith, omega arith, omega arith, omega arith)
      (omega arith, omega arith, omega arith, omega arith, omega arith, omega arith)
      ((omega arith, omega arith, omega arith), omega arith, omega arith, omega arith, omega arith)
      (omega arith)
