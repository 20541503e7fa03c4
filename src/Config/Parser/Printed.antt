-- ===== src/Config/Parser/Printed.antt =====
-- The settings of the three blocks, and the configuration file that says them.
pub mod Values
pub mod Known
pub mod Read
use external_servo.Prelude.{ℕ, zero, suc, ◌+◌, ◌^◌, ◌<◌, List, [], ◌∷◌}
use external_servo.Prelude.Int.{ℤ, pos, negsuc, pos_part, neg_part}
use external_servo.Double.{Double, nought}
use external_servo.Config.Types.{LoggerConfig, ServoConfig, DeviceConfig}
use external_servo.Config.Tables.{text, KeyVal, servo_types, tsproc_types, delay_filters}
use external_servo.Config.Fields.Atoi.{digits_of}
use external_servo.Config.Fields.Strings.{TagFits, NamesFit}
use external_servo.Config.State.{zero_servo_config}
use external_servo.Config.Parser.Document.{Document, logging, servo, device}

-- an integer of at most ten digits, with its sign
abbrev pub printed : ℤ → List ℕ
printed (pos n) = digits_of 10 n
printed (negsuc n) = 45 ∷ digits_of 10 (suc n)

-- the name of the `n`-th entry
abbrev pub nth_name : List KeyVal → ℕ → List ℕ
nth_name [] n = []
nth_name (e ∷ list) zero = e.key
nth_name (e ∷ list) (suc n) = nth_name list n

-- what the block of a device can say: `time` is its polling time, `len` the length of the filter
pub record DeviceSettings : Type 0 where
  pub tod : List ℕ
  pub freq : List ℕ
  pub address : List ℕ
  pub time : ℕ
  pub mode : ℕ
  pub filter : ℕ
  pub len : ℤ

-- what the block of the servo can say to effect
pub record ServoSettings {ℓ} (D : Type ℓ) : Type ℓ where
  pub kind : ℕ
  pub software : ℕ
  pub frequency : ℤ
  pub step : D
  pub first_step : D
  pub offset : ℤ
  pub offsets : ℤ
  pub kp : D
  pub ki : D
  pub kp_scale : D
  pub kp_exponent : D
  pub kp_norm_max : D
  pub ki_scale : D
  pub ki_exponent : D
  pub ki_norm_max : D
  pub segment : ℤ

abbrev pub logger_entries : LoggerConfig → List (List ℕ × List ℕ)
logger_entries c =
    (text "logging_level", digits_of 10 c.log_level)
    ∷ (text "use_syslog", digits_of 10 c.use_syslog)
    ∷ (text "msg_tag", c.msg_tag)
    ∷ (text "use_stdout", digits_of 10 c.use_stdout)
    ∷ []

abbrev pub device_entries : DeviceSettings → List (List ℕ × List ℕ)
device_entries s =
    (text "tod_device", s.tod)
    ∷ (text "freq_device", s.freq)
    ∷ (text "monitor_uds_address", s.address)
    ∷ (text "poll_time", digits_of 10 s.time)
    ∷ (text "tsproc_mode", nth_name tsproc_types s.mode)
    ∷ (text "delay_filter", nth_name delay_filters s.filter)
    ∷ (text "delay_filter_length", printed s.len)
    ∷ []

abbrev pub device_of : DeviceSettings → DeviceConfig
device_of s = record {
  fd = pos 0;
  tod_clk_id = pos 0;
  freq_clk_id = pos 0;
  tod_device = s.tod;
  freq_device = s.freq;
  uds_address = s.address;
  poll_time = s.time;
  filter = pos s.filter;
  filter_len = s.len;
  mode = pos s.mode;
}

-- an `int`, less its least value
abbrev pub IsShort : ℤ → Type 0
IsShort x = pos_part x + neg_part x < 2 ^ 31

abbrev pub LoggerPrints : LoggerConfig → Type 0
LoggerPrints c = TagFits c × (c.log_level < 2 ^ 8) × (c.use_syslog < 2 ^ 8) × (c.use_stdout < 2 ^ 8)

abbrev pub DevicePrints : DeviceSettings → Type 0
DevicePrints s =
    NamesFit (device_of s) × (s.time < 2 ^ 16) × (s.mode < 4) × (s.filter < 2) × IsShort s.len

module _ {ℓ} {D : Type ℓ} where
  abbrev pub ServoPrints : ServoSettings D → Type 0
  ServoPrints s =
      (s.kind < 3)
      × (s.software < 2 ^ 8)
      × IsShort s.frequency
      × IsShort s.offset
      × IsShort s.offsets
      × IsShort s.segment

  -- `print` writes a double
  abbrev pub servo_entries : (D → List ℕ) → ServoSettings D → List (List ℕ × List ℕ)
  servo_entries print s =
      (text "type", nth_name servo_types s.kind)
      ∷ (text "software_timestamp", digits_of 10 s.software)
      ∷ (text "max_frequency", printed s.frequency)
      ∷ (text "step_threshold", print s.step)
      ∷ (text "first_step_threshold", print s.first_step)
      ∷ (text "servo_offset_threshold", printed s.offset)
      ∷ (text "servo_num_offset_values", printed s.offsets)
      ∷ (text "pi_proportional_const", print s.kp)
      ∷ (text "pi_integral_const", print s.ki)
      ∷ (text "pi_proportional_scale", print s.kp_scale)
      ∷ (text "pi_proportional_exponent", print s.kp_exponent)
      ∷ (text "pi_proportional_norm_max", print s.kp_norm_max)
      ∷ (text "pi_integral_scale", print s.ki_scale)
      ∷ (text "pi_integral_exponent", print s.ki_exponent)
      ∷ (text "pi_integral_norm_max", print s.ki_norm_max)
      ∷ (text "ntp_shm_segment", printed s.segment)
      ∷ []

  -- the file with the three blocks
  abbrev pub file_of : (D → List ℕ) → LoggerConfig → ServoSettings D → DeviceSettings → Document
  file_of print c s v =
      (logging, logger_entries c) ∷ (servo, servo_entries print s) ∷ (device, device_entries v) ∷ []

module _ {ℓ} {D : Type ℓ} ⦃d : Double D⦄ where
  abbrev pub servo_of : ServoSettings D → ServoConfig D
  servo_of s = record zero_servo_config {
    type = pos s.kind;
    sw_ts = s.software;
    max_frequency = d.of_int s.frequency;
    step_threshold = s.step;
    first_step_threshold = s.first_step;
    offset_threshold = s.offset;
    num_offset_values = s.offsets;
    kp = s.kp;
    ki = s.ki;
    kp_scale = s.kp_scale;
    kp_exponent = s.kp_exponent;
    kp_norm_max = s.kp_norm_max;
    ki_scale = s.ki_scale;
    ki_exponent = s.ki_exponent;
    ki_norm_max = s.ki_norm_max;
    ntpshm_segment = s.segment;
  }
