-- ===== src/Config/Tables.antt =====
-- config.h and config.c: the keys of the configuration file and the fields that they stand for. A
-- string is the list of its bytes, without the final NUL.
use Prim.Native.Char.{code}
use Prim.Native.String.{String}
use external_servo.Prelude.{
  ℕ, ◌*◌, ◌-◌, ◌^◌, Bool, true, false, ◌&&◌, Option, none, some, List, [], ◌∷◌, ◌==◌,
}
use external_servo.Prelude.Int.{ℤ, pos}
use external_servo.Double.{Double, nought}

-- the bytes of a literal, which is ASCII
abbrev pub text : String → List ℕ
text String.[] = []
text (String.◌∷◌ c s) = code c ∷ text s

-- `!strcmp(s, t)`
abbrev pub same_text : List ℕ → List ℕ → Bool
same_text [] [] = true
same_text [] (b ∷ t) = false
same_text (a ∷ s) [] = false
same_text (a ∷ s) (b ∷ t) = (a == b) && same_text s t

-- `struct key_val`
pub record KeyVal : Type 0 where
  pub key : List ℕ
  pub val : ℤ

-- the `VAR_TYPE_` constants
pub data VarType : Type 0 where
  integer : VarType
  string : VarType
  enumeration : VarType
  double : VarType

-- `struct field_info`; without a list of names `enum_list` is empty.
pub record FieldInfo {ℓ} (D : Type ℓ) (I : Type 0) : Type ℓ where
  pub field_name : List ℕ
  pub idx : I
  pub var_type : VarType
  pub min : D
  pub max : D
  pub def : D
  pub default_str : Option (List ℕ)
  pub enum_list : List KeyVal

-- the `idx` of the fields of each block, which the code numbers
pub data LoggerField : Type 0 where
  logging_level : LoggerField
  use_syslog : LoggerField
  message_tag : LoggerField
  use_stdout : LoggerField

pub data ServoField : Type 0 where
  servo_type : ServoField
  sw_ts : ServoField
  max_frequency : ServoField
  step_threshold : ServoField
  first_step_threshold : ServoField
  offset_threshold : ServoField
  num_offset_values : ServoField
  current_offset_values : ServoField
  pi_proportional : ServoField
  pi_integral : ServoField
  pi_proportional_scale : ServoField
  pi_proportional_exponent : ServoField
  pi_proportional_norm_max : ServoField
  pi_integral_scale : ServoField
  pi_integral_exponent : ServoField
  pi_integral_normal_max : ServoField
  ntpshm_segment : ServoField
  logmin_delay_req_interval : ServoField
  log_sync_interval : ServoField

pub data DeviceField : Type 0 where
  tod_device : DeviceField
  freq_device : DeviceField
  monitor_uds_address : DeviceField
  poll_time : DeviceField
  tsproc_mode : DeviceField
  delay_filter : DeviceField
  filter_len : DeviceField

abbrev pub servo_types : List KeyVal
servo_types =
    record { key = text "pi"; val = pos 0 }
    ∷ record { key = text "linreg"; val = pos 1 }
    ∷ record { key = text "ntpshm"; val = pos 2 }
    ∷ []

abbrev pub tsproc_types : List KeyVal
tsproc_types =
    record { key = text "filter"; val = pos 0 }
    ∷ record { key = text "raw"; val = pos 1 }
    ∷ record { key = text "filter_weight"; val = pos 2 }
    ∷ record { key = text "raw_weight"; val = pos 3 }
    ∷ []

abbrev pub delay_filters : List KeyVal
delay_filters =
    record { key = text "moving_average"; val = pos 0 }
    ∷ record { key = text "moving_median"; val = pos 1 }
    ∷ []

module _ {ℓ} {D : Type ℓ} ⦃d : Double D⦄ where
  -- a numeric field, with its bounds and its default
  abbrev numeric : {I : Type 0} → List ℕ → I → VarType → D → D → D → FieldInfo D I
  numeric name i type lo hi default = record {
    field_name = name;
    idx = i;
    var_type = type;
    min = lo;
    max = hi;
    def = default;
    default_str = none;
    enum_list = [];
  }

  abbrev named : {I : Type 0} → List ℕ → I → List KeyVal → FieldInfo D I
  named name i list = record {
    field_name = name;
    idx = i;
    var_type = enumeration;
    min = nought;
    max = nought;
    def = nought;
    default_str = none;
    enum_list = list;
  }

  abbrev textual : {I : Type 0} → List ℕ → I → Option (List ℕ) → FieldInfo D I
  textual name i default = record {
    field_name = name;
    idx = i;
    var_type = string;
    min = nought;
    max = nought;
    def = nought;
    default_str = default;
    enum_list = [];
  }

  abbrev whole_number : ℕ → D
  whole_number n = d.literal n 0

  abbrev int_max : D
  int_max = whole_number (2 ^ 31 - 1)

  abbrev dbl_max : D
  dbl_max = d.literal (17976931348623157 * 10 ^ 292) 0

  abbrev dbl_min : D
  dbl_min = d.literal 22250738585072014 324

  abbrev pub logger_tbl : List (FieldInfo D LoggerField)
  logger_tbl =
      numeric (text "logging_level") logging_level integer nought (whole_number 7) (whole_number 6)
      ∷ numeric (text "use_syslog") use_syslog integer nought (whole_number 1) nought
      ∷ textual (text "msg_tag") message_tag (some (text "servo"))
      ∷ numeric (text "use_stdout") use_stdout integer nought (whole_number 1) (whole_number 1)
      ∷ []

  abbrev pub servo_config_tbl : List (FieldInfo D ServoField)
  servo_config_tbl =
      named (text "type") servo_type servo_types
      ∷ numeric (text "software_timestamp") sw_ts integer nought (whole_number 1) (whole_number 1)
      ∷ numeric (text "max_frequency") max_frequency integer nought int_max (whole_number 900000000)
      ∷ numeric (text "step_threshold") step_threshold double nought dbl_max nought
      ∷ numeric (text "first_step_threshold") first_step_threshold double nought dbl_max
          (d.literal 2 5)
      ∷ numeric (text "servo_offset_threshold") offset_threshold integer nought int_max nought
      ∷ numeric (text "servo_num_offset_values") num_offset_values integer nought int_max nought
      ∷ numeric (text "pi_proportional_const") pi_proportional double nought dbl_max nought
      ∷ numeric (text "pi_integral_const") pi_integral double nought dbl_max nought
      ∷ numeric (text "pi_proportional_scale") pi_proportional_scale double nought dbl_max nought
      ∷ numeric (text "pi_proportional_exponent") pi_proportional_exponent double dbl_min dbl_max
          (d.neg (d.literal 3 1))
      ∷ numeric (text "pi_proportional_norm_max") pi_proportional_norm_max double dbl_min dbl_max
          (d.literal 7 1)
      ∷ numeric (text "pi_integral_scale") pi_integral_scale double nought dbl_max nought
      ∷ numeric (text "pi_integral_exponent") pi_integral_exponent double dbl_min dbl_max
          (d.literal 4 1)
      ∷ numeric (text "pi_integral_norm_max") pi_integral_normal_max double dbl_min (whole_number 2)
          (d.literal 3 1)
      ∷ numeric (text "ntp_shm_segment") ntpshm_segment integer (d.neg (whole_number (2 ^ 31)))
          int_max nought
      ∷ numeric (text "logMinDelayReqInterval") logmin_delay_req_interval integer
          (d.neg (whole_number 128)) (whole_number 127) nought
      ∷ numeric (text "logSyncInterval") log_sync_interval integer (d.neg (whole_number 128))
          (whole_number 127) nought
      ∷ []

  abbrev pub device_tbl : List (FieldInfo D DeviceField)
  device_tbl =
      textual (text "tod_device") tod_device none
      ∷ textual (text "freq_device") freq_device none
      ∷ textual (text "monitor_uds_address") monitor_uds_address none
      ∷ numeric (text "poll_time") poll_time integer nought (whole_number 255) (whole_number 1)
      ∷ named (text "tsproc_mode") tsproc_mode tsproc_types
      ∷ named (text "delay_filter") delay_filter delay_filters
      ∷ numeric (text "delay_filter_length") filter_len integer (whole_number 1) int_max
          (whole_number 10)
      ∷ []
