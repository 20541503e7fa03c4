-- ===== src/Config/Fields.antt =====
-- config.c: the value of a key, its check against the field's bounds, and its assignment. `strtod` is
-- an argument; a double that the type of its field cannot hold, which C leaves open, is cut to the
-- field's width. The messages to the log change no configuration.
pub mod Range
pub mod Strings
pub mod Atoi
use external_servo.Prelude.{
  ℕ, zero, suc, ◌+◌, ◌-◌, ◌*◌, ◌%◌, ◌^◌, Bool, true, false, ◌&&◌, ◌||◌, Option, none, some, List,
  [], ◌∷◌, if◌then◌else◌, ◌==◌, leb, take,
}
use external_servo.Prelude.Int.{ℤ, pos, negsuc, neg_ℕ, clamp_ℤ, eqb_ℤ}
use external_servo.Prelude.Word.{to_u64, wrap32}
use external_servo.Double.{Double, nought}
use external_servo.Config.Types.{LoggerConfig, ServoConfig, DeviceConfig}
use external_servo.Config.Tables.{
  same_text, KeyVal, VarType, integer, string, enumeration, double, FieldInfo, LoggerField,
  logging_level, use_syslog, message_tag, use_stdout, ServoField, servo_type, sw_ts, max_frequency,
  step_threshold, first_step_threshold, offset_threshold, num_offset_values, current_offset_values,
  pi_proportional, pi_integral, pi_proportional_scale, pi_proportional_exponent,
  pi_proportional_norm_max, pi_integral_scale, pi_integral_exponent, pi_integral_normal_max,
  ntpshm_segment, logmin_delay_req_interval, log_sync_interval, DeviceField, tod_device,
  freq_device, monitor_uds_address, poll_time, tsproc_mode, delay_filter, filter_len, logger_tbl,
  servo_config_tbl, device_tbl,
}

abbrev pub max_msg_tag_len : ℕ
max_msg_tag_len = 16

abbrev pub max_config_str_len : ℕ
max_config_str_len = 32

abbrev is_digit : ℕ → Bool
is_digit c = leb 48 c && leb c 57

abbrev is_space : ℕ → Bool
is_space c = c == 32 || (leb 9 c && leb c 13)

-- the number that the leading digits make, after `n`
unfoldable pub decimal : ℕ → List ℕ → ℕ
decimal n [] = n
decimal n (c ∷ s) = let rest = decimal (n * 10 + (c - 48)) s in if is_digit c then rest else n

unfoldable pub signed : List ℕ → ℤ
unfolding decimal
signed [] = pos 0
signed (c ∷ s) =
    if c == 45
    then neg_ℕ (decimal 0 s)
    else if c == 43
    then pos (decimal 0 s)
    else pos (decimal 0 (c ∷ s))

unfoldable pub without_spaces : List ℕ → List ℕ
without_spaces [] = []
without_spaces (c ∷ s) = let rest = without_spaces s in if is_space c then rest else c ∷ s

-- `atoi`, which is `strtol` cut to an `int`
unfoldable pub atoi : List ℕ → ℤ
unfolding without_spaces signed wrap32
atoi s = wrap32 (clamp_ℤ (negsuc (2 ^ 63 - 1)) (pos (2 ^ 63 - 1)) (signed (without_spaces s)))

-- -1 for a key that the table does not have
unfoldable pub get_key_val : List ℕ → List KeyVal → ℤ
get_key_val key [] = negsuc 0
get_key_val key (e ∷ tbl) =
    let rest = get_key_val key tbl in if same_text key e.key then e.val else rest

module _ {ℓ} {D : Type ℓ} where
  unfoldable pub get_field_info :
      {I : Type 0} → List ℕ → List (FieldInfo D I) → Option (FieldInfo D I)
  get_field_info key [] = none
  get_field_info key (f ∷ tbl) =
      let rest = get_field_info key tbl in if same_text key f.field_name then some f else rest

module _ {ℓ} {D : Type ℓ} ⦃d : Double D⦄ where
  abbrev pub to_uint8 : D → ℕ
  to_uint8 v = to_u64 (d.to_int64 v) % 2 ^ 8

  abbrev pub to_uint16 : D → ℕ
  to_uint16 v = to_u64 (d.to_int64 v) % 2 ^ 16

  abbrev pub to_int : D → ℤ
  to_int v = wrap32 (d.to_int64 v)

  abbrev pub to_enum : D → ℤ
  to_enum v = pos (to_u64 (d.to_int64 v) % 2 ^ 32)

  -- `*value < field->min && *value > field->max`, the test as it stands
  abbrev pub outside : D → D → D → Bool
  outside lo hi v = d.lt v lo && d.lt hi v

  abbrev checked : D → D → D → ℤ × D
  checked lo hi v = (if outside lo hi v then negsuc 0 else pos 0, v)

  -- the value of a name; no name has the number it is compared with
  abbrev named_value : List KeyVal → List ℕ → ℤ × D
  named_value [] val = (pos 0, nought)
  named_value (e ∷ list) val =
      let v = d.of_int (get_key_val val (e ∷ list)) in
      (if d.same v (d.of_int (pos (2 ^ 32 - 1))) then negsuc 0 else pos 0, v)

  abbrev pub value_of :
      (strtod : List ℕ → D) {I : Type 0} → FieldInfo D I → VarType → List ℕ → ℤ × D
  value_of strtod field integer val = checked field.min field.max (d.of_int (atoi val))
  value_of strtod field double val = checked field.min field.max (strtod val)
  value_of strtod field string val = (pos 0, nought)
  value_of strtod field enumeration val = named_value field.enum_list val

  -- the returned code, and `*value`
  unfoldable pub value_range_check :
      (strtod : List ℕ → D) {I : Type 0} → FieldInfo D I → List ℕ → ℤ × D
  unfolding atoi get_key_val
  value_range_check strtod field val = value_of strtod field field.var_type val

  -- the `switch` on the field, with the value and the text
  abbrev pub assign_logger : LoggerField → D → List ℕ → LoggerConfig → LoggerConfig
  assign_logger logging_level value text c = record c { log_level = to_uint8 value }
  assign_logger use_syslog value text c = record c { use_syslog = to_uint8 value }
  assign_logger message_tag value text c = record c { msg_tag = take (max_msg_tag_len - 1) text }
  assign_logger use_stdout value text c = record c { use_stdout = to_uint8 value }

  abbrev pub assign_servo : ServoField → D → List ℕ → ServoConfig D → ServoConfig D
  assign_servo servo_type value text c = record c { type = to_enum value }
  assign_servo sw_ts value text c = record c { sw_ts = to_uint8 value }
  assign_servo max_frequency value text c = record c { max_frequency = value }
  assign_servo step_threshold value text c = record c { step_threshold = value }
  assign_servo first_step_threshold value text c = record c { first_step_threshold = value }
  assign_servo offset_threshold value text c = record c { offset_threshold = d.to_int64 value }
  assign_servo num_offset_values value text c = record c { num_offset_values = to_int value }
  assign_servo current_offset_values value text c = record c { curr_offset_values = to_int value }
  assign_servo pi_proportional value text c = record c { kp = value }
  assign_servo pi_integral value text c = record c { ki = value }
  assign_servo pi_proportional_scale value text c = record c { kp_scale = value }
  assign_servo pi_proportional_exponent value text c = record c { kp_exponent = value }
  assign_servo pi_proportional_norm_max value text c = record c { kp_norm_max = value }
  assign_servo pi_integral_scale value text c = record c { ki_scale = value }
  assign_servo pi_integral_exponent value text c = record c { ki_exponent = value }
  assign_servo pi_integral_normal_max value text c = record c { ki_norm_max = value }
  assign_servo ntpshm_segment value text c = record c { ntpshm_segment = to_int value }
  assign_servo logmin_delay_req_interval value text c = c
  assign_servo log_sync_interval value text c = c

  abbrev pub assign_device : DeviceField → D → List ℕ → DeviceConfig → DeviceConfig
  assign_device tod_device value text c = record c {
    tod_device = take (max_config_str_len - 1) text;
  }
  assign_device freq_device value text c = record c {
    freq_device = take (max_config_str_len - 1) text;
  }
  assign_device monitor_uds_address value text c = record c {
    uds_address = take (max_config_str_len - 1) text;
  }
  assign_device poll_time value text c = record c { poll_time = to_uint16 value }
  assign_device tsproc_mode value text c = record c { mode = to_enum value }
  assign_device delay_filter value text c = record c { filter = to_enum value }
  assign_device filter_len value text c = record c { filter_len = to_int value }

  -- What the three updates share: the field of the key, the check of the value, the assignment.
  abbrev pub update {κ} :
      (strtod : List ℕ → D) {I : Type 0} {C : Type κ}
      → List (FieldInfo D I)
      → (I → D → List ℕ → C → C)
      → C
      → List ℕ
      → List ℕ
      → ℤ × C
  update strtod tbl assign config key val = elim (get_field_info key tbl) [
    | none ↦ (negsuc 0, config)
    | some field ↦
        let (rv, value) = value_range_check strtod field val in
        if eqb_ℤ rv (negsuc 0)
        then (negsuc 0, config)
        else (pos 0, assign field.idx value val config)
  ]

  unfoldable pub update_logger_config :
      (strtod : List ℕ → D) → LoggerConfig → List ℕ → List ℕ → ℤ × LoggerConfig
  unfolding get_field_info value_range_check to_u64
  update_logger_config strtod config key val = update strtod logger_tbl assign_logger config key val

  unfoldable pub update_servo_config :
      (strtod : List ℕ → D) → ServoConfig D → List ℕ → List ℕ → ℤ × ServoConfig D
  unfolding get_field_info value_range_check to_u64 wrap32
  update_servo_config strtod config key val =
      update strtod servo_config_tbl assign_servo config key val

  unfoldable pub update_device_config :
      (strtod : List ℕ → D) → DeviceConfig → List ℕ → List ℕ → ℤ × DeviceConfig
  unfolding get_field_info value_range_check to_u64 wrap32
  update_device_config strtod config key val = update strtod device_tbl assign_device config key val
