-- ===== src/Config/Parser/Printed/Read.antt =====
-- The file of settings is read back.
use external_servo.Prelude.{
  ℕ, ◌<◌, ◌≡◌, refl, ◌∙◌, ap, true, some, List, length, take-length, All, get_elem?, arith,
}
use external_servo.Prelude.Int.{ℤ, pos}
use external_servo.Double.{Double, IsExact}
use external_servo.Logger.{logger_configure}
use external_servo.Config.Types.{LoggerConfig, ServoConfig, DeviceConfig}
use external_servo.Config.Tables.{logger_tbl, servo_config_tbl, device_tbl}
use external_servo.Config.Fields.{
  get_field_info, value_range_check, assign_logger, assign_servo, assign_device,
  update_logger_config, update_servo_config, update_device_config,
}
use external_servo.Config.Fields.Range.{IsFine, unchecked, update-unchecked}
use external_servo.Config.State.{
  logger_block, servo_block, device_block, Globals, returned, zero_logger_config, zero_servo_config,
  zero_device_config,
}
use external_servo.Config.Parser.{servo_config_parse}
use external_servo.Config.Parser.Document.{tokens, fill, fill_all, described}
use external_servo.Config.Parser.Refine.{servo_config_parse-described}
use external_servo.Config.Parser.Printed.{
  DeviceSettings, ServoSettings, logger_entries, device_entries, servo_entries, device_of, servo_of,
  LoggerPrints, DevicePrints, ServoPrints, file_of,
}
use external_servo.Config.Parser.Printed.Values.{
  to_uint8-digits_of, to_uint16-digits_of, of_int-printed, to_int64-printed, to_int-printed,
  to_enum-mode, to_enum-filter, to_enum-kind,
}
use external_servo.Config.Parser.Printed.Known.{fill_all-assigned}

module _ {ℓ} {D : Type ℓ} ⦃d : Double D⦄ (laws : IsExact D) (strtod : List ℕ → D) where
  -- what each block makes of an entry, without the check
  logger_fills :
      All IsFine (logger_tbl {D = D})
      → (c : LoggerConfig) (k v : List ℕ)
      → fill strtod (logger_block c) k v
        ≡ (let (rv, c') = unchecked strtod logger_tbl assign_logger c k v in (rv, logger_block c'))
  unfolding update_logger_config
  logger_fills fine c k v =
      ap (λ (r : ℤ × LoggerConfig). (r.0, logger_block r.1))
        (update-unchecked laws strtod logger_tbl assign_logger c k v fine)

  servo_fills :
      All IsFine (servo_config_tbl {D = D})
      → (c : ServoConfig D) (k v : List ℕ)
      → fill strtod (servo_block c) k v ≡ (
          let (rv, c') = unchecked strtod servo_config_tbl assign_servo c k v in
          (rv, servo_block c'))
  unfolding update_servo_config
  servo_fills fine c k v =
      ap (λ (r : ℤ × ServoConfig D). (r.0, servo_block r.1))
        (update-unchecked laws strtod servo_config_tbl assign_servo c k v fine)

  device_fills :
      All IsFine (device_tbl {D = D})
      → (c : DeviceConfig) (k v : List ℕ)
      → fill strtod (device_block c) k v
        ≡ (let (rv, c') = unchecked strtod device_tbl assign_device c k v in (rv, device_block c'))
  unfolding update_device_config
  device_fills fine c k v =
      ap (λ (r : ℤ × DeviceConfig). (r.0, device_block r.1))
        (update-unchecked laws strtod device_tbl assign_device c k v fine)

  device_read :
      All IsFine (device_tbl {D = D})
      → (s : DeviceSettings) → DevicePrints s
      → fill_all strtod (device_block zero_device_config) (device_entries s)
        ≡ some (device_block (device_of s))
  unfolding get_field_info value_range_check
  device_read fine s ((t, f, a), time, mode, filter, len) =
      fill_all-assigned strtod device_tbl assign_device device_block (device_fills fine)
        zero_device_config (device_entries s) refl
      ∙ (rw (
        take-length s.tod 31 (omega arith),
        take-length s.freq 31 (omega arith),
        take-length s.address 31 (omega arith),
        to_uint16-digits_of laws s.time time,
        to_enum-mode laws s.mode mode,
        to_enum-filter laws s.filter filter,
        to_int-printed laws s.len len,
      ))

  logger_read :
      All IsFine (logger_tbl {D = D})
      → (c : LoggerConfig) → LoggerPrints c
      → fill_all strtod (logger_block zero_logger_config) (logger_entries c) ≡ some (logger_block c)
  unfolding get_field_info value_range_check
  logger_read fine c (tag, level, syslog, stdout) =
      fill_all-assigned strtod logger_tbl assign_logger logger_block (logger_fills fine)
        zero_logger_config (logger_entries c) refl
      ∙ (rw (
        to_uint8-digits_of laws c.log_level level,
        to_uint8-digits_of laws c.use_syslog syslog,
        take-length c.msg_tag 15 (omega arith),
        to_uint8-digits_of laws c.use_stdout stdout,
      ))

  servo_read :
      All IsFine (servo_config_tbl {D = D})
      → (print : D → List ℕ) → ((x : D) → strtod (print x) ≡ x)
      → (s : ServoSettings D) → ServoPrints s
      → fill_all strtod (servo_block zero_servo_config) (servo_entries print s)
        ≡ some (servo_block (servo_of s))
  unfolding get_field_info value_range_check
  servo_read fine print reads s (kind, software, frequency, offset, offsets, segment) =
      fill_all-assigned strtod servo_config_tbl assign_servo servo_block (servo_fills fine)
        zero_servo_config (servo_entries print s) refl
      ∙ (rw (
        reads s.step,
        reads s.first_step,
        reads s.kp,
        reads s.ki,
        reads s.kp_scale,
        reads s.kp_exponent,
        reads s.kp_norm_max,
        reads s.ki_scale,
        reads s.ki_exponent,
        reads s.ki_norm_max,
        to_enum-kind laws s.kind kind,
        to_uint8-digits_of laws s.software software,
        of_int-printed laws s.frequency frequency,
        to_int64-printed laws s.offset offset,
        to_int-printed laws s.offsets offsets,
        to_int-printed laws s.segment segment,
      ))

  -- Settings of the three blocks, printed as a configuration file, are read back: given more fuel than
  -- the file has tokens, the parser returns 0 with the logger configured by these settings and with exactly
  -- these configurations of the servo and the device, where `strtod` reads back the doubles as they
  -- are printed, integers of 32 bits are exact doubles, the bounds of every field are in order, the
  -- strings fit their arrays and the numbers their types, and every mode, filter and servo has a name.
  pub servo_config_parse-file_of :
      All IsFine (logger_tbl {D = D})
      → All IsFine (servo_config_tbl {D = D})
      → All IsFine (device_tbl {D = D})
      → (print : D → List ℕ) → ((x : D) → strtod (print x) ≡ x)
      → (c : LoggerConfig) (s : ServoSettings D) (v : DeviceSettings) (fuel : ℕ) (g : Globals D)
      → LoggerPrints c
      → ServoPrints s
      → DevicePrints v
      → length (tokens (file_of print c s v)) < fuel
      → servo_config_parse strtod true true (get_elem? (tokens (file_of print c s v))) fuel g
        ≡ returned (pos 0) (record {
          log = logger_configure c g.log;
          servo_config = servo_of s;
          device_config = device_of v;
        })
  servo_config_parse-file_of l e f print reads c s v fuel g lp sp dp h =
      servo_config_parse-described strtod (file_of print c s v) fuel g (tt, (tt, (tt, tt))) h
      ∙ (rw (described, logger_read l c lp, servo_read e print reads s sp, device_read f v dp))
