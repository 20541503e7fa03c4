-- ===== src/Config/Fields/Strings.antt =====
-- config.c: the strings that an update of a field writes fit their arrays.
use external_servo.Prelude.{
  ℕ, zero, suc, ◌<◌, ◌≤◌, List, [], ◌∷◌, length, take, if-both, Option-cases, inl, inr, arith,
}
use external_servo.Prelude.Int.{ℤ, negsuc, eqb_ℤ}
use external_servo.Double.{Double}
use external_servo.Config.Types.{LoggerConfig, DeviceConfig}
use external_servo.Config.Tables.{
  FieldInfo, LoggerField, logging_level, use_syslog, message_tag, use_stdout, DeviceField,
  tod_device, freq_device, monitor_uds_address, poll_time, tsproc_mode, delay_filter, filter_len,
  logger_tbl, device_tbl,
}
use external_servo.Config.Fields.{
  max_msg_tag_len, max_config_str_len, value_range_check, get_field_info, update, assign_logger,
  assign_device, update_logger_config, update_device_config,
}

take-bounded : (n : ℕ) (s : List ℕ) → length (take n s) ≤ n
take-bounded zero s = omega arith
take-bounded (suc n) [] = omega arith
take-bounded (suc n) (c ∷ s) = omega (arith, take-bounded n s)

-- The array of the tag has room for its final NUL.
abbrev pub TagFits : LoggerConfig → Type 0
TagFits c = length c.msg_tag < max_msg_tag_len

-- those of a device
abbrev pub NamesFit : DeviceConfig → Type 0
NamesFit c =
    (length c.tod_device < max_config_str_len)
    × (length c.freq_device < max_config_str_len)
    × (length c.uds_address < max_config_str_len)

module _ {ℓ} {D : Type ℓ} ⦃d : Double D⦄ where
  assign_logger-TagFits :
      (field : LoggerField) (v : D) (s : List ℕ) (c : LoggerConfig)
      → TagFits c
      → TagFits (assign_logger field v s c)
  assign_logger-TagFits logging_level v s c h = h
  assign_logger-TagFits use_syslog v s c h = h
  assign_logger-TagFits use_stdout v s c h = h
  assign_logger-TagFits message_tag v s c h = omega (arith, take-bounded 15 s)

  assign_device-NamesFit :
      (field : DeviceField) (v : D) (s : List ℕ) (c : DeviceConfig)
      → NamesFit c
      → NamesFit (assign_device field v s c)
  assign_device-NamesFit tod_device v s c h = omega (arith, take-bounded 31 s)
  assign_device-NamesFit freq_device v s c h = omega (arith, take-bounded 31 s)
  assign_device-NamesFit monitor_uds_address v s c h = omega (arith, take-bounded 31 s)
  assign_device-NamesFit poll_time v s c h = h
  assign_device-NamesFit tsproc_mode v s c h = h
  assign_device-NamesFit delay_filter v s c h = h
  assign_device-NamesFit filter_len v s c h = h

  -- what every assignment keeps, an update keeps
  update-keeps {κ μ} :
      {C : Type κ} (P : C → Type μ) (strtod : List ℕ → D) {I : Type 0} (tbl : List (FieldInfo D I))
      (assign : I → D → List ℕ → C → C) (config : C) (key val : List ℕ)
      → ((field : I) (v : D) (s : List ℕ) (c : C) → P c → P (assign field v s c))
      → P config
      → P (update strtod tbl assign config key val).1
  update-keeps {C} P strtod tbl assign config key val keeps h =
      elim (Option-cases (get_field_info key tbl)) [
        | inl none_found ↦ rw (update, none_found) h
        | inr (field, found) ↦
            let (rv, value) = value_range_check strtod field val in
            rw (update, found)
              (if-both (λ (r : ℤ × C). P r.1) (eqb_ℤ rv (negsuc 0)) h
                (keeps field.idx value val config h))
      ]

  pub update_logger_config-TagFits :
      (strtod : List ℕ → D) (c : LoggerConfig) (key val : List ℕ)
      → TagFits c
      → TagFits (update_logger_config strtod c key val).1
  unfolding update_logger_config
  update_logger_config-TagFits strtod c key val h =
      update-keeps TagFits strtod logger_tbl assign_logger c key val assign_logger-TagFits h

  pub update_device_config-NamesFit :
      (strtod : List ℕ → D) (c : DeviceConfig) (key val : List ℕ)
      → NamesFit c
      → NamesFit (update_device_config strtod c key val).1
  unfolding update_device_config
  update_device_config-NamesFit strtod c key val h =
      update-keeps NamesFit strtod device_tbl assign_device c key val assign_device-NamesFit h
