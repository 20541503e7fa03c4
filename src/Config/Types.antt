-- ===== src/Config/Types.antt =====
-- config.h and logger.h: the configuration records. An enumeration is the integer that its field
-- holds, a `char` array the codes of its string.
use external_servo.Prelude.{ℕ, List}
use external_servo.Prelude.Int.{ℤ}

-- `struct servo_config`
pub record ServoConfig {ℓ} (D : Type ℓ) : Type ℓ where
  pub type : ℤ
  pub sw_ts : ℕ
  pub max_frequency : D
  pub intial_adj : ℤ
  pub step_threshold : D
  pub first_step_threshold : D
  pub first_update : ℤ
  pub offset_threshold : ℤ
  pub num_offset_values : ℤ
  pub curr_offset_values : ℤ
  pub kp : D
  pub ki : D
  pub kp_scale : D
  pub kp_exponent : D
  pub kp_norm_max : D
  pub ki_scale : D
  pub ki_exponent : D
  pub ki_norm_max : D
  pub ntpshm_segment : ℤ
  pub log_min_delay_req_interval : ℤ
  pub log_sync_interval : ℤ

-- `struct device_config`, less the socket address
pub record DeviceConfig : Type 0 where
  pub fd : ℤ
  pub tod_clk_id : ℤ
  pub freq_clk_id : ℤ
  pub tod_device : List ℕ
  pub freq_device : List ℕ
  pub uds_address : List ℕ
  pub poll_time : ℕ
  pub filter : ℤ
  pub filter_len : ℤ
  pub mode : ℤ

-- `struct logger_config`
pub record LoggerConfig : Type 0 where
  pub log_level : ℕ
  pub use_syslog : ℕ
  pub msg_tag : List ℕ
  pub use_stdout : ℕ
