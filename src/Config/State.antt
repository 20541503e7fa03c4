-- ===== src/Config/State.antt =====
-- config.c: the state of the parser of the configuration file, and what it configures. A string that is
-- freed is null here.
use external_servo.Prelude.{ℕ, Bool, false, Option, none, List, [], ◌∷◌}
use external_servo.Prelude.Int.{ℤ, pos}
use external_servo.Double.{Double, nought}
use external_servo.Config.Types.{LoggerConfig, ServoConfig, DeviceConfig}
use external_servo.Logger.{Logger}

-- the types of `yaml_token_t` that the parser tells apart; a scalar with its bytes before the first NUL
pub data Token : Type 0 where
  stream_end : Token
  key_token : Token
  value_token : Token
  block_mapping_start : Token
  block_end : Token
  scalar : List ℕ → Token
  other : Token

-- `enum servo_parser_state`
pub data ParserState : Type 0 where
  start_parse : ParserState
  start_block : ParserState
  stop_parse : ParserState
  start_servo_block : ParserState
  start_device_block : ParserState
  start_logger_block : ParserState

abbrev pub max_block_level : ℕ
max_block_level = 2

-- `union config`: the member that was written last
pub data BlockConfig {ℓ} (D : Type ℓ) : Type ℓ where
  cleared : BlockConfig D
  logger_block : LoggerConfig → BlockConfig D
  servo_block : ServoConfig D → BlockConfig D
  device_block : DeviceConfig → BlockConfig D

-- what the parser configures: the statics of logger.c and the globals of main.c
pub record Globals {ℓ} (D : Type ℓ) : Type ℓ where
  pub log : Logger
  pub servo_config : ServoConfig D
  pub device_config : DeviceConfig

-- `struct servo_parser_data`, with the statics of the functions (`block_key` is that of
-- `parser_block_management`, `in_key` and `in_value` are those of `update_block_config`)
pub record ParserData {ℓ} (D : Type ℓ) : Type ℓ where
  pub state : ParserState
  pub block_id : ℕ
  pub block_name : List (Option (List ℕ))
  pub key : Option (List ℕ)
  pub val : Option (List ℕ)
  pub config : BlockConfig D
  pub block_key : Bool
  pub in_key : Bool
  pub in_value : Bool
  pub globals : Globals D

-- what a run of the parser comes to
pub data Outcome {ℓ} (D : Type ℓ) : Type ℓ where
  running : Outcome D
  faulted : Outcome D
  returned : ℤ → Globals D → Outcome D

abbrev pub zero_logger_config : LoggerConfig
zero_logger_config = record { log_level = 0; use_syslog = 0; msg_tag = []; use_stdout = 0 }

abbrev pub zero_device_config : DeviceConfig
zero_device_config = record {
  fd = pos 0;
  tod_clk_id = pos 0;
  freq_clk_id = pos 0;
  tod_device = [];
  freq_device = [];
  uds_address = [];
  poll_time = 0;
  filter = pos 0;
  filter_len = pos 0;
  mode = pos 0;
}

module _ {ℓ} {D : Type ℓ} where
  abbrev pub first_data : Globals D → ParserData D
  first_data g = record {
    state = start_parse;
    block_id = 0;
    block_name = none ∷ none ∷ [];
    key = none;
    val = none;
    config = cleared;
    block_key = false;
    in_key = false;
    in_value = false;
    globals = g;
  }

module _ {ℓ} {D : Type ℓ} ⦃d : Double D⦄ where
  abbrev pub zero_servo_config : ServoConfig D
  zero_servo_config = record {
    type = pos 0;
    sw_ts = 0;
    max_frequency = nought;
    intial_adj = pos 0;
    step_threshold = nought;
    first_step_threshold = nought;
    first_update = pos 0;
    offset_threshold = pos 0;
    num_offset_values = pos 0;
    curr_offset_values = pos 0;
    kp = nought;
    ki = nought;
    kp_scale = nought;
    kp_exponent = nought;
    kp_norm_max = nought;
    ki_scale = nought;
    ki_exponent = nought;
    ki_norm_max = nought;
    ntpshm_segment = pos 0;
    log_min_delay_req_interval = pos 0;
    log_sync_interval = pos 0;
  }
