-- ===== src/Logger.antt =====
-- logger.c: the configuration of the log, and where a message goes. The text of a message is left out.
use external_servo.Prelude.{
  ℕ, Bool, true, false, Option, none, some, List, [], ◌∷◌, ◌++◌, if◌then◌else◌, ◌==◌, ltb, leb, ◌≡◌,
  ◌⊎◌, inl, inr, refl, Holds, yields, Bool-cases, Holds-if,
}
use external_servo.Config.Types.{LoggerConfig}
use external_servo.Config.Tables.{text}

-- the statics of logger.c: the configuration, and whether `log_fp` is open
pub record Logger : Type 0 where
  pub logger_config : LoggerConfig
  pub log_fp : Bool

pub data Output : Type 0 where
  stdout : Output
  stderr : Output
  log_file : Output

abbrev pub log_notice : ℕ
log_notice = 5

-- before `sys_log_init`
abbrev pub first_logger : Logger
first_logger = record {
  logger_config = record { log_level = 7; use_syslog = 1; msg_tag = text "servo"; use_stdout = 1 };
  log_fp = false;
}

-- The outputs in order; a write to a log that is not open is a fault.
unfoldable pub logger : ℕ → Logger → Option (List Output)
logger level l =
    let console : List Output =
      if l.logger_config.use_stdout == 0
      then []
      else if leb log_notice level
      then stdout ∷ []
      else stderr ∷ [] in
    let file : Option (List Output) =
      if l.log_fp then some (console ++ (log_file ∷ [])) else none in
    if ltb l.logger_config.log_level level
    then some []
    else if l.logger_config.use_syslog == 0
    then some console
    else file

unfoldable pub logger_configure : LoggerConfig → Logger → Logger
logger_configure config l = record l {
  logger_config = if l.log_fp then config else record config { use_syslog = 0 };
}

-- `opened` is whether `fopen` succeeds.
unfoldable pub sys_log_init : Bool → Logger → Logger
sys_log_init opened l = record {
  logger_config = if opened then l.logger_config else record l.logger_config { use_syslog = 0 };
  log_fp = opened;
}

-- The log file is used only while it is open.
abbrev pub IsSafe : Logger → Type 0
IsSafe l = (l.logger_config.use_syslog ≡ 0) ⊎ (l.log_fp ≡ true)

sys_log_init-IsSafe : (opened : Bool) (l : Logger) → IsSafe (sys_log_init opened l)
unfolding sys_log_init
sys_log_init-IsSafe true l = inr refl
sys_log_init-IsSafe false l = inl refl

logger_configure-IsSafe : (c : LoggerConfig) (l : Logger) → IsSafe l → IsSafe (logger_configure c l)
unfolding logger_configure
logger_configure-IsSafe c l h = elim (Bool-cases l.log_fp) [
  | inl opened ↦ inr opened
  | inr shut ↦ rw shut (inl refl)
]

logger-IsSafe : (level : ℕ) (l : Logger) → IsSafe l → Holds (λ outputs. Unit {0}) (logger level l)
unfolding logger
logger-IsSafe level l (inl off) =
    rw off (Holds-if (ltb l.logger_config.log_level level) (yields tt) (yields tt))
logger-IsSafe level l (inr opened) = rw opened (
    Holds-if (ltb l.logger_config.log_level level) (yields tt)
      (Holds-if (l.logger_config.use_syslog == 0) (yields tt) (yields tt)))

-- the configurations in order
abbrev pub logger_configured : List LoggerConfig → Logger → Logger
logger_configured [] l = l
logger_configured (c ∷ configs) l = logger_configured configs (logger_configure c l)

logger_configured-IsSafe :
    (configs : List LoggerConfig) (l : Logger) → IsSafe l → IsSafe (logger_configured configs l)
logger_configured-IsSafe [] l h = h
logger_configured-IsSafe (c ∷ configs) l h =
    logger_configured-IsSafe configs (logger_configure c l) (logger_configure-IsSafe c l h)

pub logger-safe :
    (level : ℕ) (opened : Bool) (configs : List LoggerConfig) (l : Logger)
    → Holds (λ outputs. Unit {0}) (logger level (logger_configured configs (sys_log_init opened l)))
logger-safe level opened configs l =
    logger-IsSafe level (logger_configured configs (sys_log_init opened l))
      (logger_configured-IsSafe configs (sys_log_init opened l) (sys_log_init-IsSafe opened l))
