-- ===== src/Lib.antt =====
-- A model of external_servo, a daemon that receives time stamps of PTP exchanges from a unix domain
-- socket and steers the clocks of the machine. The configuration file is parsed, the devices are
-- opened and the parts are created; then the loop of `main` waits for messages. A message goes
-- through the time stamp processor, which computes a delay (through a filter) and an offset; the
-- servo turns the offset into a frequency, a phase or a step of the clock.
--
-- Files and code:
--   Prelude              shared names, lists with bounds, integers, machine words, operations that fault
--   Double               the type `double`, as a parameter with the laws that some theorems name
--   Tmv                  tmv.h: 64-bit nanoseconds with wrap-around
--   Filter               filter/filter.c, filter/median/mmedian.c, filter/average/mave.c
--   Tsproc               tsproc.c: delays, offsets and weights
--   Config.Types         config.h, logger.h: the configuration records
--   Config.Tables        config.c: the keys of the configuration file and their fields
--   Config.Fields        config.c: the check of a value and its assignment
--   Config.State         config.c: the state of the parser, and what it configures
--   Config.Parser        config.c: the parser, from the tokens of the YAML scanner on
--   Logger               logger.c: where a message to the log goes
--   Msg                  msg.c, msg.h: the messages of the monitor, from their bytes
--   Clockadj             clockadj.c: the requests to the kernel's clocks
--   Uds                  uds.c, uds.h: the sockets, as programs over system calls
--   Main                 main.c, utils.h: the devices, the start, and the loop over the events
--   Main.Polls           main.c: the answers of `poll`, and what is then read
--   Main.Entry           main.c: the command line, and `main` as a whole
--   Servo.Base           servo/servo.h: the common part of a servo
--   Servo.Pi             servo/pi/pi.c
--   Servo.Points         servo/linreg/linreg.c: the points, and the regression
--   Servo.Linreg         servo/linreg/linreg.c: the rest
--   Servo.Ntpshm         servo/ntpshm/ntpshm.c
--   Servo.Dispatch       servo/servo.c: the servo in front of its three kinds
--   Tests                runs at concrete inputs
--
-- A function of the code is a definition of the same name, from the state before and the arguments
-- to the result and the state after; what goes through a pointer is part of the result. A function
-- that can read or write out of an array, or divide by zero, returns an `Option`, and `none` is the
-- fault. `calloc` is a parameter that says which sizes it serves, a system call a parameter that
-- says what it answers. The tokens of the YAML scanner and `strtod` are parameters too. A 64-bit
-- integer is wrapped where the code's conversions wrap it. Arithmetic on `double` is a parameter
-- (`Double`), since no theorem computes a rounding; the theorems name the laws that they use
-- (`IsOrdered`, `IsSigned`, `IsExact`), which whole numbers and IEEE 754 both meet. Two theorems, of the
-- line that the regression finds and of the frequency that follows it, are about exact arithmetic and
-- name the laws of a field (`IsField`). A NaN is a double that is not the same as itself; where a theorem
-- speaks of a frequency in a range or NaN, the range is one that no NaN is in.
--
-- Loops are structural, on a list or on a count; the loops that look for and remove an index in the
-- moving median run on fuel one above the number of samples, which is enough, since they end at the
-- number of samples: the refinement theorems of the filters say that a call returns.
--
-- The loop of the parser runs on fuel, one for each token: a document needs one more than it has
-- tokens. The loop of `main` is a round for each answer of `poll`.
--
-- A system call of the sockets is answered by a kernel, which is a function of the calls before it; the
-- theorems name what the manual says of the answers (`IsPosix`). The stores to the shared segment are a
-- list, and that a reader sees them in its order is a hypothesis (`InOrder`). What `getopt` returns is a list.
--
-- Not modelled: the text of the messages to the log, the freeing of memory, the handling of signals,
-- which is cut out of the build, and missing.h, which is a copied header with replacements for what
-- old systems lack.
pub mod Prelude
pub mod Tmv
pub mod Filter
pub mod Double
pub mod Tsproc
pub mod Config
pub mod Logger
pub mod Servo
pub mod Clockadj
pub mod Msg
pub mod Uds
pub mod Main
pub mod Tests
