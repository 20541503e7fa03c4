-- ===== src/Servo.antt =====
-- servo/: the clock servos and their common part.
pub mod Base
pub mod Range
pub mod Pi
pub mod Points
pub mod Linreg
pub mod Ntpshm
pub mod Dispatch
