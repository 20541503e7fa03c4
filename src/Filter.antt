-- ===== src/Filter.antt =====
-- filter/
pub mod Ring
pub mod Window
pub mod Median
pub mod Average
pub mod Dispatch
