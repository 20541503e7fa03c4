-- ===== src/Config.antt =====
-- config.c and config.h
pub mod Types
pub mod Tables
pub mod Fields
pub mod State
pub mod Parser
