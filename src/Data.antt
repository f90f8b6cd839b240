-- ===== src/Data.antt =====
-- Collections and their files: py/hybridsearch/data.
pub mod Words
pub mod Tables
pub mod Files
pub mod Effects
pub mod Subset
pub mod Prepare
