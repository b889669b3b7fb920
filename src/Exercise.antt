-- ===== src/Exercise.antt =====
-- The programs of exercise-xenomai.
pub mod Semaphore
pub mod Bottler
pub mod Multitask
pub mod Shared
pub mod Periods
pub mod Prompt
pub mod Names
pub mod Hello
