-- ===== src/Tests.antt =====
-- A simulated platform, runs of the code on it, and the theorems at concrete inputs.
pub mod Sim
pub mod Worlds
pub mod OfPrio
pub mod OfRecalc
pub mod OfDtask
mod SimApp
mod OfApp
pub mod OfDriver
mod OfSchedule
mod SimNamed
mod OfSystem
mod OfRover
mod OfExercise
mod OfPrompt
mod SimLaunch
mod SimTrial
mod OfTrial
mod OfLaunch
