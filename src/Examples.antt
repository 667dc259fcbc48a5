-- ===== src/Examples.antt =====
-- Runs of the model, and the theorems at concrete inputs.
mod Worlds
mod LockCases
mod CleanupCases
mod OpeningCases
mod Schedules
mod RuntimeCases
mod CallCases
mod ExceptionCases
mod ModuleCases
mod Surroundings
mod ProtocolCases
mod RegistryCases
mod NetworkCases
