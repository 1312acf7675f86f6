-- ===== src/Tests.antt =====
-- Runs of the model, and an instance of each theorem.
mod Ascii
mod Runs
mod ResponseRuns
mod Witnesses
mod SyntaxWitnesses
mod RoundTripWitnesses
mod ResponseWitnesses
mod TutorialWitnesses
