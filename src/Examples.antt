-- ===== src/Examples.antt =====
-- Tests of the definitions, and each theorem applied at an input where its hypotheses hold.
mod Offsets
mod Data
mod MapExamples
mod LoadingExamples
mod CloningExamples
mod ProbeExamples
mod RetryExamples
mod TrafficExamples
mod InitExamples
mod AddingExamples
mod UpdatingExamples
mod SpecsExamples
mod NewMapsExamples
mod SymbolsExamples
mod ManagerExamples
mod RunExamples
mod RoutesExamples
mod HooksExamples
mod EditorExamples
mod BpfExamples
