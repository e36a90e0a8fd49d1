-- ===== src/Examples.antt =====
-- Runs of the model at concrete inputs, and the theorems at inputs that meet their hypotheses.
mod CausalExamples
mod DomainExamples
mod ViewExamples
mod CapabilityExamples
mod UuidExample
mod LayoutExamples
mod RevisionExamples
mod BatchExamples
mod HistoryExamples
mod MultiExamples
mod IdentityExamples
