-- ===== src/Runs.antt =====
-- Concrete runs of the program's functions, and its theorems at concrete inputs.
mod LogRuns
mod ConfigRuns
mod PolicyRuns
mod ToyNumbers
mod ToyBytes
mod ProofRuns
mod VerifyRuns
mod IssueRuns
mod CosignRuns
mod GenerateRuns
