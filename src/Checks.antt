-- ===== src/Checks.antt =====
-- Concrete instances of the interfaces, tests, and the theorems at concrete inputs.
mod Toy
mod ToyRlp
mod MerkleRuns
mod StorageRuns
mod SerdeRuns
mod KeyRuns
mod AmtRuns
mod TreeRuns
mod ForestRuns
mod DbRuns
mod SingleRuns
mod PowerRuns
mod TrieRuns
mod CommitRuns
mod CacheRuns
