-- ===== src/Topology.antt =====
-- sidecar/autoskill/services/topology.py and sidecar/autoskill/core/skillgraph.py: the proposals
-- that create, improve, compose and decompose skills, and the graphs they carry.
pub mod Skills
pub mod Graph
pub mod Blockers
pub mod Requests
pub mod Proposals
mod Links
mod Evidence
mod Candidates
pub mod Compositions
pub mod Improvements
pub mod Decompositions
mod Tests
