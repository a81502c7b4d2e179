-- ===== src/Curriculum.antt =====
-- The curriculum graph: packages/domain/graph.py and packages/curriculum/graph.py.
pub mod Definition
pub mod Prerequisites
pub mod Kahn
pub mod Adjacency
pub mod Depth
pub mod Reach
pub mod Descend
pub mod References
pub mod Validated
