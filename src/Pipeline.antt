-- ===== src/Pipeline.antt =====
-- Pipeline manifests (holonbridge/pipeline.py).
pub mod Model
pub mod Order
pub mod Stages
pub mod Kinds
pub mod Run
pub mod Message
