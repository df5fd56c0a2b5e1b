-- ===== src/Optimizer.antt =====
-- src/optimizer: the statistics that plans are chosen by.
pub mod CmSketch
