-- ===== src/Simulator.antt =====
-- input_simulator: the source's session.
pub mod Source
