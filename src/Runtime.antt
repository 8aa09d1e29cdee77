-- ===== src/Runtime.antt =====
-- icd_runtime: the frozen contract, wire framing and reassembly.
pub mod Contract
pub mod Chunks
pub mod Wire
pub mod Video
pub mod Budget
pub mod Reassembly
