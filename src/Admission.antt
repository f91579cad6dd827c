-- ===== src/Admission.antt =====
-- internal/admission: which keys are worth caching, by their reads and writes over a window.
pub mod Sketch
pub mod Policy
pub mod Controller
mod Tests
