-- ===== src/Tui.antt =====
-- crates/tui: the buffer of the progress of a model request. Drawing and input are not modelled.
pub mod Progress
pub mod Previews
pub mod Tests
