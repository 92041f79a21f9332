-- ===== src/Keys.antt =====
-- engine/v2/keys/type42 and engine/v2/custominstructions.
pub mod Type42
pub mod Interpreter
pub mod Meaning
pub mod Recovery
pub mod Reuse
pub mod Tests
