-- ===== src/Engine/Changes.antt =====
-- What the functions of src/engine/service.ts may change, proved once for every relation that their
-- writes respect: a property of the writes is then one of each function.
pub mod Writes
pub mod Legs
pub mod Steps
pub mod Calls
