-- ===== src/Dict.antt =====
-- The dictionary of src/dict.c and src/dict.h.
pub mod Store
pub mod Table
pub mod Wire
pub mod Typed
pub mod Access
