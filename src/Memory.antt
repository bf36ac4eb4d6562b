-- ===== src/Memory.antt =====
-- The memory pool of src/SmallObj.cpp and include/utility/SmallObj.h.
pub mod Chunk
pub mod Fixed
pub mod Small
mod Tests
