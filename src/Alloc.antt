-- ===== src/Alloc.antt =====
-- src/alloc.cpp and include/iom/alloc.hpp: the single-buffer allocators.
pub mod Buffer
pub mod Linear
pub mod FreeList
pub mod Fixed
pub mod Tests
