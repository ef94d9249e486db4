-- ===== src/Hcom.antt =====
-- The boundary of the program: libhcom.so behind the function table of
-- src/hcom4db_dlopen_hcom.cpp, with the C library and securec. `Types` has the structs of
-- src/hcom4db_hcom.h that the code fills, `World` the state and what leaves the program, and the
-- other children the wrappers that guard each call.
pub mod Types
pub mod Call
pub mod World
pub mod Context
pub mod Channel
pub mod Service
pub mod Memory
pub mod Symbols
pub mod Loader
