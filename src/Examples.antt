-- ===== src/Examples.antt =====
-- Concrete runs: an answering world in which libhcom.so and the C library succeed, and the theorems
-- of the development at inputs that exercise the code.
pub mod Answers
pub mod Hcom
pub mod Client
pub mod Config
pub mod Server
pub mod Options
pub mod Connection
pub mod Async
pub mod Program
pub mod Delivery
pub mod Log
pub mod Logger
