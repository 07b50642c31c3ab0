-- ===== src/Greeter.antt =====
-- GreeterConnection.h, GreeterConnection.cpp, GreeterManager.h and GreeterManager.cpp.
pub mod Start
pub mod Connection
pub mod Manager
