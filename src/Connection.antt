-- ===== src/Connection.antt =====
-- XvncConnection.h and XvncConnection.cpp: the client side of a VNC connection to an Xvnc.
pub mod Key
pub mod State
pub mod Initialize
pub mod Requests
