-- ===== src/Sessions.antt =====
-- Xvnc.h, Xvnc.cpp, XvncManager.h and XvncManager.cpp: the running Xvnc servers and their list.
pub mod Xvnc
pub mod DisplayNumber
pub mod Start
pub mod Created
pub mod Manager
pub mod Invariant
pub mod ChildDied
