-- ===== src/Tunnel.antt =====
-- VncTunnel.h and VncTunnel.cpp: the proxy between a VNC client and its current Xvnc.
pub mod State
pub mod Lift
pub mod Encodings
pub mod FromClient
pub mod Tight
pub mod Rectangles
pub mod Update
pub mod FromServer
pub mod Security
pub mod Switch
pub mod Run
pub mod Idle
