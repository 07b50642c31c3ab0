-- ===== src/Connection/State.antt =====
-- The object XvncConnection, with the session list that its Xvnc belongs to.
use vncmanager.Base.{ℕ, List, Action, ok, err}
use vncmanager.Rfb.Pixel.{PixelFormat}
use vncmanager.Formatter.{Peer}
use vncmanager.Sessions.Xvnc
use vncmanager.Sessions.Xvnc.{Xvnc}
use vncmanager.Sessions.Manager
use vncmanager.Sessions.Manager.{XvncManager}

-- `m_xvnc` is the id of the object that it points to; `peer` is the stream with its formatter.
pub record Connection : Type 0 where
  pub xvnc : ℕ
  pub peer : Peer
  pub framebuffer_width : ℕ
  pub framebuffer_height : ℕ
  pub pixel_format : PixelFormat

pub record State : Type 0 where
  pub connection : Connection
  pub open connection use *
  pub manager : XvncManager

abbrev pub fmt : {A : Type 0} → Action Peer A → Action State A
fmt m s = elim (m s.connection.peer) [
  | ok a p ↦ ok a (record s { connection = record s.connection { peer = p } })
  | err e p ↦ err e (record s { connection = record s.connection { peer = p } })
]

unfoldable pub set_framebuffer_size : ℕ → ℕ → Connection → Connection
set_framebuffer_size width height c = record c {
  framebuffer_width = width;
  framebuffer_height = height;
}

-- `m_xvnc->setDesktopName`
unfoldable pub set_desktop_name : List ℕ → State → State
unfolding Manager.apply
set_desktop_name name s = record s {
  manager = Manager.apply (Xvnc.set_desktop_name name) s.connection.xvnc s.manager;
}
