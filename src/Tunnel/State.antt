-- ===== src/Tunnel/State.antt =====
-- The members of VncTunnel, and its streams as actions.
use vncmanager.Base.{ℕ, Bool, Option, none, some, List, [], contains, Action, ok, err}
use vncmanager.Rfb.Pixel.{PixelFormat}
use vncmanager.Formatter.{Peer, Transfer}
use vncmanager.Sessions.Xvnc.{Xvnc}
use vncmanager.Sessions.Manager.{XvncManager, object}
use vncmanager.Connection.State.{Connection, State}
use vncmanager.Greeter.Connection.{GreeterConnection}

-- What `m_stream` is.
pub data Transport : Type 0 where
  plain : Transport
  tls : Bool → Transport

-- `client` is `m_stream` with `m_streamFormatter`. `supported_encodings_client` is a set, as a list
-- with no repetition. `pending_cancelation` is the selector's, and `manager` the session list.
pub record Tunnel : Type 0 where
  pub client : Peer
  pub transport : Transport
  pub current : Connection
  pub potential : Option Connection
  pub greeter : Option GreeterConnection
  pub manager : XvncManager
  pub security_type : ℕ
  pub pixel_format : PixelFormat
  pub supported_encodings_client : List ℕ
  pub supported_encodings_server : List ℕ
  pub tight_zlib_reset_queued : Bool
  pub desktop_name_change_queued : Bool
  pub tight_encoding_disabled : Bool
  pub pending_cancelation : Bool

-- `cFmt()`
abbrev pub on_client : {A : Type 0} → Action Peer A → Action Tunnel A
on_client m t = elim (m t.client) [
  | ok a p ↦ ok a (record t { client = p })
  | err e p ↦ err e (record t { client = p })
]

-- `sFmt()`
abbrev pub on_server : {A : Type 0} → Action Peer A → Action Tunnel A
on_server m t = elim (m t.current.peer) [
  | ok a p ↦ ok a (record t { current = record t.current { peer = p } })
  | err e p ↦ err e (record t { current = record t.current { peer = p } })
]

-- `m_currentConnection`
abbrev pub on_current : {A : Type 0} → Action Connection A → Action Tunnel A
on_current m t = elim (m t.current) [
  | ok a c ↦ ok a (record t { current = c })
  | err e c ↦ err e (record t { current = c })
]

-- `cFmt().forward…(sStream(), …)`
abbrev pub to_server : {A : Type 0} → Action Transfer A → Action Tunnel A
to_server m t = elim (m (record { from = t.client; to = t.current.peer })) [
  | ok a f ↦ ok a (record t { client = f.from; current = record t.current { peer = f.to } })
  | err e f ↦ err e (record t { client = f.from; current = record t.current { peer = f.to } })
]

-- `sFmt().forward…(cStream(), …)`
abbrev pub to_client : {A : Type 0} → Action Transfer A → Action Tunnel A
to_client m t = elim (m (record { from = t.current.peer; to = t.client })) [
  | ok a f ↦ ok a (record t { client = f.to; current = record t.current { peer = f.from } })
  | err e f ↦ err e (record t { client = f.to; current = record t.current { peer = f.from } })
]

-- A method of the current connection that reaches the session list.
abbrev pub current_state : Tunnel → State
current_state t = record { connection = t.current; manager = t.manager }

abbrev pub with_current_state : State → Tunnel → Tunnel
with_current_state s t = record t { current = s.connection; manager = s.manager }

-- `clientSupportsEncoding`
abbrev pub client_supports_encoding : ℕ → Tunnel → Bool
client_supports_encoding e t = contains t.supported_encodings_client e

abbrev pub name_of : Option Xvnc → List ℕ
name_of none = []
name_of (some x) = x.desktop_name

-- `m_currentConnection->desktopName()`
abbrev pub desktop_name : Tunnel → List ℕ
desktop_name t = name_of (object t.current.xvnc t.manager.objects)
