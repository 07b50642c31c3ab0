-- ===== src/Tunnel/Switch/Laws.antt =====
-- What `VncTunnel::connectionSwitched` leaves.
use vncmanager.Base.{
  ℕ, ◌%◌, ◌≡◌, refl, sym, ap, ◌∙◌, arith, true, none, some, List, [], ◌>>◌, ◌++◌, append_assoc,
  append-nil, length, if◌then◌else◌, Bool-cases, inl, inr, ok, err, bind_ok, bind_err, assertion,
  false,
}
use vncmanager.Rfb.Values.ClientMessageType
use vncmanager.Rfb.Values.EncodingType
use vncmanager.Rfb.Wire.{u32, encode, encode_all}
use vncmanager.Rfb.Pixel.{PixelFormat, other_format}
use vncmanager.Rfb.Messages.Client.{
  set_pixel_format_message, set_encodings_message, framebuffer_update_request_message,
}
use vncmanager.Sessions.Manager.{object, update_object}
use vncmanager.Connection.State.{Connection}
use vncmanager.Greeter.Connection.{GreeterConnection}
use vncmanager.Tunnel.State.{Tunnel, client_supports_encoding}
use vncmanager.Tunnel.Switch.{
  promote, count_down, has_connection, delete_connection, replace_current, brief_server,
  queue_changes, connection_switched, cancel,
}

abbrev set_format : Tunnel → List ℕ
set_format t = encode set_pixel_format_message (record {
  type = ClientMessageType.set_pixel_format;
  padding = 0;
  pixel_format = t.pixel_format;
})

abbrev set_encodings : Tunnel → List ℕ
set_encodings t = encode set_encodings_message (record {
  type = ClientMessageType.set_encodings;
  padding = 0;
  number_of_encodings = length t.supported_encodings_server % 65536;
})

abbrev ask_picture : Connection → List ℕ
ask_picture c = encode framebuffer_update_request_message (record {
  type = ClientMessageType.framebuffer_update_request;
  incremental = 0;
  x_position = 0;
  y_position = 0;
  width = c.framebuffer_width;
  height = c.framebuffer_height;
})

-- What the new server is told: the client's pixel format where it has another, the encodings, and a
-- request for the whole picture.
abbrev pub briefing : Tunnel → Connection → List ℕ
briefing t c =
    (if other_format c.pixel_format t.pixel_format then set_format t else [])
    ++ (set_encodings t ++ (encode_all u32 t.supported_encodings_server ++ ask_picture c))

-- The connection once it was told so.
abbrev pub briefed : Tunnel → Connection → Connection
briefed t c = record c {
  peer = record c.peer {
    stream = record c.peer.stream { output = c.peer.stream.output ++ briefing t c };
  };
  pixel_format =
      if other_format c.pixel_format t.pixel_format then t.pixel_format else c.pixel_format;
}

-- The tunnel after its switch to the connection `c`.
abbrev pub switched : Connection → Tunnel → Tunnel
switched c t = record t {
  current = briefed t c;
  potential = none;
  greeter = none;
  manager = record t.manager {
    objects = update_object t.current.xvnc count_down t.manager.objects;
  };
  tight_zlib_reset_queued = true;
  desktop_name_change_queued =
      if client_supports_encoding EncodingType.desktop_name t
      then true
      else t.desktop_name_change_queued;
  pending_cancelation = true;
}

-- A tunnel with a greeter and a potential connection.
abbrev pub switching : GreeterConnection → Connection → Tunnel → Tunnel
switching g c t = record t { greeter = some g; potential = some c }

pub delete_lem :
    (c : Connection) (t : Tunnel)
    → has_connection (object c.xvnc t.manager.objects) ≡ true
    → delete_connection c t
      ≡ ok tt (record t {
        manager = record t.manager { objects = update_object c.xvnc count_down t.manager.objects };
      })
unfolding delete_connection
delete_lem c t hc = rw hc refl

-- The tunnel once the connections have changed.
abbrev replaced : Connection → Tunnel → Tunnel
replaced c t = record t {
  current = c;
  potential = none;
  greeter = none;
  manager = record t.manager {
    objects = update_object t.current.xvnc count_down t.manager.objects;
  };
}

replace_lem :
    (c : Connection) (t : Tunnel)
    → has_connection (object t.current.xvnc t.manager.objects) ≡ true
    → replace_current (record t { potential = some c; greeter = none }) ≡ ok tt (replaced c t)
unfolding replace_current
replace_lem c t hc =
    let t1 : Tunnel = record t { potential = some c; greeter = none } in
    bind_ok (delete_connection t.current) (λ x. promote) t1 (delete_lem t.current t1 hc)

join :
    (out xs ys zs ws : List ℕ)
    → (((out ++ xs) ++ ys) ++ zs) ++ ws ≡ out ++ (xs ++ (ys ++ (zs ++ ws)))
join out xs ys zs ws =
    append_assoc ((out ++ xs) ++ ys) zs ws
    ∙ append_assoc (out ++ xs) ys (zs ++ ws)
    ∙ append_assoc out xs (ys ++ (zs ++ ws))

-- The connection with these bytes sent and this format.
abbrev told : List ℕ → PixelFormat → Connection → Connection
told out f c = record c {
  peer = record c.peer { stream = record c.peer.stream { output = out } };
  pixel_format = f;
}

brief_lem :
    (c : Connection) (t : Tunnel)
    → brief_server (record t { current = c }) ≡ ok tt (record t { current = briefed t c })
unfolding brief_server
brief_lem c t = elim (Bool-cases (other_format c.pixel_format t.pixel_format)) [
  | inl differs ↦ rw differs (
      ap (λ (o : List ℕ). ok tt (record t { current = told o t.pixel_format c }))
        (join c.peer.output (set_format t) (set_encodings t)
          (encode_all u32 t.supported_encodings_server) (ask_picture c)))
  | inr same ↦ rw same (
      ap (λ (o : List ℕ). ok tt (record t { current = told o c.pixel_format c }))
        (ap
            (λ (o : List ℕ).
              ((o ++ set_encodings t) ++ encode_all u32 t.supported_encodings_server)
              ++ ask_picture c)
            (sym (append-nil c.peer.output))
          ∙ join c.peer.output [] (set_encodings t) (encode_all u32 t.supported_encodings_server)
              (ask_picture c)))
]

queue_lem :
    (t : Tunnel)
    → queue_changes t
      ≡ ok tt (record t {
        tight_zlib_reset_queued = true;
        desktop_name_change_queued =
            if client_supports_encoding EncodingType.desktop_name t
            then true
            else t.desktop_name_change_queued;
      })
unfolding queue_changes
queue_lem t = ground arith

delete_refused :
    (c : Connection) (t : Tunnel)
    → has_connection (object c.xvnc t.manager.objects) ≡ false
    → delete_connection c t ≡ err assertion t
unfolding delete_connection
delete_refused c t hc = rw hc refl

refused_lem :
    (c : Connection) (t : Tunnel)
    → has_connection (object t.current.xvnc t.manager.objects) ≡ false
    → replace_current (record t { potential = some c; greeter = none })
      ≡ err assertion (record t { potential = some c; greeter = none })
unfolding replace_current
refused_lem c t hc =
    let t1 : Tunnel = record t { potential = some c; greeter = none } in
    bind_err (delete_connection t.current) (λ x. promote) t1 (delete_refused t.current t1 hc)

-- Where the session of the current connection counts it, a potential connection whose handshake is
-- done takes its place, and the current one is closed: the greeter goes, the new server is told the
-- client's format if it has another, the client's encodings, and that it is asked for the whole
-- picture, and a reset of the Tight streams and the new name are queued. Nothing is sent to the
-- client. Where the session's count is 0, the assertion of Xvnc::disconnect fails and nothing but the
-- greeter has changed.
pub connection_switched_lem :
    (g : GreeterConnection) (c : Connection) (t : Tunnel)
    → connection_switched (switching g c t) ≡ (
        if has_connection (object t.current.xvnc t.manager.objects)
        then ok tt (switched c t)
        else err assertion (record t { potential = some c; greeter = none }))
unfolding connection_switched
connection_switched_lem g c t =
    elim (Bool-cases (has_connection (object t.current.xvnc t.manager.objects))) [
      | inl counted ↦ rw counted (
          let t1 : Tunnel = record (replaced c t) { pending_cancelation = true } in
          bind_ok replace_current (λ x. cancel >> (brief_server >> queue_changes))
            (record t { potential = some c; greeter = none }) (replace_lem c t counted)
          ∙ bind_ok brief_server (λ x. queue_changes) t1 (brief_lem c t1)
          ∙ queue_lem (record t1 { current = briefed t c }))
      | inr uncounted ↦ rw uncounted (
          bind_err replace_current (λ x. cancel >> (brief_server >> queue_changes))
            (record t { potential = some c; greeter = none }) (refused_lem c t uncounted))
    ]
