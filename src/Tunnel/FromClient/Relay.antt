-- ===== src/Tunnel/FromClient/Relay.antt =====
-- The client's messages that the tunnel hands on as they are.
use vncmanager.Base.{
  ℕ, suc, ◌*◌, ◌<◌, ◌≤◌, ◌≡◌, refl, sym, ap, ◌∙◌, arith, List, [], ◌∷◌, ◌++◌, append_assoc, length,
  length-append, take-length-append, drop-length-append, bind_ok, ok,
}
use vncmanager.Rfb.Wire.{Wire, be32, decode}
use vncmanager.Rfb.Messages.Client.{client_cut_text_message, set_desktop_size_message}
use vncmanager.Formatter.{Transfer, forward_directly, forward}
use vncmanager.Formatter.Laws.{carried, forward_directly_exact, forward_lem}
use vncmanager.Tunnel.State.{Tunnel, to_server}
use vncmanager.Tunnel.Lift.{to_server_ok}
use vncmanager.Tunnel.FromClient.{
  client_receive, client_dispatch, process_framebuffer_update_request, process_key_event,
  process_pointer_event, process_client_cut_text, process_set_desktop_size,
}

-- A client message as the protocol defines it, of a type that the tunnel does not act on.
pub data IsRelayed : List ℕ → Type 0 where
  update_request : (body : List ℕ) → length body ≡ 9 → IsRelayed (3 ∷ body)
  key_event : (body : List ℕ) → length body ≡ 7 → IsRelayed (4 ∷ body)
  pointer_event : (body : List ℕ) → length body ≡ 5 → IsRelayed (5 ∷ body)
  cut_text :
      (p q r n : ℕ) (text : List ℕ)
      → n < 4294967296
      → length text ≡ n
      → IsRelayed ((6 ∷ p ∷ q ∷ r ∷ be32 n) ++ text)
  desktop_size :
      (p w0 w1 h0 h1 n q : ℕ) (screens : List ℕ)
      → length screens ≡ n * 16
      → IsRelayed ((251 ∷ p ∷ w0 ∷ w1 ∷ h0 ∷ h1 ∷ n ∷ q ∷ []) ++ screens)

-- The tunnel whose client has these bytes to send.
abbrev pub client_sends : List ℕ → List ℕ → Tunnel → Tunnel
client_sends pushed bs t = record t {
  client = record { stream = record t.client.stream { input = bs }; pushed = pushed };
}

-- The tunnel after its server got these bytes.
abbrev pub server_gets : List ℕ → Tunnel → Tunnel
server_gets bs t = record t {
  current = record t.current {
    peer = record t.current.peer {
      stream = record t.current.peer.stream { output = t.current.peer.output ++ bs };
    };
  };
}

-- What a forward to the server works on.
abbrev transfer : List ℕ → List ℕ → Tunnel → Transfer
transfer pushed bs t = record { from = (client_sends pushed bs t).client; to = t.current.peer }

-- The type byte is read, looked at and put back.
pub receive_type :
    (c : ℕ) (bs : List ℕ) (t : Tunnel)
    → client_receive (client_sends [] (c ∷ bs) t) ≡ client_dispatch c (client_sends (c ∷ []) bs t)
unfolding client_receive
receive_type c bs t = ground arith

-- `forward_directly` over the first bytes of what the client has to send.
relay :
    (n c : ℕ) (body rest : List ℕ) (t : Tunnel)
    → suc (length body) ≡ n
    → to_server (forward_directly n) (client_sends (c ∷ []) (body ++ rest) t)
      ≡ ok tt (server_gets (c ∷ body) (client_sends [] rest t))
relay n c body rest t h =
    let enough : n ≤ length (c ∷ (body ++ rest)) = omega (arith, length-append body rest) in
    to_server_ok (client_sends (c ∷ []) (body ++ rest) t) (forward_directly n)
      (forward_directly_exact n (transfer (c ∷ []) (body ++ rest) t) (omega arith) enough)
    ∙ rw (← h) (rw (take-length-append body rest, drop-length-append body rest))

-- `carried` over the whole of `body`, with nothing put back.
carried_rest :
    (body rest : List ℕ) (t : Tunnel)
    → let f = carried (length body) (transfer [] (body ++ rest) t) in
      record t { client = f.from; current = record t.current { peer = f.to } }
      ≡ server_gets body (client_sends [] rest t)
carried_rest [] rest t = refl
carried_rest (b ∷ bs) rest t = rw (take-length-append bs rest, drop-length-append bs rest)

-- The same with nothing put back.
relay_rest :
    (n : ℕ) (body rest : List ℕ) (t : Tunnel)
    → length body ≡ n
    → to_server (forward_directly n) (client_sends [] (body ++ rest) t)
      ≡ ok tt (server_gets body (client_sends [] rest t))
relay_rest n body rest t h =
    to_server_ok (client_sends [] (body ++ rest) t) (forward_directly n) (
      forward_directly_exact n (transfer [] (body ++ rest) t) (omega arith)
        (omega (arith, length-append body rest)))
    ∙ rw (← h) (ap (ok tt) (carried_rest body rest t))

-- A message with the structure `w`, whose type byte was put back.
relay_message :
    {T : Type 0} (w : Wire T) (c : ℕ) (body rest : List ℕ) (t : Tunnel)
    → suc (length body) ≡ w.size
    → to_server (forward w) (client_sends (c ∷ []) (body ++ rest) t)
      ≡ ok (decode w (c ∷ body)) (server_gets (c ∷ body) (client_sends [] rest t))
relay_message w c body rest t h =
    let enough : w.size ≤ length (c ∷ (body ++ rest)) = omega (arith, length-append body rest) in
    to_server_ok (client_sends (c ∷ []) (body ++ rest) t) (forward w)
      (forward_lem w (transfer (c ∷ []) (body ++ rest) t) (omega arith) enough)
    ∙ rw (← h) (rw (take-length-append body rest, drop-length-append body rest))

server_gets-append :
    (xs ys : List ℕ) (t : Tunnel) → server_gets ys (server_gets xs t) ≡ server_gets (xs ++ ys) t
server_gets-append xs ys t = rw (append_assoc t.current.peer.output xs ys)

cut_text_length :
    (p q r n : ℕ)
    → n < 4294967296
    → (decode client_cut_text_message (6 ∷ p ∷ q ∷ r ∷ be32 n)).text_length ≡ n
cut_text_length p q r n h = omega arith

-- A relayed message reaches the server as the client sent it, with nothing added, lost or left
-- behind, and changes nothing else.
pub client_receive_relays :
    (message rest : List ℕ) (t : Tunnel)
    → IsRelayed message
    → client_receive (client_sends [] (message ++ rest) t)
      ≡ ok tt (server_gets message (client_sends [] rest t))
unfolding client_dispatch process_framebuffer_update_request process_key_event process_pointer_event
    process_client_cut_text process_set_desktop_size
client_receive_relays _ rest t (update_request body h) =
    receive_type 3 (body ++ rest) t ∙ relay 10 3 body rest t (omega arith)
client_receive_relays _ rest t (key_event body h) =
    receive_type 4 (body ++ rest) t ∙ relay 8 4 body rest t (omega arith)
client_receive_relays _ rest t (pointer_event body h) =
    receive_type 5 (body ++ rest) t ∙ relay 6 5 body rest t (omega arith)
client_receive_relays _ rest t (cut_text p q r n text fits h) =
    receive_type 6 ((p ∷ q ∷ r ∷ be32 n) ++ (text ++ rest)) t
    ∙ bind_ok (to_server (forward client_cut_text_message))
        (λ m. to_server (forward_directly m.text_length))
        (client_sends (6 ∷ []) ((p ∷ q ∷ r ∷ be32 n) ++ (text ++ rest)) t)
        (relay_message client_cut_text_message 6 (p ∷ q ∷ r ∷ be32 n) (text ++ rest) t refl)
    ∙ relay_rest _ text rest (server_gets (6 ∷ p ∷ q ∷ r ∷ be32 n) t)
        (h ∙ sym (cut_text_length p q r n fits))
    ∙ ap (ok tt) (server_gets-append (6 ∷ p ∷ q ∷ r ∷ be32 n) text (client_sends [] rest t))
client_receive_relays _ rest t (desktop_size p w0 w1 h0 h1 n q screens h) =
    receive_type 251 ((p ∷ w0 ∷ w1 ∷ h0 ∷ h1 ∷ n ∷ q ∷ []) ++ (screens ++ rest)) t
    ∙ bind_ok (to_server (forward set_desktop_size_message))
        (λ m. to_server (forward_directly (m.number_of_screens * 16)))
        (client_sends (251 ∷ []) ((p ∷ w0 ∷ w1 ∷ h0 ∷ h1 ∷ n ∷ q ∷ []) ++ (screens ++ rest)) t)
        (relay_message set_desktop_size_message 251 (p ∷ w0 ∷ w1 ∷ h0 ∷ h1 ∷ n ∷ q ∷ [])
          (screens ++ rest) t refl)
    ∙ relay_rest _ screens rest (server_gets (251 ∷ p ∷ w0 ∷ w1 ∷ h0 ∷ h1 ∷ n ∷ q ∷ []) t) h
    ∙ ap (ok tt) (
        server_gets-append (251 ∷ p ∷ w0 ∷ w1 ∷ h0 ∷ h1 ∷ n ∷ q ∷ []) screens
          (client_sends [] rest t))
