-- ===== src/Tunnel/FromClient/SetEncodings.antt =====
-- A client's list of encodings, from its message to what the server is told.
use vncmanager.Base.{
  ℕ, ◌*◌, ◌%◌, ◌^◌, ◌<◌, ◌≡◌, refl, ap, ◌∙◌, arith, List, [], ◌∷◌, ◌++◌, append_assoc, All, length,
  length-append, take-length-append, drop-length-append, Action, ok, bind_ok, gets, pure, ◌>>◌,
  ◌>>=◌,
}
use vncmanager.Rfb.Wire.{u32, be16, encode, decode, encode_all, decode_all}
use vncmanager.Rfb.Messages.Client.{SetEncodingsMessage, set_encodings_message}
use vncmanager.Formatter.{Peer, recv, recv_raw, recv_vector}
use vncmanager.Formatter.Laws.{advanced, recv_lem, recv_raw_lem}
use vncmanager.Connection.Requests.{send_set_encodings}
use vncmanager.Tunnel.State.{Tunnel, on_client, on_current}
use vncmanager.Tunnel.Lift.{on_client_ok}
use vncmanager.Tunnel.Encodings.{accepted_encodings}
use vncmanager.Tunnel.FromClient.{
  client_receive, client_dispatch, take_encodings, process_set_encodings,
}
use vncmanager.Tunnel.FromClient.Relay.{client_sends, server_gets, receive_type}

abbrev pub Fits : List ℕ → Type 0
Fits = All (λ e. e < 2 ^ 32)

length-encode_all : (es : List ℕ) → length (encode_all u32 es) ≡ length es * 4
length-encode_all [] = refl
length-encode_all (e ∷ es) = omega (arith, length-encode_all es)

decode-encode : (e : ℕ) → e < 2 ^ 32 → decode u32 (encode u32 e) ≡ e
decode-encode e h = omega arith

decode_all-encode_all :
    (es : List ℕ) → Fits es → decode_all u32 (length es) (encode_all u32 es) ≡ es
decode_all-encode_all [] h = refl
decode_all-encode_all (e ∷ es) h =
    ap (λ (x : ℕ). x ∷ decode_all u32 (length es) (encode_all u32 es)) (decode-encode e h.0)
    ∙ ap (◌∷◌ e) (decode_all-encode_all es h.1)

abbrev peer_with : List ℕ → Peer → Peer
peer_with bs p = record { stream = record p.stream { input = bs }; pushed = [] }

advanced_whole :
    (bs rest : List ℕ) (p : Peer)
    → advanced (length bs) (peer_with (bs ++ rest) p) ≡ peer_with rest p
advanced_whole [] rest p = refl
advanced_whole (b ∷ bs) rest p = rw (drop-length-append bs rest) refl

read_raw :
    (n : ℕ) (bs rest : List ℕ) (p : Peer)
    → length bs ≡ n
    → recv_raw n (peer_with (bs ++ rest) p) ≡ ok bs (peer_with rest p)
read_raw n bs rest p h =
    recv_raw_lem n (peer_with (bs ++ rest) p) (omega arith) (omega (arith, length-append bs rest))
    ∙ rw (← h) (
        ap (λ (xs : List ℕ). ok xs (advanced (length bs) (peer_with (bs ++ rest) p)))
          (take-length-append bs rest)
        ∙ ap (ok bs) (advanced_whole bs rest p))

read_list :
    (es rest : List ℕ) (p : Peer)
    → Fits es
    → recv_vector u32 (length es) (peer_with (encode_all u32 es ++ rest) p)
      ≡ ok es (peer_with rest p)
unfolding recv_vector
read_list es rest p h =
    bind_ok (recv_raw (length es * 4)) (λ bs. pure (decode_all u32 (length es) bs))
      (peer_with (encode_all u32 es ++ rest) p)
      (read_raw (length es * 4) (encode_all u32 es) rest p (length-encode_all es))
    ∙ ap (λ (xs : List ℕ). ok xs (peer_with rest p)) (decode_all-encode_all es h)

-- The message in which the tunnel tells a server its encodings.
abbrev pub told_encodings : List ℕ → List ℕ
told_encodings es =
    encode set_encodings_message
      (record { type = 2; padding = 0; number_of_encodings = length es % 65536 })
    ++ encode_all u32 es

-- The tunnel with the encodings that it accepts of this list.
abbrev pub with_encodings : List ℕ → Tunnel → Tunnel
with_encodings es t =
    let a = accepted_encodings t.tight_encoding_disabled es in
    record t { supported_encodings_client = a.by_client; supported_encodings_server = a.for_server }

abbrev take_list : List ℕ → Action Tunnel (Unit {0})
take_list es =
    take_encodings es
    >> (gets (λ t. t.supported_encodings_server) >>= λ for_server.
        on_current (send_set_encodings for_server))

abbrev take_message : SetEncodingsMessage → Action Tunnel (Unit {0})
take_message m = on_client (recv_vector u32 m.number_of_encodings) >>= take_list

tell_lem :
    (es : List ℕ) (t : Tunnel)
    → take_list es t
      ≡ ok tt (
          server_gets
            (told_encodings (accepted_encodings t.tight_encoding_disabled es).for_server)
            (with_encodings es t))
unfolding take_encodings send_set_encodings
tell_lem es t =
    let told : List ℕ = (accepted_encodings t.tight_encoding_disabled es).for_server in
    ap
      (λ (xs : List ℕ). ok tt (record (with_encodings es t) {
        current = record t.current {
          peer = record t.current.peer { stream = record t.current.peer.stream { output = xs } };
        };
      }))
      (append_assoc t.current.peer.output
        (encode set_encodings_message
          (record { type = 2; padding = 0; number_of_encodings = length told % 65536 }))
        (encode_all u32 told))

header_lem :
    (p n : ℕ)
    → n < 65536
    → decode set_encodings_message (2 ∷ p ∷ be16 n)
      ≡ record { type = 2; padding = p; number_of_encodings = n }
header_lem p n h = ground arith

-- SetEncodings: from a list of fewer than 65536 encodings, each a number of 32 bits, the tunnel keeps
-- those that it accepts, and tells the server the ones that it asks for. The message is read as a
-- whole, and nothing else changes.
pub client_receive-encodings :
    (p : ℕ) (es rest : List ℕ) (t : Tunnel)
    → length es < 65536
    → Fits es
    → client_receive (client_sends [] ((2 ∷ p ∷ be16 (length es)) ++ (encode_all u32 es ++ rest)) t)
      ≡ ok tt (
          server_gets
            (told_encodings (accepted_encodings t.tight_encoding_disabled es).for_server)
            (with_encodings es (client_sends [] rest t)))
unfolding client_dispatch process_set_encodings
client_receive-encodings p es rest t short fits =
    let n : ℕ = length es in
    let t1 : Tunnel = client_sends (2 ∷ []) (p ∷ (be16 n ++ (encode_all u32 es ++ rest))) t in
    let t2 : Tunnel = client_sends [] (encode_all u32 es ++ rest) t in
    receive_type 2 (p ∷ (be16 n ++ (encode_all u32 es ++ rest))) t
    ∙ bind_ok (on_client (recv set_encodings_message)) take_message t1 (
        on_client_ok t1 (recv set_encodings_message)
          (recv_lem set_encodings_message t1.client (omega arith) (omega arith)))
    ∙ ap (λ (m : SetEncodingsMessage). take_message m t2) (header_lem p n short)
    ∙ bind_ok (on_client (recv_vector u32 n)) take_list t2
        (on_client_ok t2 (recv_vector u32 n) (read_list es rest t.client fits))
    ∙ tell_lem es (client_sends [] rest t)
