-- ===== src/Formatter.antt =====
-- StreamFormatter.h and StreamFormatter.cpp: values to and from a stream, and the push-back buffer.
pub mod Laws
pub mod Buffer
pub mod Output
use vncmanager.Base.{
  ◌*◌, ℕ, zero, suc, ◌+◌, ◌-◌, min, Bool, List, [], ◌∷◌, ◌++◌, length, take, drop, ltb,
  if◌then◌else◌, Result, Action, ok, err, push_back_overflow, ◌>>=◌, ◌>>◌, pure, when, map,
}
use vncmanager.Stream.Channel
use vncmanager.Stream.Channel.{Channel, Link}
use vncmanager.Rfb.Wire.{Wire, encode, decode, encode_all, decode_all}

-- A formatter and its stream. `pushed` is the used part of `buffer`.
pub record Peer : Type 0 where
  pub stream : Channel
  pub open stream use *
  pub pushed : List ℕ

abbrev pub buffer_max_size : ℕ
buffer_max_size = 1

abbrev on_stream : {A : Type 0} → Action Channel A → Action Peer A
on_stream m p = elim (m p.stream) [
  | ok a c ↦ ok a (record p { stream = c })
  | err e c ↦ err e (record p { stream = c })
]

unfoldable pub send_raw : List ℕ → Action Peer (Unit {0})
unfolding Channel.send
send_raw bs = on_stream (Channel.send bs)

-- `memcpy(buf, buffer, buffered); bufferSize -= buffered`: the first bytes are copied, and the
-- first of those remain.
abbrev buffered : ℕ → Peer → ℕ
buffered n p = min n (length p.pushed)

abbrev unbuffer : ℕ → Peer → Peer
unbuffer n p = record p { pushed = take (length p.pushed - buffered n p) p.pushed }

unfoldable pub recv_raw : ℕ → Action Peer (List ℕ)
unfolding Channel.recv
recv_raw n p =
    let front = take (buffered n p) p.pushed in
    let left = n - buffered n p in
    if ltb 0 left
    then (elim (Channel.recv left p.stream) [
      | ok bs c ↦ ok (front ++ bs) (record (unbuffer n p) { stream = c })
      | err e c ↦ err e (record (unbuffer n p) { stream = c })
    ])
    else ok front (unbuffer n p)

unfoldable pub recv_string : ℕ → Action Peer (List ℕ)
unfolding recv_raw
recv_string n = recv_raw n

module _ {T : Type 0} (w : Wire T) where
  unfoldable pub send : T → Action Peer (Unit {0})
  unfolding send_raw
  send t = send_raw (encode w t)

  unfoldable pub send_vector : List T → Action Peer (Unit {0})
  unfolding send_raw
  send_vector ts = send_raw (encode_all w ts)

  unfoldable pub recv : Action Peer T
  unfolding recv_raw
  recv = do bs ← recv_raw w.size; pure (decode w bs)

  unfoldable pub recv_vector : ℕ → Action Peer (List T)
  unfolding recv_raw
  recv_vector n = do bs ← recv_raw (n * w.size); pure (decode_all w n bs)

  unfoldable pub push_back : T → Action Peer (Unit {0})
  push_back t p =
      if ltb buffer_max_size (length p.pushed + w.size)
      then err push_back_overflow p
      else ok tt (record p { pushed = p.pushed ++ w.to_mem t })

-- A formatter that reads, and the stream of another that is written to.
pub record Transfer : Type 0 where
  pub from : Peer
  pub to : Peer

abbrev from_peer : {A : Type 0} → Action Peer A → Action Transfer A
from_peer m t = elim (m t.from) [
  | ok a p ↦ ok a (record t { from = p })
  | err e p ↦ err e (record t { from = p })
]

abbrev to_peer : {A : Type 0} → Action Peer A → Action Transfer A
to_peer m t = elim (m t.to) [
  | ok a p ↦ ok a (record t { to = p })
  | err e p ↦ err e (record t { to = p })
]

abbrev across : {A : Type 0} → Action Link A → Action Transfer A
across m t = elim (m (record { source = t.from.stream; sink = t.to.stream })) [
  | ok a l ↦ ok a (record {
    from = record { stream = l.source; pushed = t.from.pushed };
    to = record { stream = l.sink; pushed = t.to.pushed };
  })
  | err e l ↦ err e (record {
    from = record { stream = l.source; pushed = t.from.pushed };
    to = record { stream = l.sink; pushed = t.to.pushed };
  })
]

unfoldable pub forward_raw : ℕ → Action Transfer (List ℕ)
unfolding recv_raw send_raw Channel.forward
forward_raw n t =
    if ltb 0 (length t.from.pushed)
    then ((do bs ← from_peer (recv_raw n); to_peer (send_raw bs); pure bs) t)
    else across (Channel.forward n) t

unfoldable pub forward : {T : Type 0} → Wire T → Action Transfer T
unfolding forward_raw
forward w = do bs ← forward_raw w.size; pure (decode w bs)

-- The rest of `forward_directly`, once the buffer is dealt with.
forward_rest : ℕ → Action Transfer (Unit {0})
unfolding Channel.forward_directly
forward_rest n = when (ltb 0 n) (across (Channel.forward_directly n))

unfoldable pub forward_directly : ℕ → Action Transfer (Unit {0})
unfolding forward_rest send_raw
forward_directly n t =
    if ltb 0 (length t.from.pushed)
    then ((do
      to_peer (send_raw (take (buffered n t.from) t.from.pushed))
      forward_rest (n - buffered n t.from))
        (record t { from = unbuffer n t.from }))
    else forward_rest n t
