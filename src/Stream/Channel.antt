-- ===== src/Stream/Channel.antt =====
-- class Stream (Stream.h, Stream.cpp). `input` is all that the peer will send before it closes,
-- and `output` all that was sent to it. How the bytes arrive is the business of Stream/FdStream.
use vncmanager.Base.{
  ℕ, zero, suc, ◌-◌, min, List, [], ◌++◌, length, take, drop, ltb, leb, if◌then◌else◌, Action, ok,
  err, eof, out_of_fuel, ◌>>=◌, ◌>>◌, pure,
}

pub record Channel : Type 0 where
  pub input : List ℕ
  pub output : List ℕ

-- A read that meets the end of the stream has taken what was left.
unfoldable pub recv : ℕ → Action Channel (List ℕ)
recv n c =
    if ltb (length c.input) n
    then err eof (record c { input = [] })
    else ok (take n c.input) (record c { input = drop n c.input })

unfoldable pub send : List ℕ → Action Channel (Unit {0})
send bs c = ok tt (record c { output = c.output ++ bs })

-- The two streams of a `forward`.
pub record Link : Type 0 where
  pub source : Channel
  pub sink : Channel

abbrev pub at_source : {A : Type 0} → Action Channel A → Action Link A
at_source m l = elim (m l.source) [
  | ok a c ↦ ok a (record l { source = c })
  | err e c ↦ err e (record l { source = c })
]

abbrev pub at_sink : {A : Type 0} → Action Channel A → Action Link A
at_sink m l = elim (m l.sink) [
  | ok a c ↦ ok a (record l { sink = c })
  | err e c ↦ err e (record l { sink = c })
]

unfoldable pub forward : ℕ → Action Link (List ℕ)
unfolding recv send
forward n = do bs ← at_source (recv n); at_sink (send bs); pure bs

abbrev pub buffer_length : ℕ
buffer_length = 4096

-- `while (true)`; every round that does not break takes 4096 from `len`.
unfoldable pub forward_loop : ℕ → ℕ → Action Link (Unit {0})
unfolding forward
forward_loop zero n l = err out_of_fuel l
forward_loop (suc fuel) n l = elim (forward (min n buffer_length) l) [
  | ok bs l' ↦
      let rest = forward_loop fuel (n - buffer_length) l' in
      if leb n buffer_length then ok tt l' else rest
  | err e l' ↦ err e l'
]

unfoldable pub forward_directly : ℕ → Action Link (Unit {0})
unfolding forward_loop
forward_directly n = forward_loop (suc n) n
