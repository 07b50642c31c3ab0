-- ===== src/Formatter/Output.antt =====
-- What a forward writes: it appends to the output of its peer, and takes nothing back.
use vncmanager.Base.{
  ℕ, zero, suc, ◌-◌, ◌≡◌, ap, ◌∙◌, List, ◌++◌, append_assoc, take, length, ltb, leb, min, Result,
  Action, ok, err, Grants, Leads-bind, Keeps-pure, Keeps-when, Post, Result-cases, Bool-cases, inl,
  inr,
}
use vncmanager.Stream.Channel
use vncmanager.Stream.Channel.{Channel, Link, at_source, at_sink, buffer_length}
use vncmanager.Rfb.Wire.{Wire, decode}
use vncmanager.Formatter.{
  Peer, Transfer, buffered, unbuffer, send_raw, recv_raw, from_peer, to_peer, across, forward_raw,
  forward, forward_rest, forward_directly,
}

-- A list that begins with `o`.
abbrev pub Extends : List ℕ → List ℕ → Type 0
Extends o l = (xs : List ℕ) × (l ≡ o ++ xs)

module _ (o : List ℕ) where
  pub appended : (l bs : List ℕ) → Extends o l → Extends o (l ++ bs)
  appended l bs (xs, e) = (xs ++ bs, ap (λ k. k ++ bs) e ∙ append_assoc o xs bs)

  -- The two streams of a forward.
  abbrev Grows : {A : Type 0} → Action Link A → Type 0
  Grows m = Grants (λ l. Extends o l.sink.output) (λ l. Extends o l.sink.output) m

  source-Grows : {A : Type 0} (m : Action Channel A) → Grows (at_source m)
  source-Grows {A} m = record { at = λ l h. go l h (m l.source) }
    where
      go :
          (l : Link)
          → Extends o l.sink.output
          → (r : Result Channel A)
          → Post
              (λ _ k. Extends o k.sink.output)
              (λ _ _. Unit)
              (elim r [
                | ok a c ↦ ok a (record l { source = c })
                | err e c ↦ err e (record l { source = c })
              ])
      go l h (ok a c) = h
      go l h (err e c) = tt

  sink-Grows : (bs : List ℕ) → Grows (at_sink (Channel.send bs))
  unfolding Channel.send
  sink-Grows bs = record { at = λ l h. appended l.sink.output bs h }

  stream_forward-Grows : (n : ℕ) → Grows (Channel.forward n)
  unfolding Channel.forward
  stream_forward-Grows n =
      Leads-bind (at_source (Channel.recv n)) _ (source-Grows (Channel.recv n))
        (λ bs. Leads-bind (at_sink (Channel.send bs)) _ (sink-Grows bs) (λ _. Keeps-pure bs))

  loop-Grows : (fuel n : ℕ) → Grows (Channel.forward_loop fuel n)
  unfolding Channel.forward_loop
  loop-Grows zero n = record { at = λ l h. tt }
  loop-Grows (suc fuel) n = record {
    at = λ l h. elim (Result-cases (Channel.forward (min n buffer_length) l)) [
      | inl (bs, k, e) ↦
          let h' : Extends o k.sink.output =
            rw e at ((stream_forward-Grows (min n buffer_length)).at l h) in
          rw (e, Channel.forward_loop)
            (elim (Bool-cases (leb n buffer_length)) [
              | inl last ↦ rw last h'
              | inr more ↦ rw more ((loop-Grows fuel (n - buffer_length)).at k h')
            ])
      | inr (x, k, e) ↦ rw (e, Channel.forward_loop) tt
    ];
  }

  -- A transfer between two peers.
  abbrev pub GrowsTo : {A : Type 0} → Action Transfer A → Type 0
  GrowsTo m = Grants (λ f. Extends o f.to.output) (λ f. Extends o f.to.output) m

  from_peer-Grows : {A : Type 0} (m : Action Peer A) → GrowsTo (from_peer m)
  from_peer-Grows {A} m = record { at = λ f h. go f h (m f.from) }
    where
      go :
          (f : Transfer)
          → Extends o f.to.output
          → (r : Result Peer A)
          → Post
              (λ _ g. Extends o g.to.output)
              (λ _ _. Unit)
              (elim r [
                | ok a p ↦ ok a (record f { from = p })
                | err e p ↦ err e (record f { from = p })
              ])
      go f h (ok a p) = h
      go f h (err e p) = tt

  to_peer-Grows : (bs : List ℕ) → GrowsTo (to_peer (send_raw bs))
  unfolding send_raw
  to_peer-Grows bs = record { at = λ f h. appended f.to.output bs h }

  across-Grows : {A : Type 0} (m : Action Link A) → Grows m → GrowsTo (across m)
  across-Grows {A} m k = record {
    at = λ f h. go f (m _) (k.at (record { source = f.from.stream; sink = f.to.stream }) h);
  }
    where
      go :
          (f : Transfer) (r : Result Link A)
          → Post (λ _ l. Extends o l.sink.output) (λ _ _. Unit) r
          → Post {S = Transfer}
              (λ _ g. Extends o g.to.output)
              (λ _ _. Unit)
              (elim r [
                | ok a l ↦ ok a (record {
                  from = record { stream = l.source; pushed = f.from.pushed };
                  to = record { stream = l.sink; pushed = f.to.pushed };
                })
                | err e l ↦ err e (record {
                  from = record { stream = l.source; pushed = f.from.pushed };
                  to = record { stream = l.sink; pushed = f.to.pushed };
                })
              ])
      go f (ok a l) h = h
      go f (err e l) h = tt

  forward_raw-Grows : (n : ℕ) → GrowsTo (forward_raw n)
  unfolding forward_raw
  forward_raw-Grows n = record {
    at = λ f h. elim (Bool-cases (ltb 0 (length f.from.pushed))) [
      | inl pushed ↦ rw pushed (
          (Leads-bind (from_peer (recv_raw n)) _ (from_peer-Grows (recv_raw n)) (λ bs.
              Leads-bind (to_peer (send_raw bs)) _ (to_peer-Grows bs) (λ _. Keeps-pure bs))).at
            f h)
      | inr clear ↦ rw clear ((across-Grows (Channel.forward n) (stream_forward-Grows n)).at f h)
    ];
  }

  pub forward-Grows : {T : Type 0} (w : Wire T) → GrowsTo (forward w)
  unfolding forward
  forward-Grows w =
      Leads-bind (forward_raw w.size) _ (forward_raw-Grows w.size) (λ bs. Keeps-pure (decode w bs))

  rest-Grows : (n : ℕ) → GrowsTo (forward_rest n)
  unfolding forward_rest Channel.forward_directly
  rest-Grows n =
      Keeps-when (ltb 0 n) _ (across-Grows (Channel.forward_directly n) (loop-Grows (suc n) n))

  pub forward_directly-Grows : (n : ℕ) → GrowsTo (forward_directly n)
  unfolding forward_directly
  forward_directly-Grows n = record {
    at = λ f h. elim (Bool-cases (ltb 0 (length f.from.pushed))) [
      | inl pushed ↦ rw pushed (
          (Leads-bind (to_peer (send_raw (take (buffered n f.from) f.from.pushed))) _
              (to_peer-Grows (take (buffered n f.from) f.from.pushed))
              (λ _. rest-Grows (n - buffered n f.from))).at
            (record f { from = unbuffer n f.from }) h)
      | inr clear ↦ rw clear ((rest-Grows n).at f h)
    ];
  }
