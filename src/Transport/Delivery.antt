-- ===== src/Transport/Delivery.antt =====
-- What arrives when frames are sent over a stream that keeps bytes in order, as QUIC streams do.
use tty_gateway.Base.{
  ℕ, ◌≤◌, ◌<◌, ◌≡◌, sym, ap, ap₂, ◌∙◌, List, [], ◌∷◌, ◌++◌, Bytes, length, take, drop, arith,
  take-append, drop-append, length-append, append_assoc, append-nil, inl, inr,
}
use tty_gateway.Base.Results.{ok, err, Result-cases}
use tty_gateway.Proto.Header.{
  to_be_bytes, from_be_bytes, length-to_be_bytes, from_be_bytes-to_be_bytes,
}
use tty_gateway.Proto.Codec.{
  Postcard, RoundTrips, too_large, encode_framed, decode, max_frame_len, encode_framed_lem,
  encode_framed_too_large,
}
use tty_gateway.Transport.Framed.{Stream, codec, frame_too_large, send, recv}

-- The documented behaviour of a stream: what `write_all` wrote is sent, in order, and `read_exact`
-- takes what it asks for off the front of what arrives, or fails if that ends before.
pub record IsOrdered {S R : Type 0} (q : Stream S R) : Type 0 where
  pub sent : S → Bytes
  pub pending : R → Bytes
  pub written :
      (s : S) (bytes : Bytes)
      → (q.write_all s bytes).0 ≡ ok tt
      → sent (q.write_all s bytes).1 ≡ sent s ++ bytes
  pub taken :
      (r : R) (n : ℕ)
      → n ≤ length (pending r)
      → ((q.read_exact r n).0 ≡ ok (take n (pending r)))
        × (pending (q.read_exact r n).1 ≡ drop n (pending r))

module _ {S R T : Type 0} (q : Stream S R) (p : Postcard T) (o : IsOrdered q)
    (rt : RoundTrips p) where
  open o use {sent, pending, written, taken}

  -- The bytes of a front part are what is read.
  read_front :
      (r : R) (n : ℕ) (front rest : Bytes)
      → n ≡ length front
      → pending r ≡ front ++ rest
      → ((q.read_exact r n).0 ≡ ok front) × (pending (q.read_exact r n).1 ≡ rest)
  read_front r n front rest size e =
      let (a, b) = taken r n (omega (arith, size, ap length e, length-append front rest)) in
      (
        a ∙ ap ok (ap₂ take size e ∙ take-append front rest),
        b ∙ ap₂ drop size e ∙ drop-append front rest,
      )

  -- `recv` as its two reads.
  recv_parts :
      (r : R) (header body : Bytes) (frame : T)
      → (q.read_exact r 4).0 ≡ ok header
      → from_be_bytes header ≤ max_frame_len
      → (q.read_exact (q.read_exact r 4).1 (from_be_bytes header)).0 ≡ ok body
      → p.from_bytes body ≡ ok frame
      → recv q p r ≡ (ok frame, (q.read_exact (q.read_exact r 4).1 (from_be_bytes header)).1)
  unfolding recv decode
  recv_parts r header body frame e small f g = ground (arith, e, f, g)

  -- If the bytes of an encoded frame arrive, followed by anything, `recv` returns that frame, and
  -- what follows is still to be read.
  pub recv-encode_framed :
      (r : R) (frame : T) (bytes rest : Bytes)
      → encode_framed p frame ≡ ok bytes
      → pending r ≡ bytes ++ rest
      → ((recv q p r).0 ≡ ok frame) × (pending (recv q p r).1 ≡ rest)
  recv-encode_framed r frame bytes rest e arrives =
      let (body, made, small, split) = encode_framed_lem p frame bytes e in
      let size : from_be_bytes (to_be_bytes (length body)) ≡ length body =
        from_be_bytes-to_be_bytes (length body) (omega (arith, small)) in
      let (header_read, left) =
        read_front r 4 (to_be_bytes (length body)) (body ++ rest)
          (sym (length-to_be_bytes (length body)))
          (arrives
            ∙ ap (λ b. b ++ rest) split
            ∙ append_assoc (to_be_bytes (length body)) body rest) in
      let (body_read, done) = read_front (q.read_exact r 4).1 _ body rest size left in
      let whole =
        recv_parts r (to_be_bytes (length body)) body frame header_read (rw size small) body_read
          (rt.back frame body made) in
      (ap (λ x. x.0) whole, ap (λ x. pending x.1) whole ∙ done)

  -- A prefix over the limit is refused when only the four bytes of the prefix have been read.
  pub recv_too_large :
      (r : R) (header rest : Bytes)
      → length header ≡ 4
      → pending r ≡ header ++ rest
      → max_frame_len < from_be_bytes header
      → ((recv q p r).0 ≡ err (frame_too_large (from_be_bytes header)))
        × (pending (recv q p r).1 ≡ rest)
  unfolding recv
  recv_too_large r header rest four arrives big =
      let (a, b) = read_front r 4 header rest (sym four) arrives in ground (arith, a, b)

  -- A successful `send` has put the encoded frame behind what was sent before.
  send_ok :
      (s : S) (frame : T)
      → (send q p s frame).0 ≡ ok tt
      → (bytes : Bytes) × (encode_framed p frame ≡ ok bytes)
        × (sent (send q p s frame).1 ≡ sent s ++ bytes)
  unfolding send
  send_ok s frame h = elim (Result-cases (encode_framed p frame)) [
    | inl (bytes, e) ↦ (bytes, e, ground (arith, e, written s bytes))
    | inr (x, e) ↦ absurd (ground (arith, e))
  ]

  -- A frame over the limit is refused, and nothing of it is written.
  pub send_too_large :
      (s : S) (frame : T) (body : Bytes)
      → p.to_stdvec frame ≡ ok body
      → max_frame_len < length body
      → send q p s frame ≡ (err (codec (too_large (length body))), s)
  unfolding send
  send_too_large s frame body e big = rw (encode_framed_too_large p frame body e big, send)

  -- The sender after a list of frames, and that each of them was sent without an error.
  abbrev pub after : S → List T → S
  after s [] = s
  after s (frame ∷ frames) = after (send q p s frame).1 frames

  abbrev pub AllSent : S → List T → Type 0
  AllSent s [] = Unit {0}
  AllSent s (frame ∷ frames) = ((send q p s frame).0 ≡ ok tt) × AllSent (send q p s frame).1 frames

  -- One `recv` after the other returns these frames, and `rest` is left to be read.
  abbrev pub Receives : R → List T → Bytes → Type 0
  Receives r [] rest = pending r ≡ rest
  Receives r (frame ∷ frames) rest =
      ((recv q p r).0 ≡ ok frame) × Receives (recv q p r).1 frames rest

  -- What a list of frames adds to the bytes that are sent.
  wire_of :
      (s : S) (frames : List T)
      → AllSent s frames
      → (wire : Bytes) × (sent (after s frames) ≡ sent s ++ wire)
        × ((r : R) (rest : Bytes) → pending r ≡ wire ++ rest → Receives r frames rest)
  wire_of s [] h = ([], sym (append-nil (sent s)), λ r rest e. e)
  wire_of s (frame ∷ frames) (h, hs) =
      let (bytes, made, put) = send_ok s frame h in
      let (wire, more, reads) = wire_of (send q p s frame).1 frames hs in
      (
        bytes ++ wire,
        more ∙ ap (λ b. b ++ wire) put ∙ append_assoc (sent s) bytes wire,
        λ r rest e.
            let (got, left) =
              recv-encode_framed r frame bytes (wire ++ rest) made
                (e ∙ append_assoc bytes wire rest) in
            (got, reads (recv q p r).1 rest left),
      )

  -- Frames that were all sent without an error over an ordered stream are received in the order in
  -- which they were sent, each of them whole, and what the peer wrote behind them is left.
  pub received_as_sent :
      (s : S) (frames : List T) (r : R) (rest : Bytes)
      → sent s ≡ []
      → AllSent s frames
      → pending r ≡ sent (after s frames) ++ rest
      → Receives r frames rest
  received_as_sent s frames r rest fresh all arrives =
      let (wire, more, reads) = wire_of s frames all in
      reads r rest (arrives ∙ ap (λ b. b ++ rest) (more ∙ ap (λ b. b ++ wire) fresh))
