-- ===== src/Transport/Framed.antt =====
-- crates/gw-transport/src/framed.rs. The two halves of a QUIC stream are quinn's: their types and
-- calls are parameters.
use tty_gateway.Base.{ℕ, Bytes, Text, ltb, if◌then◌else◌}
use tty_gateway.Base.Results.{Result, ok, err, map_err}
use tty_gateway.Proto.Header.{from_be_bytes}
use tty_gateway.Proto.Codec.{Postcard, CodecError, encode_framed, decode, max_frame_len}

-- Our prefix width, beside that of the codec.
abbrev pub len_prefix : ℕ
len_prefix = 4

pub data TransportError : Type 0 where
  connection connect write read io other : Text → TransportError
  codec : CodecError → TransportError
  frame_too_large : ℕ → TransportError

-- `write_all` and `finish` of `quinn::SendStream`, `read_exact` of `quinn::RecvStream`.
pub record Stream (S R : Type 0) : Type 0 where
  pub write_all : S → Bytes → Result Text (Unit {0}) × S
  pub read_exact : R → ℕ → Result Text Bytes × R
  pub finish : S → Result Text (Unit {0}) × S

module _ {S R T : Type 0} (q : Stream S R) (p : Postcard T) where
  write_bytes : S → Result CodecError Bytes → Result TransportError (Unit {0}) × S
  write_bytes s (err e) = (err (codec e), s)
  write_bytes s (ok bytes) = let (r, s') = q.write_all s bytes in (map_err write r, s')

  -- `FramedSend::send`.
  unfoldable pub send : S → T → Result TransportError (Unit {0}) × S
  unfolding write_bytes
  send s frame = write_bytes s (encode_framed p frame)

  -- `FramedSend::finish`; an error is dropped.
  unfoldable pub finish : S → S
  finish s = (q.finish s).1

  parse_body : Result Text Bytes × R → Result TransportError T × R
  parse_body (err e, r) = (err (read e), r)
  parse_body (ok body, r) = (map_err codec (decode p body), r)

  read_body : ℕ → R → Result TransportError T × R
  unfolding parse_body
  read_body n r =
      if ltb max_frame_len n then (err (frame_too_large n), r) else parse_body (q.read_exact r n)

  parse_header : Result Text Bytes × R → Result TransportError T × R
  unfolding read_body
  parse_header (err e, r) = (err (read e), r)
  parse_header (ok header, r) = read_body (from_be_bytes header) r

  -- `FramedRecv::recv`.
  unfoldable pub recv : R → Result TransportError T × R
  unfolding parse_header
  recv r = parse_header (q.read_exact r len_prefix)
