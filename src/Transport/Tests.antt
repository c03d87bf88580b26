-- ===== src/Transport/Tests.antt =====
-- An ordered stream and a serializer that meet the hypotheses, and the theorems at them.
use tty_gateway.Base.{
  ℕ, ◌≤◌, ◌≡◌, refl, List, [], ◌∷◌, ◌++◌, Bytes, codes, length, take, drop, leb, if◌then◌else◌,
  arith,
}
use tty_gateway.Base.Results.{ok, err}
use tty_gateway.Proto.Header.{to_be_bytes, from_be_bytes, from_be_bytes-to_be_bytes}
use tty_gateway.Proto.Codec.{Postcard, RoundTrips, encode_framed}
use tty_gateway.Transport.Framed.{Stream, send}
use tty_gateway.Transport.Delivery.{IsOrdered, AllSent, Receives, after, received_as_sent}

-- A stream that is the bytes on it, and frames that are written as they are.
abbrev wire : Stream Bytes Bytes
wire = record {
  finish = λ s. (ok tt, s);
  write_all = λ s bytes. (ok tt, s ++ bytes);
  read_exact =
      λ r n. if leb n (length r) then (ok (take n r), drop n r) else (err (codes "early end"), r);
}

abbrev raw : Postcard Bytes
raw = record { to_stdvec = λ b. ok b; from_bytes = λ b. ok b }

raw-RoundTrips : RoundTrips raw
raw-RoundTrips = record { back = λ frame bytes e. ground arith }

wire_taken :
    (r : Bytes) (n : ℕ)
    → n ≤ length r
    → ((wire.read_exact r n).0 ≡ ok (take n r)) × ((wire.read_exact r n).1 ≡ drop n r)
wire_taken r n h = ground arith

abbrev wire-IsOrdered : IsOrdered wire
wire-IsOrdered = record {
  sent = λ s. s;
  pending = λ r. r;
  written = λ s bytes h. refl;
  taken = wire_taken;
}

abbrev frames : List Bytes
frames = (1 ∷ 2 ∷ 3 ∷ []) ∷ [] ∷ (4 ∷ []) ∷ []

framed_bytes :
    after wire raw wire-IsOrdered raw-RoundTrips [] frames
    ≡ 0 ∷ 0 ∷ 0 ∷ 3 ∷ 1 ∷ 2 ∷ 3 ∷ 0 ∷ 0 ∷ 0 ∷ 0 ∷ 0 ∷ 0 ∷ 0 ∷ 1 ∷ 4 ∷ []
unfolding send encode_framed to_be_bytes
framed_bytes = refl

frames-AllSent : AllSent wire raw wire-IsOrdered raw-RoundTrips [] frames
unfolding send encode_framed
frames-AllSent = (refl, (refl, (refl, tt)))

received_as_sent_example :
    Receives wire raw wire-IsOrdered raw-RoundTrips
      (after wire raw wire-IsOrdered raw-RoundTrips [] frames ++ (9 ∷ []))
      frames
      (9 ∷ [])
received_as_sent_example =
    received_as_sent wire raw wire-IsOrdered raw-RoundTrips [] frames _ (9 ∷ []) refl frames-AllSent
      refl

from_be_bytes-to_be_bytes_example : from_be_bytes (to_be_bytes 70000) ≡ 70000
from_be_bytes-to_be_bytes_example = from_be_bytes-to_be_bytes 70000 (omega arith)
