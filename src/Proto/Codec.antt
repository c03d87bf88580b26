-- ===== src/Proto/Codec.antt =====
-- crates/gw-proto/src/codec.rs. `postcard` is not part of the program: what it does with a frame
-- type is a parameter, and that it reads back what it writes is a named hypothesis.
use tty_gateway.Base.{
  ℕ, ◌*◌, ◌%◌, ◌^◌, ◌≡◌, ◌++◌, ◌≤◌, ◌<◌, arith, inl, inr, Bytes, Text, length, ltb, if◌then◌else◌,
}
use tty_gateway.Base.Results.{Result, ok, err, ◌>>=◌, map_err, Result-cases}
use native.Mathlib.Nat.{mod-eq_of_lt}
use tty_gateway.Proto.Header.{to_be_bytes}

abbrev pub max_frame_len : ℕ
max_frame_len = 8 * 1024 * 1024

abbrev pub len_prefix : ℕ
len_prefix = 4

-- `postcard::to_stdvec` and `postcard::from_bytes` at one type, errors as their texts.
pub record Postcard (T : Type 0) : Type 0 where
  pub to_stdvec : T → Result Text Bytes
  pub from_bytes : Bytes → Result Text T

-- The documented behaviour that the protocol relies on.
pub record RoundTrips {T : Type 0} (p : Postcard T) : Type 0 where
  pub back :
      (frame : T) (bytes : Bytes) → p.to_stdvec frame ≡ ok bytes → p.from_bytes bytes ≡ ok frame

pub data CodecError : Type 0 where
  serialize deserialize : Text → CodecError
  too_large : ℕ → CodecError

module _ {T : Type 0} (p : Postcard T) where
  unfoldable pub encode : T → Result CodecError Bytes
  encode frame = map_err serialize (p.to_stdvec frame)

  unfoldable pub decode : Bytes → Result CodecError T
  decode bytes = map_err deserialize (p.from_bytes bytes)

  -- `as u32` keeps the low 32 bits.
  unfoldable pub encode_framed : T → Result CodecError Bytes
  unfolding encode
  encode_framed frame = do
    body ← encode frame
    if ltb max_frame_len (length body)
        then err (too_large (length body))
        else ok (to_be_bytes (length body % 2 ^ 32) ++ body)

  -- A frame that is encoded with its prefix is within the limit, and the prefix is its length.
  pub encode_framed_lem :
      (frame : T) (bytes : Bytes)
      → encode_framed frame ≡ ok bytes
      → (body : Bytes) × (p.to_stdvec frame ≡ ok body)
        × (length body ≤ max_frame_len)
        × (bytes ≡ to_be_bytes (length body) ++ body)
  unfolding encode_framed
  encode_framed_lem frame bytes h = elim (Result-cases (p.to_stdvec frame)) [
    | inl (body, e) ↦
        (body, e, ground (arith, e), ground (arith, e, mod-eq_of_lt {n = length body} {m = 2 ^ 32}))
    | inr (x, e) ↦ absurd (ground (arith, e))
  ]

  pub encode_framed_too_large :
      (frame : T) (body : Bytes)
      → p.to_stdvec frame ≡ ok body
      → max_frame_len < length body
      → encode_framed frame ≡ err (too_large (length body))
  unfolding encode_framed
  encode_framed_too_large frame body e big = ground (arith, e)
