-- ===== src/Proto/Suite.antt =====
-- The unit tests of crates/gw-proto/src/codec.rs, for any serializer: each is what it compares in its
-- `assert_eq`, and passes when the serializer reads back what it writes.
use tty_gateway.Base.{
  ℕ, ◌-◌, ◌^◌, ◌≤◌, ◌≡◌, ap, List, [], ◌∷◌, map, fun_ext, Bytes, codes, length, take, drop, arith,
}
use native.Mathlib.Nat.{mod-eq_of_lt}
use tty_gateway.Base.Results.{Result, ok, ◌>>=◌, map_err}
use tty_gateway.Proto.Frame.{
  AuthIntent, delegated_key, password, gateway_key, ClientFrame, open_shell, ping, ServerFrame,
  sign_request,
}
use tty_gateway.Proto.Header.{to_be_bytes, from_be_bytes, from_be_bytes-to_be_bytes}
use tty_gateway.Proto.Codec.{
  Postcard, RoundTrips, CodecError, encode, decode, encode_framed, len_prefix, max_frame_len,
}

abbrev sample_open : ClientFrame
sample_open =
    open_shell (record { host = codes "host01.example.com"; port = 22; user = codes "root" })
      (delegated_key (codes "ssh-ed25519 AAAA...")) 120 40

-- `decode(&encode(&frame))`
back_of : {T : Type 0} → Postcard T → T → Result CodecError T
back_of p frame = do bytes ← encode p frame; decode p bytes

client_frame_roundtrip : Postcard ClientFrame → Result CodecError ClientFrame
unfolding back_of
client_frame_roundtrip p = back_of p sample_open

server_frame_roundtrip : Postcard ServerFrame → Result CodecError ServerFrame
unfolding back_of
server_frame_roundtrip p =
    back_of p (sign_request 7 (codes "ssh-ed25519 AAAA...") (1 ∷ 2 ∷ 3 ∷ 4 ∷ 5 ∷ []))

-- The declared length, the length behind the prefix, and the frame that is read back.
framed_carries_a_correct_length_prefix :
    Postcard ClientFrame → Result CodecError (ℕ × ℕ × ClientFrame)
framed_carries_a_correct_length_prefix p = do
  framed ← encode_framed p ping
  back ← decode p (drop len_prefix framed)
  ok (from_be_bytes (take len_prefix framed), length framed - len_prefix, back)

abbrev variants : List AuthIntent
variants =
    delegated_key (9 ∷ 9 ∷ []) ∷ password (codes "hunter2") ∷ gateway_key (codes "ops-key") ∷ []

abbrev open_with : AuthIntent → ClientFrame
open_with auth = open_shell (record { host = codes "h"; port = 22; user = codes "u" }) auth 80 24

auth_intent_variants_roundtrip : Postcard ClientFrame → List (Result CodecError ClientFrame)
unfolding back_of
auth_intent_variants_roundtrip p = map (λ auth. back_of p (open_with auth)) variants

-- A frame that can be written is read back.
back_of_lem :
    {T : Type 0} (p : Postcard T)
    → RoundTrips p
    → (frame : T) (bytes : Bytes) → p.to_stdvec frame ≡ ok bytes
    → back_of p frame ≡ ok frame
unfolding back_of encode decode
back_of_lem p r frame bytes h = rw h (ap (map_err _) (r.back frame bytes h))

module _ (p : Postcard ClientFrame) (r : RoundTrips p) where
  client_frame_roundtrip_lem :
      (bytes : Bytes)
      → p.to_stdvec sample_open ≡ ok bytes
      → client_frame_roundtrip p ≡ ok sample_open
  unfolding client_frame_roundtrip
  client_frame_roundtrip_lem bytes h = back_of_lem p r sample_open bytes h

  auth_intent_variants_roundtrip_lem :
      (bytes : AuthIntent → Bytes)
      → ((auth : AuthIntent) → p.to_stdvec (open_with auth) ≡ ok (bytes auth))
      → auth_intent_variants_roundtrip p ≡ map (λ auth. ok (open_with auth)) variants
  unfolding auth_intent_variants_roundtrip
  auth_intent_variants_roundtrip_lem bytes h =
      ap (λ back. map back variants)
        (fun_ext (λ auth. back_of_lem p r (open_with auth) (bytes auth) (h auth)))

  framed_carries_a_correct_length_prefix_lem :
      (body : Bytes)
      → p.to_stdvec ping ≡ ok body
      → length body ≤ max_frame_len
      → framed_carries_a_correct_length_prefix p ≡ ok (length body, length body, ping)
  unfolding framed_carries_a_correct_length_prefix encode_framed decode to_be_bytes
  framed_carries_a_correct_length_prefix_lem body h fits = ground (
    arith,
    h,
    r.back ping body h,
    mod-eq_of_lt {n = length body} {m = 2 ^ 32},
    from_be_bytes-to_be_bytes (length body),
  )

server_frame_roundtrip_lem :
    (p : Postcard ServerFrame)
    → RoundTrips p
    → (bytes : Bytes)
    → p.to_stdvec (sign_request 7 (codes "ssh-ed25519 AAAA...") (1 ∷ 2 ∷ 3 ∷ 4 ∷ 5 ∷ [])) ≡ ok bytes
    → server_frame_roundtrip p
      ≡ ok (sign_request 7 (codes "ssh-ed25519 AAAA...") (1 ∷ 2 ∷ 3 ∷ 4 ∷ 5 ∷ []))
unfolding server_frame_roundtrip
server_frame_roundtrip_lem p r bytes h = back_of_lem p r _ bytes h
