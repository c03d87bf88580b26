-- ===== src/Core/Scrollback.antt =====
-- `SessionInner` of crates/gw-core/src/lib.rs: the bounded scrollback of one session, addressed by
-- absolute offsets into the session's lifetime output.
pub mod Cuts
use tty_gateway.Base.{
  ℕ, ◌+◌, ◌-◌, ◌*◌, ◌%◌, ◌^◌, ◌<◌, ◌≡◌, ◌∙◌, refl, sym, ap, inl, inr, Bool, true, false, [], ◌++◌,
  Bytes, arith, ltb, if◌then◌else◌, length, drop, length-append, length-drop, drop-drop,
  drop-append_le, drop-nil, Bool-cases,
}

abbrev pub default_scrollback_bytes : ℕ
default_scrollback_bytes = 256 * 1024

-- `+=` on a u64.
abbrev pub add_u64 : ℕ → ℕ → ℕ
add_u64 a b = (a + b) % 2 ^ 64

pub record SessionInner : Type 0 where
  pub buf : Bytes
  pub start_offset : ℕ
  pub end_offset : ℕ
  pub closed : Bool
  pub max_bytes : ℕ

-- The buffer of a session that `Session::spawn` makes.
abbrev pub fresh : ℕ → SessionInner
fresh max_bytes = record {
  buf = [];
  start_offset = 0;
  end_offset = 0;
  closed = false;
  max_bytes = max_bytes;
}

-- `self.buf.drain(..excess); self.start_offset += excess`, when the buffer is over its bound.
unfoldable pub trim : SessionInner → SessionInner
trim s =
    let excess = length s.buf - s.max_bytes in
    if ltb s.max_bytes (length s.buf)
    then record s { buf = drop excess s.buf; start_offset = add_u64 s.start_offset excess }
    else s

unfoldable pub append : SessionInner → Bytes → SessionInner
unfolding trim
append s bytes =
    trim (record s { buf = s.buf ++ bytes; end_offset = add_u64 s.end_offset (length bytes) })

-- `session.inner.lock().unwrap().closed = true`, the end of `spawn_ingest`.
abbrev pub close : SessionInner → SessionInner
close s = record s { closed = true }

-- `s` is what is left of the lifetime output `h`: its last `max_bytes` bytes at most, with offsets
-- that did not wrap.
pub record Holds (h : Bytes) (s : SessionInner) : Type 0 where
  pub window : s.buf ≡ drop (length h - s.max_bytes) h
  pub start : s.start_offset ≡ length h - s.max_bytes
  pub stop : s.end_offset ≡ length h
  pub small : length h < 2 ^ 64

pub fresh-Holds : (max_bytes : ℕ) → Holds [] (fresh max_bytes)
fresh-Holds m = record {
  window = sym (drop-nil (0 - m));
  start = omega arith;
  stop = refl;
  small = omega arith;
}

pub length-buf :
    {h : Bytes} {s : SessionInner} → Holds h s → length s.buf ≡ length h - s.start_offset
length-buf {h} {s} v = rw (v.window, v.start) (length-drop (length h - s.max_bytes) h)

-- What the buffer holds after `extend_from_slice`.
extended :
    {h : Bytes} {s : SessionInner} (bytes : Bytes)
    → Holds h s
    → s.buf ++ bytes ≡ drop (length h - s.max_bytes) (h ++ bytes)
extended {h} {s} bytes v =
    rw v.window (sym (drop-append_le (length h - s.max_bytes) h bytes (omega arith)))

-- If the buffer is the last `max_bytes` bytes of the output so far, with the offsets of these bytes, it
-- is so again after `append`, as long as the whole output is fewer than 2 ^ 64 bytes.
pub append-Holds :
    {h : Bytes} {s : SessionInner} (bytes : Bytes)
    → Holds h s
    → length (h ++ bytes) < 2 ^ 64
    → Holds (h ++ bytes) (append s bytes)
unfolding append
append-Holds {h} {s} bytes v fits =
    let from : ℕ = length h - s.max_bytes in
    let long : length (s.buf ++ bytes) ≡ length h + length bytes - from =
      omega (arith, length-append s.buf bytes, length-buf v, v.start) in
    let size = length-append h bytes in
    elim (Bool-cases (ltb s.max_bytes (length (s.buf ++ bytes)))) [
      | inl over ↦ rw over record {
        window =
            ap (drop (length (s.buf ++ bytes) - s.max_bytes)) (extended bytes v)
            ∙ drop-drop (length (s.buf ++ bytes) - s.max_bytes) from (h ++ bytes)
            ∙ ap (λ k. drop k (h ++ bytes)) (ground arith);
        start = ground arith;
        stop = ground arith;
        small = fits;
      }
      | inr under ↦ rw under record {
        window = extended bytes v ∙ ap (λ k. drop k (h ++ bytes)) (ground arith);
        start = ground arith;
        stop = ground arith;
        small = fits;
      }
    ]

pub max_bytes-append : (s : SessionInner) (bytes : Bytes) → (append s bytes).max_bytes ≡ s.max_bytes
unfolding append
max_bytes-append s bytes = ground arith
