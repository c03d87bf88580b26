-- ===== src/Core/Scrollback/Cuts.antt =====
-- How the target's output is cut into messages does not show in the scrollback.
use tty_gateway.Base.{
  ◌-◌, ◌^◌, ◌≤◌, ◌<◌, ◌≡◌, ◌∙◌, refl, sym, ap, inl, inr, List, [], ◌∷◌, ◌++◌, Bytes, arith, ltb,
  if◌then◌else◌, length, drop, length-append, length-drop, drop-drop, drop-append_le, Bool-cases,
  append_assoc, append-nil,
}
use tty_gateway.Core.Scrollback.{SessionInner, append, add_u64, max_bytes-append}

-- Within its bounds.
pub record IsTidy (s : SessionInner) : Type 0 where
  pub bounded : length s.buf ≤ s.max_bytes
  pub unwrapped : s.end_offset < 2 ^ 64

SessionInner-ext :
    (s t : SessionInner)
    → s.buf ≡ t.buf
    → s.start_offset ≡ t.start_offset
    → s.end_offset ≡ t.end_offset
    → s.closed ≡ t.closed
    → s.max_bytes ≡ t.max_bytes
    → s ≡ t
SessionInner-ext s t a b c d e =
    λ i. record { buf = a i; start_offset = b i; end_offset = c i; closed = d i; max_bytes = e i }

append-buf :
    (s : SessionInner) (x : Bytes)
    → (append s x).buf ≡ drop (length (s.buf ++ x) - s.max_bytes) (s.buf ++ x)
unfolding append
append-buf s x = elim (Bool-cases (ltb s.max_bytes (length (s.buf ++ x)))) [
  | inl over ↦ rw over refl
  | inr under ↦ rw under (ap (λ n. drop n (s.buf ++ x)) {x = 0} (ground (arith, under)))
]

append-start :
    (s : SessionInner) (x : Bytes)
    → (append s x).start_offset ≡ (
        if ltb s.max_bytes (length (s.buf ++ x))
        then add_u64 s.start_offset (length (s.buf ++ x) - s.max_bytes)
        else s.start_offset)
unfolding append
append-start s x = ground arith

append-end :
    (s : SessionInner) (x : Bytes) → (append s x).end_offset ≡ add_u64 s.end_offset (length x)
unfolding append
append-end s x = ground arith

append-closed : (s : SessionInner) (x : Bytes) → (append s x).closed ≡ s.closed
unfolding append
append-closed s x = ground arith

pub append-IsTidy : (s : SessionInner) (x : Bytes) → IsTidy (append s x)
append-IsTidy s x = record {
  bounded = omega (
    arith,
    ap length (append-buf s x),
    max_bytes-append s x,
    length-drop (length (s.buf ++ x) - s.max_bytes) (s.buf ++ x),
  );
  unwrapped = omega (arith, append-end s x);
}

twice-buf :
    (s : SessionInner) (x y : Bytes)
    → length s.buf ≤ s.max_bytes
    → (append (append s x) y).buf ≡ (append s (x ++ y)).buf
twice-buf s x y h =
    let m = s.max_bytes in
    let cut = length (s.buf ++ x) - m in
    let first : (append s x).buf ++ y ≡ drop cut (s.buf ++ (x ++ y)) =
      ap (λ l. l ++ y) (append-buf s x)
      ∙ sym (drop-append_le cut (s.buf ++ x) y (omega arith))
      ∙ ap (drop cut) (append_assoc s.buf x y) in
    append-buf (append s x) y
    ∙ rw (first, max_bytes-append s x)
        (drop-drop (length (drop cut (s.buf ++ (x ++ y))) - m) cut (s.buf ++ (x ++ y))
          ∙ ap (λ n. drop n (s.buf ++ (x ++ y)))
              (omega (
                arith,
                length-drop cut (s.buf ++ (x ++ y)),
                length-append s.buf (x ++ y),
                length-append x y,
                length-append s.buf x,
              )))
    ∙ sym (append-buf s (x ++ y))

twice-start :
    (s : SessionInner) (x y : Bytes)
    → length s.buf ≤ s.max_bytes
    → (append (append s x) y).start_offset ≡ (append s (x ++ y)).start_offset
twice-start s x y h = ground (
  arith,
  append-start (append s x) y,
  append-start s x,
  append-start s (x ++ y),
  max_bytes-append s x,
  length-append (append s x).buf y,
  ap length (append-buf s x),
  length-drop (length (s.buf ++ x) - s.max_bytes) (s.buf ++ x),
  length-append s.buf x,
  length-append s.buf (x ++ y),
  length-append x y,
)

-- Appending two messages one after the other is appending them at once.
append-append :
    (s : SessionInner) (x y : Bytes)
    → length s.buf ≤ s.max_bytes
    → append (append s x) y ≡ append s (x ++ y)
append-append s x y h =
    SessionInner-ext _ _ (twice-buf s x y h) (twice-start s x y h)
      (omega (
        arith,
        append-end (append s x) y,
        append-end s x,
        append-end s (x ++ y),
        length-append x y,
      ))
      (append-closed (append s x) y ∙ append-closed s x ∙ sym (append-closed s (x ++ y)))
      (max_bytes-append (append s x) y ∙ max_bytes-append s x ∙ sym (max_bytes-append s (x ++ y)))

append_nil : (s : SessionInner) → IsTidy s → append s [] ≡ s
append_nil s h =
    let same : s.buf ++ [] ≡ s.buf = append-nil s.buf in
    SessionInner-ext _ _
      (append-buf s [] ∙ rw same (ap (λ n. drop n s.buf) {y = 0} (omega (arith, h.bounded))))
      (ground (arith, append-start s [], h.bounded, same))
      (omega (arith, append-end s [], h.unwrapped)) (append-closed s []) (max_bytes-append s [])

-- The messages of `spawn_ingest`, one after the other, and the bytes in them.
unfoldable pub feed : SessionInner → List Bytes → SessionInner
feed s [] = s
feed s (x ∷ xs) = feed (append s x) xs

abbrev pub concat : List Bytes → Bytes
concat [] = []
concat (x ∷ xs) = x ++ concat xs

feed-append : (s : SessionInner) (xs : List Bytes) → IsTidy s → feed s xs ≡ append s (concat xs)
unfolding feed
feed-append s [] h = sym (append_nil s h)
feed-append s (x ∷ xs) h =
    feed-append (append s x) xs (append-IsTidy s x) ∙ append-append s x (concat xs) h.bounded

-- However the target's output is cut into messages, the scrollback is the same after them, offsets
-- included, when it was within its bounds before.
pub feed-concat :
    (s : SessionInner) (xs ys : List Bytes)
    → IsTidy s
    → concat xs ≡ concat ys
    → feed s xs ≡ feed s ys
feed-concat s xs ys h e = feed-append s xs h ∙ ap (append s) e ∙ sym (feed-append s ys h)
