-- ===== src/Core/Reader/Delivery/Chunk.antt =====
-- How large a chunk `next` may return.
use tty_gateway.Base.{
  ℕ, ◌-◌, ◌^◌, ◌≤◌, ◌<◌, ◌≡◌, ◌∙◌, sym, List, Bytes, length, length-drop, max, arith,
}
use tty_gateway.Core.Scrollback.{SessionInner}
use tty_gateway.Core.Reader.{chunk, poll, answer}
use tty_gateway.Core.Reader.Delivery.{Event, run, start, total, max_bytes-run}
use tty_gateway.Core.Reader.Delivery.Lossy.{next-answer}

small_answer :
    (h : Bytes) (s : SessionInner) (cursor : ℕ) (bytes : Bytes) (end : ℕ)
    → answer h s cursor ≡ (chunk bytes, end)
    → length bytes ≤ s.max_bytes
small_answer h s cursor bytes end e =
    ground (arith, length-drop (max cursor (length h - s.max_bytes)) h)

-- After any schedule of fewer than 2 ^ 64 bytes, a chunk that `next` returns is not longer than the
-- scrollback, however much output came since the last call.
pub next-length :
    (max_bytes : ℕ) (es : List Event) (bytes : Bytes) (end : ℕ)
    → total es < 2 ^ 64
    → (let l = run (start max_bytes) es in poll l.cursor l.inner ≡ (chunk bytes, end))
    → length bytes ≤ max_bytes
next-length m es bytes end fits e =
    let l = run (start m) es in
    omega (
      arith,
      small_answer l.history l.inner l.cursor bytes end (sym (next-answer m es fits) ∙ e),
      max_bytes-run (start m) es,
    )
