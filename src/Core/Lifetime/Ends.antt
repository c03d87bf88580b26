-- ===== src/Core/Lifetime/Ends.antt =====
-- How a session ends.
use tty_gateway.Base.{
  ℕ, zero, suc, ◌≡◌, ◌∙◌, refl, ap, ap₂, Bool, true, false, List, [], ◌∷◌, Bytes, length,
}
use tty_gateway.Core.Lifetime.{
  over, Lifetime, ingest_end, ingest_turn, Turn, ingests, turn, run, spawned,
}
use tty_gateway.Core.Lifetime.Output.{living, ended, run-Flows, spawned-Flows}

abbrev pub times : ℕ → Turn → List Turn
times zero t = []
times (suc n) t = t ∷ times n t

ingest-lem :
    (l : Lifetime) (on : Bool) (queue : List Bytes)
    → l.ingesting ≡ on
    → l.output ≡ queue
    → turn ingests l ≡ ingest_turn l on queue
unfolding turn
ingest-lem l on queue e q = ap₂ (ingest_turn l) e q

drains :
    (queue : List Bytes) (l : Lifetime)
    → l.ssh ≡ over
    → l.ingesting ≡ true
    → l.output ≡ queue
    → (run (times (suc (length queue)) ingests) l).inner.closed ≡ true
unfolding run ingest_turn ingest_end
drains [] l e on q =
    ap (λ (k : Lifetime). k.inner.closed) (ingest-lem l true [] on q ∙ ap (ingest_end l) e)
drains (b ∷ rest) l e on q =
    ap (λ k. (run (times (suc (length rest)) ingests) k).inner.closed)
      (ingest-lem l true (b ∷ rest) on q)
    ∙ drains rest (ingest_turn l true (b ∷ rest)) e on refl

idle : (n : ℕ) (l : Lifetime) → l.ingesting ≡ false → run (times n ingests) l ≡ l
unfolding run ingest_turn
idle zero l e = refl
idle (suc n) l e = ap (run (times n ingests)) (ingest-lem l false l.output e refl) ∙ idle n l e

-- Once the SSH task is over the session is soon marked closed: it takes the ingest task a turn for each
-- chunk that still waits for it, and one more.
pub run-closes :
    (max_bytes : ℕ) (ts : List Turn)
    → (run ts (spawned max_bytes)).ssh ≡ over
    → let l = run ts (spawned max_bytes) in
      (run (times (suc (length l.output)) ingests) l).inner.closed ≡ true
run-closes m ts e =
    let l = run ts (spawned m) in
    elim (run-Flows ts (spawned m) (spawned-Flows m)).phase [
      | living on unclosed ↦ drains l.output l e on refl
      | ended off done empty shut ↦
          ap (λ (k : Lifetime). k.inner.closed) (idle (suc (length l.output)) l off) ∙ shut
    ]
