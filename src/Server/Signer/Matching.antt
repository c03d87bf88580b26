-- ===== src/Server/Signer/Matching.antt =====
-- Which signature a delegated login takes from the client.
use tty_gateway.Base.{
  ℕ, ◌≡◌, ◌≢◌, ap, List, [], ◌∷◌, ◌++◌, Bytes, All, arith, ◌==◌, inl, inr, Bool-cases,
}
use tty_gateway.Base.Results.{ok}
use tty_gateway.Proto.Frame.{
  ClientFrame, hello, open_shell, input, resize, sign_response, ping, close,
}
use tty_gateway.Server.Conn.{Env}
use tty_gateway.Server.Signer.{await_signature}

-- Frames that a signer passes over while it waits for the answer `id`.
pub data IsPassedOver (id : ℕ) : ClientFrame → Type 0 where
  stale : (rid : ℕ) (signature : Bytes) → rid ≢ id → IsPassedOver id (sign_response rid signature)
  alive : IsPassedOver id ping

module _ {W Tx H C K P : Type 0} (env : Env W Tx H C K P) where
  -- The signer returns a signature exactly if the client's frames are keepalives and answers to
  -- other requests, then that signature as the answer `id`, then what is left to read.
  pub record Matches (id : ℕ) (frames : List ClientFrame) (signature : Bytes)
      (left : List ClientFrame) : Type 0 where
    pub passed : List ClientFrame
    pub split : frames ≡ passed ++ (sign_response id signature ∷ left)
    pub over : All (IsPassedOver id) passed

  step_over :
      (id : ℕ) (frame : ClientFrame) (frames left : List ClientFrame) (signature : Bytes)
      → IsPassedOver id frame
      → Matches id frames signature left
      → Matches id (frame ∷ frames) signature left
  step_over id frame frames left signature h m = record {
    passed = frame ∷ m.passed;
    split = ap (λ l. frame ∷ l) m.split;
    over = (h, m.over);
  }

  -- A signature that the signer returns is the client's answer to this very request: before it came
  -- only keepalives and answers to other requests, and what follows it is left to be read.
  pub await_signature-Matches :
      (id : ℕ) (frames left : List ClientFrame) (signature : Bytes)
      → await_signature env id frames ≡ (ok signature, left)
      → Matches id frames signature left
  unfolding await_signature
  await_signature-Matches id [] left signature e = absurd (ground arith)
  await_signature-Matches id (sign_response rid s ∷ frames) left signature e =
      elim (Bool-cases (rid == id)) [
        | inl same ↦ record { passed = []; split = ground (arith, same); over = tt }
        | inr other ↦
            step_over id (sign_response rid s) frames left signature
              (stale rid s (ground (arith, other)))
              (await_signature-Matches id frames left signature (ground (arith, other)))
      ]
  await_signature-Matches id (ping ∷ frames) left signature e =
      step_over id ping frames left signature alive
        (await_signature-Matches id frames left signature e)
  await_signature-Matches id (hello _ _ _ _ ∷ frames) left signature e = absurd (ground arith)
  await_signature-Matches id (open_shell _ _ _ _ ∷ frames) left signature e = absurd (ground arith)
  await_signature-Matches id (input _ ∷ frames) left signature e = absurd (ground arith)
  await_signature-Matches id (resize _ _ ∷ frames) left signature e = absurd (ground arith)
  await_signature-Matches id (close ∷ frames) left signature e = absurd (ground arith)

  -- However many keepalives and late answers come first, the signer does return the answer.
  pub await_signature-append :
      (id : ℕ) (passed left : List ClientFrame) (signature : Bytes)
      → All (IsPassedOver id) passed
      → await_signature env id (passed ++ (sign_response id signature ∷ left))
        ≡ (ok signature, left)
  unfolding await_signature
  await_signature-append id [] left signature h = ground arith
  await_signature-append id (sign_response rid s ∷ passed) left signature (stale _ _ ne, hs) =
      ground (arith, await_signature-append id passed left signature hs, ne)
  await_signature-append id (ping ∷ passed) left signature (alive, hs) =
      await_signature-append id passed left signature hs
  await_signature-append id (hello _ _ _ _ ∷ passed) left signature (bad, hs) = elim bad [ ]
  await_signature-append id (open_shell _ _ _ _ ∷ passed) left signature (bad, hs) = elim bad [ ]
  await_signature-append id (input _ ∷ passed) left signature (bad, hs) = elim bad [ ]
  await_signature-append id (resize _ _ ∷ passed) left signature (bad, hs) = elim bad [ ]
  await_signature-append id (close ∷ passed) left signature (bad, hs) = elim bad [ ]
