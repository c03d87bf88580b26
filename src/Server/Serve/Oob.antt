-- ===== src/Server/Serve/Oob.antt =====
-- What stands in the channel of out-of-band frames.
use tty_gateway.Base.{
  ℕ, ◌≡◌, refl, Bool, true, false, Option, none, some, List, [], ◌∷◌, ◌++◌, Bytes, All, length, ltb,
  arith, get_elem?, if◌then◌else◌,
}
use tty_gateway.Base.Results.{Result, ok, err}
use tty_gateway.Proto.Frame.{
  ClientFrame, hello, open_shell, input, resize, sign_response, ping, close, ServerFrame, pong,
}
use tty_gateway.Core.Registry.{Session}
use tty_gateway.Core.Reader.{Polled, chunk, finished, waiting, panicked, poll}
use tty_gateway.Quota.Float.{Float}
use tty_gateway.Server.Conn.{Conn, Env, recv, send}
use tty_gateway.Server.Serve.{
  Outcome, Sending, selecting, throttled, stopped, oob_capacity, Serving, offer_pong, received,
  receiver_round, receiver_turn, after_send, polled, throttle_turn, next_chunk, chunk_turn,
  oob_turn, Turn, receiver, chunks, oobs, take_turn,
}

abbrev pub Pongs : List ServerFrame → Type 0
Pongs frames = All (λ frame. frame ≡ pong) frames

Pongs-snoc : (frames : List ServerFrame) → Pongs frames → Pongs (frames ++ (pong ∷ []))
Pongs-snoc [] h = (refl, tt)
Pongs-snoc (frame ∷ frames) (h, hs) = (h, Pongs-snoc frames hs)

module _ {W Tx H C K P : Type 0} (f : Float) (now : W → ℕ) (env : Env W Tx H C K P) where
  abbrev Served : Type 0
  Served = Serving f now env

  offered-Pongs :
      (s : Served) (room : Bool)
      → Pongs s.oob
      → Pongs
          (if room
            then record s { oob = s.oob ++ (pong ∷ []); owes_pong = false }
            else record s { owes_pong = true }).oob
  offered-Pongs s true h = Pongs-snoc s.oob h
  offered-Pongs s false h = h

  offer_pong-Pongs :
      (s : Served) (sending : Sending) → Pongs s.oob → Pongs (offer_pong f now env s sending).oob
  unfolding offer_pong
  offer_pong-Pongs s stopped h = h
  offer_pong-Pongs s selecting h = offered-Pongs s (ltb (length s.oob) oob_capacity) h
  offer_pong-Pongs s (throttled _) h = offered-Pongs s (ltb (length s.oob) oob_capacity) h

  received-Pongs :
      (s : Served) (frame : ClientFrame) → Pongs s.oob → Pongs (received f now env s frame).oob
  unfolding received
  received-Pongs s (input _) h = h
  received-Pongs s (resize _ _) h = h
  received-Pongs s ping h = offer_pong-Pongs s s.sending h
  received-Pongs s close h = h
  received-Pongs s (hello _ _ _ _) h = h
  received-Pongs s (open_shell _ _ _ _) h = h
  received-Pongs s (sign_response _ _) h = h

  receiver_round-Pongs :
      (s : Served) (r : Result _ ClientFrame) (c : Conn W Tx)
      → Pongs s.oob
      → Pongs (receiver_round f now env s (r, c)).oob
  unfolding receiver_round
  receiver_round-Pongs s (ok frame) c h = received-Pongs (record s { conn = c }) frame h
  receiver_round-Pongs s (err _) c h = h

  receiver_turn-Pongs :
      (s : Served) (owes : Bool) (outcome : Option Outcome)
      → Pongs s.oob
      → Pongs (receiver_turn f now env s owes outcome).oob
  unfolding receiver_turn
  receiver_turn-Pongs s _ (some _) h = h
  receiver_turn-Pongs s true none h = offer_pong-Pongs s s.sending h
  receiver_turn-Pongs s false none h =
      receiver_round-Pongs s (recv env s.conn).0 (recv env s.conn).1 h

  after_send-Pongs :
      (s : Served) (r : Result _ (Unit {0})) (c : Conn W Tx)
      → Pongs s.oob
      → Pongs (after_send f now env s (r, c)).oob
  unfolding after_send
  after_send-Pongs s (ok _) c h = h
  after_send-Pongs s (err _) c h = h

  polled-Pongs :
      (s : Served) (p : Polled) (cursor : ℕ)
      → Pongs s.oob
      → Pongs (polled f now env s (p, cursor)).oob
  unfolding polled
  polled-Pongs s (chunk _) cursor h = h
  polled-Pongs s finished cursor h = h
  polled-Pongs s waiting cursor h = h
  polled-Pongs s panicked cursor h = h

  throttle_turn-Pongs :
      (s : Served) (b : Bytes) → Pongs s.oob → Pongs (throttle_turn f now env s b).oob
  unfolding throttle_turn after_send
  throttle_turn-Pongs s b h = ground (arith, h)

  next_chunk-Pongs :
      (s : Served) (found : Option (Session Tx))
      → Pongs s.oob
      → Pongs (next_chunk f now env s found).oob
  unfolding next_chunk
  next_chunk-Pongs s none h = h
  next_chunk-Pongs s (some session) h =
      polled-Pongs s (poll s.reader.cursor session.inner).0 (poll s.reader.cursor session.inner).1 h

  chunk_turn-Pongs :
      (s : Served) (sending : Sending) → Pongs s.oob → Pongs (chunk_turn f now env s sending).oob
  unfolding chunk_turn
  chunk_turn-Pongs s selecting h = next_chunk-Pongs s (get_elem? s.conn.manager.heap s.session) h
  chunk_turn-Pongs s (throttled b) h = throttle_turn-Pongs s b h
  chunk_turn-Pongs s stopped h = h

  oob_turn-Pongs :
      (s : Served) (sending : Sending) (oob : List ServerFrame)
      → Pongs s.oob
      → Pongs oob
      → Pongs (oob_turn f now env s sending oob).oob
  unfolding oob_turn
  oob_turn-Pongs s selecting (frame ∷ frames) h (k, ks) =
      after_send-Pongs (record s { oob = frames }) (send env frame s.conn).0
        (send env frame s.conn).1 ks
  oob_turn-Pongs s selecting [] h k = h
  oob_turn-Pongs s (throttled _) oob h k = h
  oob_turn-Pongs s stopped oob h k = h

  -- A turn leaves nothing but pongs in the channel.
  pub take_turn-Pongs :
      (t : Turn f now env) (s : Served) → Pongs s.oob → Pongs (take_turn f now env t s).oob
  unfolding take_turn
  take_turn-Pongs receiver s h = receiver_turn-Pongs s s.owes_pong s.outcome h
  take_turn-Pongs chunks s h = chunk_turn-Pongs s s.sending h
  take_turn-Pongs oobs s h = oob_turn-Pongs s s.sending s.oob h h
