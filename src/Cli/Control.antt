-- ===== src/Cli/Control.antt =====
-- crates/quicview-cli/src/main.rs: the control stream, from the viewer's end (`connect`) and the
-- host's (`handle_viewer`). The connection is a parameter, and so are the functions of serde_json.
-- Waiting is not modelled: a call comes to its result.
pub mod Limits
pub mod Exchange
use quicview.Prelude.{
  ℕ, ◌*◌, ◌%◌, ◌^◌, String, concat, show, List, [], ◌∷◌, length, Result, ok, err, panic, ltb,
  if◌then◌else◌,
}
use quicview.Protocol.Buf.{be_bytes, be_word}
use quicview.Protocol.Message.{ControlMessage, ping, pong}
use quicview.Transport.Error.{TransportError}
use quicview.Transport.Mux.{
  Connection, StreamKind, video, input, control, open_stream, accept_stream, try_with,
}

-- `MAX_CONTROL_MESSAGE_SIZE` of crates/quicview-transport/src/cert.rs.
abbrev pub max_control_message_size : ℕ
max_control_message_size = 1024 * 1024

-- What the functions put into a `Box<dyn Error>`.
pub data SessionError (C W R J : Type 0) : Type 0 where
  transport : TransportError C W → SessionError C W R J
  not_written : W → SessionError C W R J
  not_read : R → SessionError C W R J
  json : J → SessionError C W R J
  message : String → SessionError C W R J

-- `serde_json::to_vec` and `serde_json::from_slice` at the control messages.
pub record Json (J : Type 0) : Type 0 where
  pub to_vec : ControlMessage → Result J (List ℕ)
  pub from_slice : List ℕ → Result J ControlMessage

-- `u32::from_be_bytes`, of the four bytes that were read.
abbrev pub from_be_bytes : {E : Type 0} → List ℕ → Result E ℕ
from_be_bytes (a ∷ b ∷ c ∷ d ∷ []) = ok (be_word a b c d)
from_be_bytes _ = panic

abbrev pub host_too_large : ℕ → String
host_too_large len = concat (
    "control message too large: "
    ∷ show len
    ∷ " bytes (max "
    ∷ show max_control_message_size
    ∷ ")"
    ∷ [])

abbrev pub viewer_too_large : ℕ → String
viewer_too_large len = concat ("control response too large: " ∷ show len ∷ " bytes" ∷ [])

module _ {S C W R J : Type 0} (serde : Json J) (conn : Connection S C W R) where
  -- `to_vec`, then the length as four bytes, then the payload.
  unfoldable pub write_message :
      ℕ → ControlMessage → S → S × Result (SessionError C W R J) (Unit {0})
  write_message stream m s =
      try_with json (s, serde.to_vec m)
        (λ payload s1.
          try_with not_written (conn.write_all stream (be_bytes (length payload % 2 ^ 32)) s1)
            (λ u s2. try_with not_written (conn.write_all stream payload s2) (λ v s3. (s3, ok tt))))

  -- The payload of the given length, and its message.
  unfoldable pub read_payload :
      (ℕ → String) → ℕ → ℕ → S → S × Result (SessionError C W R J) ControlMessage
  read_payload too_large stream len s =
      if ltb max_control_message_size len
      then (s, err (message (too_large len)))
      else try_with not_read (conn.read_exact stream len s)
          (λ buf s1. try_with json (s1, serde.from_slice buf) (λ m s2. (s2, ok m)))

  unfoldable pub read_message :
      (ℕ → String) → ℕ → S → S × Result (SessionError C W R J) ControlMessage
  read_message too_large stream s = try_with not_read (conn.read_exact stream 4 s) (λ len_buf s1.
      try_with {F = SessionError C W R J} (λ e. e) (s1, from_be_bytes len_buf)
        (λ len s2. read_payload too_large stream len s2))

  -- Pong if ping.
  unfoldable pub answer : ℕ → ControlMessage → S → S × Result (SessionError C W R J) (Unit {0})
  answer stream (ping timestamp_ms) s = write_message stream (pong timestamp_ms) s
  answer stream _ s = (s, ok tt)

  unfoldable pub serve_stream : StreamKind → ℕ → S → S × Result (SessionError C W R J) (Unit {0})
  serve_stream control stream s =
      try_with {F = SessionError C W R J} (λ e. e) (read_message host_too_large stream s)
        (λ m s1. answer stream m s1)
  serve_stream video stream s = (s, ok tt)
  serve_stream input stream s = (s, ok tt)

  -- The body, up to the drops at its end.
  unfoldable pub serve_viewer : S → S × Result (SessionError C W R J) (Unit {0})
  serve_viewer s =
      try_with transport (accept_stream conn s) (λ (kind, stream) s1. serve_stream kind stream s1)

  -- `mux`, `send` and `recv` are dropped on every path, and `mux` is the only handle of the connection.
  unfoldable pub handle_viewer : S → S × Result (SessionError C W R J) (Unit {0})
  handle_viewer s = let (s1, r) = serve_viewer s in (conn.drop_last s1, r)

  -- The viewer's half before it waits for the response, from the clock's milliseconds.
  unfoldable pub send_ping : ℕ → S → S × Result (SessionError C W R J) ℕ
  send_ping now s = try_with transport (open_stream conn control s) (λ stream s1.
      try_with {F = SessionError C W R J} (λ e. e) (write_message stream (ping (now % 2 ^ 64)) s1)
        (λ u s2. (s2, ok stream)))

  -- The rest of it.
  unfoldable pub receive_response : ℕ → S → S × Result (SessionError C W R J) ControlMessage
  receive_response stream s = read_message viewer_too_large stream s
