-- ===== src/Cli/Control/Limits.antt =====
-- What a peer can make the host and the viewer of main.rs read.
use quicview.Prelude.{
  ℕ, ◌≤◌, String, List, ◌∷◌, All, Result, ok, err, panic, ltb, arith, inl, inr, Bool-cases,
}
use quicview.Protocol.Message.{ControlMessage, ping, pong}
use quicview.Transport.Mux.{Connection, StreamKind, video, input, control, accept_stream, try_with}
use quicview.Cli.Control.{
  Json, SessionError, max_control_message_size, write_message, read_payload, read_message, answer,
  from_be_bytes, host_too_large, viewer_too_large, serve_stream, serve_viewer, handle_viewer,
  receive_response,
}

-- The same connection, with a log of how many bytes each `read_exact` asks for.
abbrev pub counted : {S C W R : Type 0} → Connection S C W R → Connection (S × List ℕ) C W R
counted conn = record {
  open_bi = λ (s, log). let (s1, r) = conn.open_bi s in ((s1, log), r);
  accept_bi = λ (s, log). let (s1, r) = conn.accept_bi s in ((s1, log), r);
  write_all = λ n bytes (s, log). let (s1, r) = conn.write_all n bytes s in ((s1, log), r);
  read_exact = λ n k (s, log). let (s1, r) = conn.read_exact n k s in ((s1, k ∷ log), r);
  drop_last = λ (s, log). (conn.drop_last s, log);
  connection_text = conn.connection_text;
  write_text = conn.write_text;
  read_text = conn.read_text;
}

-- A property of the state that each part keeps is kept by `try_with`.
try_with-keeps :
    {S E F A B : Type 0} (P : S → Type 0) (f : E → F) (r : S × Result E A)
    (rest : A → S → S × Result F B)
    → P r.0
    → ((a : A) (s : S) → P s → P (rest a s).0)
    → P (try_with f r rest).0
try_with-keeps P f (s, ok a) rest h k = k a s h
try_with-keeps P f (s, err e) rest h k = h
try_with-keeps P f (s, panic) rest h k = h

abbrev pub IsLimited : {S : Type 0} → S × List ℕ → Type 0
IsLimited (s, log) = All (λ k. k ≤ max_control_message_size) log

module _ {S C W R J : Type 0} (serde : Json J) (conn : Connection S C W R) where
  abbrev logged : Connection (S × List ℕ) C W R
  logged = counted conn

  write_message-IsLimited :
      (stream : ℕ) (m : ControlMessage) (s : S × List ℕ)
      → IsLimited s
      → IsLimited (write_message serde logged stream m s).0
  unfolding write_message
  write_message-IsLimited stream m s h =
      try_with-keeps IsLimited _ (s, serde.to_vec m) _ h
        (λ payload s1 h1.
          try_with-keeps IsLimited _ (logged.write_all _ _ s1) _ h1
            (λ u s2 h2. try_with-keeps IsLimited _ (logged.write_all _ _ s2) _ h2 (λ v s3 h3. h3)))

  read_payload-IsLimited :
      (too_large : ℕ → String) (stream len : ℕ) (s : S × List ℕ)
      → IsLimited s
      → IsLimited (read_payload serde logged too_large stream len s).0
  unfolding read_payload
  read_payload-IsLimited too_large stream len s h =
      elim (Bool-cases (ltb max_control_message_size len)) [
        | inl big ↦ rw big h
        | inr small ↦ rw small (
            try_with-keeps IsLimited _ (logged.read_exact stream len s) _ (ground arith, h)
              (λ buf s1 h1.
                try_with-keeps IsLimited _ (s1, serde.from_slice buf) _ h1 (λ m s2 h2. h2)))
      ]

  read_message-IsLimited :
      (too_large : ℕ → String) (stream : ℕ) (s : S × List ℕ)
      → IsLimited s
      → IsLimited (read_message serde logged too_large stream s).0
  unfolding read_message
  read_message-IsLimited too_large stream s h =
      try_with-keeps IsLimited _ (logged.read_exact stream 4 s) _ (ground arith, h)
        (λ buf s1 h1.
          try_with-keeps IsLimited (λ e. e) (s1, from_be_bytes {E = SessionError C W R J} buf) _ h1
            (λ len s2 h2. read_payload-IsLimited too_large stream len s2 h2))

  accept_stream-IsLimited : (s : S × List ℕ) → IsLimited s → IsLimited (accept_stream logged s).0
  unfolding accept_stream
  accept_stream-IsLimited s h = try_with-keeps IsLimited _ (logged.accept_bi s) _ h (λ stream s1 h1.
      try_with-keeps IsLimited _ (logged.read_exact stream 1 s1) _ (ground arith, h1)
        (λ bytes s2 h2. h2))

  answer-IsLimited :
      (stream : ℕ) (m : ControlMessage) (s : S × List ℕ)
      → IsLimited s
      → IsLimited (answer serde logged stream m s).0
  unfolding answer
  answer-IsLimited stream (ping t) s h = write_message-IsLimited stream (pong t) s h
  answer-IsLimited stream _ s h = h

  serve_stream-IsLimited :
      (kind : StreamKind) (stream : ℕ) (s : S × List ℕ)
      → IsLimited s
      → IsLimited (serve_stream serde logged kind stream s).0
  unfolding serve_stream
  serve_stream-IsLimited control stream s h =
      try_with-keeps IsLimited (λ e. e) (read_message serde logged host_too_large stream s) _
        (read_message-IsLimited host_too_large stream s h)
        (λ m s1 h1. answer-IsLimited stream m s1 h1)
  serve_stream-IsLimited video stream s h = h
  serve_stream-IsLimited input stream s h = h

  -- Whatever the peer sends and however the connection and serde_json answer, `handle_viewer` on the
  -- host and the viewer's reading of the response never ask for more than
  -- `MAX_CONTROL_MESSAGE_SIZE` bytes at once, so no longer buffer is filled. The log of the sizes is
  -- taken to hold none above the limit before.
  pub handle_viewer-IsLimited :
      (stream : ℕ) (s : S × List ℕ)
      → IsLimited s
      → IsLimited (handle_viewer serde logged s).0
        × IsLimited (receive_response serde logged stream s).0
  unfolding handle_viewer serve_viewer receive_response
  handle_viewer-IsLimited stream s h = (
    try_with-keeps IsLimited _ (accept_stream logged s) _ (accept_stream-IsLimited s h)
        (λ (kind, n) s1 h1. serve_stream-IsLimited kind n s1 h1),
    read_message-IsLimited viewer_too_large stream s h,
  )
