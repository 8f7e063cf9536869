-- ===== src/Cli/Control/Exchange.antt =====
-- The host of main.rs answers a viewer's ping.
use quicview.Prelude.{
  ℕ, ◌+◌, length-append, ◌≤◌, ◌%◌, ◌^◌, ◌≡◌, ◌∙◌, ap, sym, String, List, [], ◌∷◌, ◌++◌, length, ok,
  false, ltb, arith,
}
use mathlib.Core.List.{append_assoc, append-nil}
use quicview.Protocol.Buf.{be_bytes, be_word_bytes}
use quicview.Protocol.Message.{ControlMessage, ping, pong}
use quicview.Transport.Mux.{Connection, stream_tag, from_tag, open_stream, accept_stream}
use quicview.Cli.Control.{
  Json, max_control_message_size, write_message, read_payload, read_message, answer, serve_stream,
  serve_viewer, handle_viewer, host_too_large, send_ping,
}

-- One end of a connection that does not fail: what it writes to a stream joins the bytes on their
-- way out, if all of them fit in the window that the peer grants before it reads, which has room for
-- a control message; and it reads the bytes on their way in once there are enough. `arrivals` are
-- the streams that the host has not accepted.
pub record WorkingEnd {S C W R : Type 0} (conn : Connection S C W R) (out inn : ℕ → S → List ℕ)
    (arrivals : S → List ℕ) : Type 0 where
  pub window : ℕ
  pub window_fits : 5 + max_control_message_size ≤ window
  pub write :
      (n : ℕ) (bytes : List ℕ) (s : S)
      → length (out n s) + length bytes ≤ window
      → (s1 : S) × (conn.write_all n bytes s ≡ (s1, ok tt))
        × (out n s1 ≡ out n s ++ bytes)
        × (inn n s1 ≡ inn n s)
        × (arrivals s1 ≡ arrivals s)
  pub read :
      (n : ℕ) (bytes rest : List ℕ) (s : S)
      → inn n s ≡ bytes ++ rest
      → (s1 : S) × (conn.read_exact n (length bytes) s ≡ (s1, ok bytes))
        × (inn n s1 ≡ rest)
        × (out n s1 ≡ out n s)
        × (arrivals s1 ≡ arrivals s)

-- The message has a JSON form within the limit, which is read back.
pub record ReadsBack {J : Type 0} (serde : Json J) (m : ControlMessage) : Type 0 where
  pub bytes : List ℕ
  pub fits : length bytes ≤ max_control_message_size
  pub to_vec_lem : serde.to_vec m ≡ ok bytes
  pub from_slice_lem : serde.from_slice bytes ≡ ok m

module _ {S C W R J : Type 0} (serde : Json J) (conn : Connection S C W R)
    (out inn : ℕ → S → List ℕ) (arrivals : S → List ℕ)
    (end : WorkingEnd conn out inn arrivals) where
  write_message_lem :
      (n : ℕ) (m : ControlMessage) (l : ReadsBack serde m) (s : S)
      → length (out n s) ≤ 1
      → (s1 : S) × (write_message serde conn n m s ≡ (s1, ok tt))
        × (out n s1 ≡ out n s ++ (be_bytes (length l.bytes) ++ l.bytes))
        × (inn n s1 ≡ inn n s)
        × (arrivals s1 ≡ arrivals s)
  unfolding write_message
  write_message_lem n m l s few =
      let fits = l.fits in
      let room = end.window_fits in
      let (s1, w1, o1, i1, a1) =
        end.write n (be_bytes (length l.bytes % 2 ^ 32)) s (omega (arith, few, room)) in
      let sent = ap length o1 ∙ length-append (out n s) (be_bytes (length l.bytes % 2 ^ 32)) in
      let (s2, w2, o2, i2, a2) = end.write n l.bytes s1 (omega (arith, few, room, fits, sent)) in
      let small : length l.bytes % 2 ^ 32 ≡ length l.bytes = ground arith in
      (
        s2,
        simp (l.to_vec_lem, w1, w2),
        o2
            ∙ ap (λ sent. sent ++ l.bytes) o1
            ∙ append_assoc (out n s) (be_bytes (length l.bytes % 2 ^ 32)) l.bytes
            ∙ ap (λ k. out n s ++ (be_bytes k ++ l.bytes)) small,
        i2 ∙ i1,
        a2 ∙ a1,
      )

  read_message_lem :
      (too_large : ℕ → String) (n : ℕ) (m : ControlMessage) (l : ReadsBack serde m) (rest : List ℕ)
      (s : S)
      → inn n s ≡ be_bytes (length l.bytes) ++ (l.bytes ++ rest)
      → (s1 : S) × (read_message serde conn too_large n s ≡ (s1, ok m))
        × (inn n s1 ≡ rest)
        × (out n s1 ≡ out n s)
        × (arrivals s1 ≡ arrivals s)
  unfolding read_message read_payload
  read_message_lem too_large n m l rest s h =
      let fits = l.fits in
      let (s1, r1, i1, o1, a1) = end.read n (be_bytes (length l.bytes)) (l.bytes ++ rest) s h in
      let (s2, r2, i2, o2, a2) = end.read n l.bytes rest s1 i1 in
      let small : ltb max_control_message_size (length l.bytes) ≡ false = ground arith in
      (s2, simp (r1, be_word_bytes, small, r2, l.from_slice_lem), i2, o2 ∙ o1, a2 ∙ a1)

-- Both ends, with the opening of a stream by the viewer and its acceptance by the host.
pub record WorkingLink {S C W R : Type 0} (viewer host : Connection S C W R) : Type 0 where
  pub to_host : ℕ → S → List ℕ
  pub to_viewer : ℕ → S → List ℕ
  pub arrivals : S → List ℕ
  pub viewer_end : WorkingEnd viewer to_host to_viewer arrivals
  pub host_end : WorkingEnd host to_viewer to_host arrivals
  pub open_lem :
      (s : S)
      → (n : ℕ) × (s1 : S) × (viewer.open_bi s ≡ (s1, ok n))
        × (to_host n s1 ≡ [])
        × (to_viewer n s1 ≡ [])
        × (arrivals s1 ≡ arrivals s ++ (n ∷ []))
  pub accept_lem :
      (n : ℕ) (ns : List ℕ) (s : S)
      → arrivals s ≡ n ∷ ns
      → (s1 : S) × (host.accept_bi s ≡ (s1, ok n))
        × (arrivals s1 ≡ ns)
        × (to_host n s1 ≡ to_host n s)
        × (to_viewer n s1 ≡ to_viewer n s)

module _ {S C W R J : Type 0} (serde : Json J) (viewer host : Connection S C W R)
    (link : WorkingLink viewer host) where
  -- A payload as it goes over the stream.
  abbrev framed : List ℕ → List ℕ
  framed payload = be_bytes (length payload) ++ payload

  framed_nil : (payload : List ℕ) → framed payload ≡ be_bytes (length payload) ++ (payload ++ [])
  framed_nil payload = ap (λ x. be_bytes (length payload) ++ x) (sym (append-nil payload))

  -- The host's half, on a stream that carries one ping.
  handle_viewer_lem :
      (n t : ℕ) (s : S) (asked : ReadsBack serde (ping t)) (answered : ReadsBack serde (pong t))
      → link.arrivals s ≡ n ∷ []
      → link.to_host n s ≡ 2 ∷ framed asked.bytes
      → link.to_viewer n s ≡ []
      → (s1 : S) × (handle_viewer serde host s ≡ (host.drop_last s1, ok tt))
        × (link.to_viewer n s1 ≡ framed answered.bytes)
  unfolding handle_viewer serve_viewer accept_stream from_tag serve_stream answer
  handle_viewer_lem n t s asked answered waiting sent none =
      let (s1, accepted, a1, h1, v1) = link.accept_lem n [] s waiting in
      let (s2, tagged, h2, v2, a2) =
        link.host_end.read n (2 ∷ []) (framed asked.bytes) s1 (h1 ∙ sent) in
      let (s3, got, h3, v3, a3) =
        read_message_lem serde host link.to_viewer link.to_host link.arrivals link.host_end
          host_too_large n (ping t) asked [] s2 (h2 ∙ framed_nil asked.bytes) in
      let silent = v3 ∙ v2 ∙ v1 ∙ none in
      let (s4, put, v4, h4, a4) =
        write_message_lem serde host link.to_viewer link.to_host link.arrivals link.host_end n
          (pong t) answered s3 (omega (arith, ap length silent)) in
      (
        s4,
        simp (accepted, tagged, got, put),
        v4 ∙ ap (λ sent. sent ++ framed answered.bytes) silent,
      )

  -- Over a connection whose calls succeed, whose windows have room for a control message, and whose
  -- host has accepted every stream before, and with a ping and a pong whose JSON is within the limit
  -- and reads back: the viewer opens a control stream and sends a ping with its clock; and
  -- `handle_viewer` on the host then returns without an error, after it has written the pong with
  -- the same timestamp, and nothing else, to that stream, and then dropped the connection.
  pub ping-answered :
      (now : ℕ) (s : S) (asked : ReadsBack serde (ping (now % 2 ^ 64)))
      (answered : ReadsBack serde (pong (now % 2 ^ 64)))
      → link.arrivals s ≡ []
      → (n : ℕ) × (s1 s2 : S) × (send_ping serde viewer now s ≡ (s1, ok n))
        × (handle_viewer serde host s1 ≡ (host.drop_last s2, ok tt))
        × (link.to_viewer n s2 ≡ be_bytes (length answered.bytes) ++ answered.bytes)
  unfolding send_ping open_stream stream_tag
  ping-answered now s asked answered none =
      let t = now % 2 ^ 64 in
      let room = link.viewer_end.window_fits in
      let (n, s1, opened, h1, v1, a1) = link.open_lem s in
      let (s2, tagged, h2, v2, a2) =
        link.viewer_end.write n (2 ∷ []) s1 (omega (arith, ap length h1, room)) in
      let few = ap length (h2 ∙ ap (λ sent. sent ++ (2 ∷ [])) h1) in
      let (s3, put, h3, v3, a3) =
        write_message_lem serde viewer link.to_host link.to_viewer link.arrivals link.viewer_end n
          (ping t) asked s2 (omega (arith, few)) in
      let (s4, served, v4) =
        handle_viewer_lem n t s3 asked answered (a3 ∙ a2 ∙ a1 ∙ ap (λ ns. ns ++ (n ∷ [])) none)
          (h3 ∙ ap (λ sent. sent ++ framed asked.bytes) (h2 ∙ ap (λ sent. sent ++ (2 ∷ [])) h1))
          (v3 ∙ v2 ∙ v1) in
      (n, s3, s4, simp (opened, tagged, put), served, v4)
