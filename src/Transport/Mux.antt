-- ===== src/Transport/Mux.antt =====
-- crates/quicview-transport/src/mux.rs: streams that begin with a byte for their kind. The
-- connection is `quinn`'s, a parameter: its calls change a state that both ends share. Waiting for a
-- call to finish is not modelled.
pub mod Tags
use quicview.Prelude.{ℕ, zero, suc, String, concat, show, List, [], ◌∷◌, Result, ok, err, panic}
use quicview.Protocol.Error.{ProtocolError, decode_error}
use quicview.Transport.Error.{
  TransportError, stream_open_failed, send_failed, recv_failed, protocol, quinn,
}

pub data StreamKind : Type 0 where
  video input control : StreamKind

-- `kind as u8`.
unfoldable pub stream_tag : StreamKind → ℕ
stream_tag video = 0
stream_tag input = 1
stream_tag control = 2

abbrev pub unknown_kind : ℕ → ProtocolError
unknown_kind tag = decode_error (concat ("unknown stream kind: " ∷ show tag ∷ []))

unfoldable pub from_tag : {C W : Type 0} → ℕ → Result (TransportError C W) StreamKind
from_tag zero = ok video
from_tag (suc zero) = ok input
from_tag (suc (suc zero)) = ok control
from_tag (suc (suc (suc v))) = err (protocol (unknown_kind (suc (suc (suc v)))))

-- The calls of a connection, with streams as numbers, and the texts of its errors. `drop_last` is what
-- happens when the last handle of the connection is dropped, with its streams: `quinn` closes it at
-- once.
pub record Connection (S C W R : Type 0) : Type 0 where
  pub open_bi : S → S × Result C ℕ
  pub accept_bi : S → S × Result C ℕ
  pub write_all : ℕ → List ℕ → S → S × Result W (Unit {0})
  pub read_exact : ℕ → ℕ → S → S × Result R (List ℕ)
  pub drop_last : S → S
  pub connection_text : C → String
  pub write_text : W → String
  pub read_text : R → String

-- `.await.map_err(f)?` before the rest of the function.
abbrev pub try_with :
    {S E F A B : Type 0} → (E → F) → S × Result E A → (A → S → S × Result F B) → S × Result F B
try_with f (s, ok a) rest = rest a s
try_with f (s, err e) rest = (s, err (f e))
try_with f (s, panic) rest = (s, panic)

-- The first byte of what `read_exact` filled, as a kind with its stream.
abbrev pub kind_of : {C W : Type 0} → ℕ → List ℕ → Result (TransportError C W) (StreamKind × ℕ)
unfolding from_tag
kind_of stream [] = panic
kind_of stream (tag ∷ rest) = elim (from_tag tag) [
  | ok kind ↦ ok (kind, stream)
  | err e ↦ err e
  | panic ↦ panic
]

module _ {S C W R : Type 0} (conn : Connection S C W R) where
  unfoldable pub open_stream : StreamKind → S → S × Result (TransportError C W) ℕ
  unfolding stream_tag
  open_stream kind s =
      try_with (λ e. stream_open_failed (conn.connection_text e)) (conn.open_bi s)
        (λ stream s1.
          try_with (λ e. send_failed (conn.write_text e))
            (conn.write_all stream (stream_tag kind ∷ []) s1) (λ u s2. (s2, ok stream)))

  unfoldable pub accept_stream : S → S × Result (TransportError C W) (StreamKind × ℕ)
  unfolding kind_of
  accept_stream s = try_with quinn (conn.accept_bi s) (λ stream s1.
      try_with (λ e. recv_failed (conn.read_text e)) (conn.read_exact stream 1 s1)
        (λ bytes s2. (s2, kind_of stream bytes)))
