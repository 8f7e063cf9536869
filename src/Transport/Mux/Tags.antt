-- ===== src/Transport/Mux/Tags.antt =====
-- Both ends agree on the kind of a stream.
use quicview.Prelude.{ℕ, zero, suc, ◌≡◌, ◌↔◌, [], ◌∷◌, ok, arith}
use quicview.Transport.Mux.{
  StreamKind, video, input, control, stream_tag, from_tag, kind_of, Connection, open_stream,
  accept_stream,
}

from_tag_iff :
    {C W : Type 0} (kind : StreamKind) (b m : ℕ)
    → (kind_of {C = C} {W = W} m (b ∷ []) ≡ ok (kind, m)) ↔ (b ≡ stream_tag kind)
unfolding from_tag stream_tag
from_tag_iff kind zero m = ground arith
from_tag_iff kind (suc zero) m = ground arith
from_tag_iff kind (suc (suc zero)) m = ground arith
from_tag_iff kind (suc (suc (suc b))) m = ground arith

module _ {S C W R : Type 0} (opener acceptor : Connection S C W R) where
  -- When the opener's connection opens stream `n` and writes the tag of the kind, and the acceptor's
  -- then hands out stream `m` and reads that byte, `open_stream` returns stream `n` and
  -- `accept_stream` returns stream `m` with the opener's kind.
  open-accept :
      (kind : StreamKind) (s s1 s2 s3 s4 : S) (n m : ℕ)
      → opener.open_bi s ≡ (s1, ok n)
      → opener.write_all n (stream_tag kind ∷ []) s1 ≡ (s2, ok tt)
      → acceptor.accept_bi s2 ≡ (s3, ok m)
      → acceptor.read_exact m 1 s3 ≡ (s4, ok (stream_tag kind ∷ []))
      → (open_stream opener kind s ≡ (s2, ok n)) × (accept_stream acceptor s2 ≡ (s4, ok (kind, m)))
  unfolding open_stream accept_stream stream_tag from_tag
  open-accept video s s1 s2 s3 s4 n m o w a r = (simp (o, w), simp (a, r))
  open-accept input s s1 s2 s3 s4 n m o w a r = (simp (o, w), simp (a, r))
  open-accept control s s1 s2 s3 s4 n m o w a r = (simp (o, w), simp (a, r))

module _ {S C W R : Type 0} (conn : Connection S C W R) where
  -- When the connection hands out a stream and reads its first byte, `accept_stream` returns a kind
  -- exactly when the byte is that kind's tag.
  accept_iff_tag :
      (kind : StreamKind) (b m : ℕ) (s s1 s2 : S)
      → conn.accept_bi s ≡ (s1, ok m)
      → conn.read_exact m 1 s1 ≡ (s2, ok (b ∷ []))
      → ((accept_stream conn s).1 ≡ ok (kind, m)) ↔ (b ≡ stream_tag kind)
  unfolding accept_stream from_tag stream_tag
  accept_iff_tag kind b m s s1 s2 a r = simp (a, r) (from_tag_iff kind b m)
