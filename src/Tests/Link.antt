-- ===== src/Tests/Link.antt =====
-- A viewer and a host of main.rs over a link in memory that carries one stream each way.
use quicview.Prelude.{
  ℕ, zero, suc, ◌^◌, ◌≡◌, refl, ap, ◌∙◌, List, [], ◌∷◌, ◌++◌, Option, none, some, String, Result,
  ok, err, length, arith,
}
use quicview.Protocol.Message.{ControlMessage, ping, pong}
use quicview.Protocol.Buf.{be_bytes}
use quicview.Transport.Mux.{Connection}
use quicview.Cli.Control.{Json, handle_viewer, send_ping, receive_response}
use quicview.Cli.Control.Exchange.{WorkingEnd, WorkingLink, ping-answered}
use quicview.Cli.Control.Limits.{counted, IsLimited, handle_viewer-IsLimited}

-- The bytes on their way to the host and to the viewer, and the streams not accepted.
pub record Link : Type 0 where
  pub up : List ℕ
  pub down : List ℕ
  pub waiting : List ℕ

-- The first bytes of a list and the rest, if there are so many.
abbrev pub split_at : ℕ → List ℕ → Option (List ℕ × List ℕ)
split_at zero bytes = some ([], bytes)
split_at (suc n) [] = none
split_at (suc n) (b ∷ bytes) = elim (split_at n bytes) [
  | none ↦ none
  | some (front, rest) ↦ some (b ∷ front, rest)
]

split_at-append :
    (bytes rest : List ℕ) → split_at (length bytes) (bytes ++ rest) ≡ some (bytes, rest)
split_at-append [] rest = refl
split_at-append (b ∷ bytes) rest = rw (split_at-append bytes rest) refl

-- What a read of the two directions comes to.
abbrev pub got_up : Link → Option (List ℕ × List ℕ) → Link × Result String (List ℕ)
got_up s none = (s, err "closed")
got_up s (some (front, rest)) = (record s { up = rest }, ok front)

abbrev pub got_down : Link → Option (List ℕ × List ℕ) → Link × Result String (List ℕ)
got_down s none = (s, err "closed")
got_down s (some (front, rest)) = (record s { down = rest }, ok front)

abbrev pub accepted : Link → List ℕ → Link × Result String ℕ
accepted s [] = (s, err "closed")
accepted s (n ∷ ns) = (record s { waiting = ns }, ok n)

abbrev pub viewer : Connection Link String String String
viewer = record {
  open_bi = λ s. (record { up = []; down = []; waiting = s.waiting ++ 0 ∷ [] }, ok 0);
  accept_bi = λ s. (s, err "closed");
  write_all = λ n bytes s. (record s { up = s.up ++ bytes }, ok tt);
  read_exact = λ n k s. got_down s (split_at k s.down);
  drop_last = λ s. s;
  connection_text = λ e. e;
  write_text = λ e. e;
  read_text = λ e. e;
}

abbrev pub host : Connection Link String String String
host = record {
  open_bi = λ s. (s, err "closed");
  accept_bi = λ s. accepted s s.waiting;
  write_all = λ n bytes s. (record s { down = s.down ++ bytes }, ok tt);
  read_exact = λ n k s. got_up s (split_at k s.up);
  drop_last = λ s. record { up = []; down = []; waiting = [] };
  connection_text = λ e. e;
  write_text = λ e. e;
  read_text = λ e. e;
}

abbrev pub up_of : ℕ → Link → List ℕ
up_of n s = s.up

abbrev pub down_of : ℕ → Link → List ℕ
down_of n s = s.down

pub viewer_works : WorkingEnd viewer up_of down_of (λ s. s.waiting)
viewer_works = record {
  window = 2 ^ 21;
  window_fits = omega arith;
  write = λ n bytes s fits. (record s { up = s.up ++ bytes }, refl, refl, refl, refl);
  read = λ n bytes rest s h. (
    record s { down = rest },
    ap (λ d. got_down s (split_at (length bytes) d)) h
        ∙ ap (got_down s) (split_at-append bytes rest),
    refl,
    refl,
    refl,
  );
}

pub host_works : WorkingEnd host down_of up_of (λ s. s.waiting)
host_works = record {
  window = 2 ^ 21;
  window_fits = omega arith;
  write = λ n bytes s fits. (record s { down = s.down ++ bytes }, refl, refl, refl, refl);
  read = λ n bytes rest s h. (
    record s { up = rest },
    ap (λ d. got_up s (split_at (length bytes) d)) h ∙ ap (got_up s) (split_at-append bytes rest),
    refl,
    refl,
    refl,
  );
}

abbrev pub link_works : WorkingLink viewer host
link_works = record {
  to_host = up_of;
  to_viewer = down_of;
  arrivals = λ s. s.waiting;
  viewer_end = viewer_works;
  host_end = host_works;
  open_lem = λ s.
      (0, record { up = []; down = []; waiting = s.waiting ++ 0 ∷ [] }, refl, refl, refl, refl);
  accept_lem = λ n ns s h. (record s { waiting = ns }, ap (accepted s) h, refl, refl, refl);
}

-- A form of pings and pongs.
abbrev pub form_of : ControlMessage → Result String (List ℕ)
form_of (ping t) = ok (0 ∷ t ∷ [])
form_of (pong t) = ok (1 ∷ t ∷ [])
form_of _ = err "not written"

abbrev pub message_of : List ℕ → Result String ControlMessage
message_of (zero ∷ t ∷ []) = ok (ping t)
message_of (suc zero ∷ t ∷ []) = ok (pong t)
message_of _ = err "not read"

abbrev pub serde : Json String
serde = record { to_vec = form_of; from_slice = message_of }

abbrev pub idle : Link
idle = record { up = []; down = []; waiting = [] }

ping-answered_example :
    (n : ℕ) × (s1 s2 : Link) × (send_ping serde viewer 1700000000000 idle ≡ (s1, ok n))
    × (handle_viewer serde host s1 ≡ (host.drop_last s2, ok tt))
    × (s2.down ≡ be_bytes 2 ++ (1 ∷ 1700000000000 ∷ []))
ping-answered_example =
    ping-answered serde viewer host link_works 1700000000000 idle
      (record {
        bytes = 0 ∷ 1700000000000 ∷ [];
        fits = omega arith;
        to_vec_lem = refl;
        from_slice_lem = refl;
      })
      (record {
        bytes = 1 ∷ 1700000000000 ∷ [];
        fits = omega arith;
        to_vec_lem = refl;
        from_slice_lem = refl;
      })
      refl

-- A peer that announces a message of 4 GiB.
abbrev greedy : Link
greedy = record { up = 2 ∷ 255 ∷ 255 ∷ 255 ∷ 255 ∷ []; down = []; waiting = 0 ∷ [] }

handle_viewer-IsLimited_example :
    IsLimited (handle_viewer serde (counted host) (greedy, [])).0
    × IsLimited (receive_response serde (counted host) 0 (greedy, [])).0
handle_viewer-IsLimited_example = handle_viewer-IsLimited serde host 0 (greedy, []) tt
