-- ===== src/Gateway/Streams.antt =====
-- crates/grimoire-gateway/src/stream.rs: the streams to the services and the requests that wait for
-- their replies. The sending half of a one-shot channel stands in `pending` as a ticket's number, and
-- `tickets` tells what the receiving half sees.
use grimoire.Prelude.{
  ℕ, ◌+◌, Bool, true, false, ◌==◌, if◌then◌else◌, Option, none, some, List, [], ◌∷◌, ◌++◌, Map,
  empty, insert, Text, same, or_else,
}
use grimoire.Bridge.{ForwardRequest, ForwardReply}

pub data Ticket : Type 0 where
  waiting dropped : Ticket
  answered : ForwardReply → Ticket

-- `open_streams` tells of each stream whether it still takes requests; `sent` is what each took.
pub record Streams : Type 0 where
  pub streams : ℕ → Text → Option ℕ
  pub open_streams : Map Bool
  pub pending : ℕ → Map ℕ
  pub tickets : Map Ticket
  pub next_stream : ℕ
  pub next_ticket : ℕ
  pub sent : List (ℕ × ForwardRequest)

abbrev pub init : Streams
init = record {
  streams = λ domain addr. none;
  open_streams = empty;
  pending = λ conn_id. empty;
  tickets = empty;
  next_stream = 0;
  next_ticket = 0;
  sent = [];
}

abbrev pub set_stream : ℕ → Text → Option ℕ → (ℕ → Text → Option ℕ) → ℕ → Text → Option ℕ
set_stream domain addr v m d a = if d == domain then (if same addr a then v else m d a) else m d a

abbrev pub set_pending : ℕ → ℕ → Option ℕ → (ℕ → Map ℕ) → ℕ → Map ℕ
set_pending conn_id seq v m c q = if c == conn_id then (if q == seq then v else m c q) else m c q

-- A sending half that goes away unused.
abbrev pub drop_ticket : Option ℕ → Map Ticket → Map Ticket
drop_ticket none ts = ts
drop_ticket (some t) ts = insert t dropped ts

-- `pending.insert((conn_id, seq), resp_tx)` with a new channel: an older entry's half goes away.
unfoldable pub expect_reply : ℕ → ℕ → Streams → ℕ × Streams
expect_reply conn_id seq s = (
  s.next_ticket,
  record s {
    pending = set_pending conn_id seq (some s.next_ticket) s.pending;
    tickets = insert s.next_ticket waiting (drop_ticket (s.pending conn_id seq) s.tickets);
    next_ticket = s.next_ticket + 1;
  },
)

-- `pending.remove(..)`, with the half that was there.
unfoldable pub forget : ℕ → ℕ → Streams → Streams
forget conn_id seq s = record s {
  pending = set_pending conn_id seq none s.pending;
  tickets = drop_ticket (s.pending conn_id seq) s.tickets;
}

-- A reply that comes in on a stream goes to the request that waits for it.
unfoldable pub receive_reply : ForwardReply → Streams → Streams
receive_reply r s = elim (s.pending r.conn_id r.seq) [
  | none ↦ s
  | some t ↦ record s {
    pending = set_pending r.conn_id r.seq none s.pending;
    tickets = insert t (answered r) s.tickets;
  }
]

-- The end of a stream: its entry goes if it is still this stream's. The waiting requests stay.
unfoldable pub close_stream : ℕ → Text → ℕ → Streams → Streams
close_stream domain addr ref s =
    let closed = record s { open_streams = insert ref false s.open_streams } in
    elim (s.streams domain addr) [
      | none ↦ closed
      | some cur ↦
          if cur == ref
          then record closed { streams = set_stream domain addr none s.streams }
          else closed
    ]

-- A new stream, once the service has taken it.
unfoldable pub open_stream : ℕ → Text → Streams → ℕ × Streams
open_stream domain addr s = (
  s.next_stream,
  record s {
    streams = set_stream domain addr (some s.next_stream) s.streams;
    open_streams = insert s.next_stream true s.open_streams;
    next_stream = s.next_stream + 1;
  },
)

-- Whether the stream took the request.
unfoldable pub send_request : ℕ → ForwardRequest → Streams → Bool × Streams
send_request ref req s =
    if or_else (s.open_streams ref) false
    then (true, record s { sent = s.sent ++ (ref, req) ∷ [] })
    else (false, s)
