-- ===== src/Sim/Client.antt =====
-- crates/grimoire-sim/src/client.rs: a connection to the gateway. The sending half of a one-shot channel
-- stands in `responses` as a ticket's number, and `tickets` tells what the receiving half sees.
pub mod Datagrams
pub mod Responses
use grimoire.Prelude.{
  ℕ, zero, suc, ◌+◌, ◌/◌, ◌%◌, ◌^◌, Bool, true, false, ◌==◌, ◌&&◌, if◌then◌else◌, Option, none,
  some, List, [], ◌∷◌, ◌++◌, length, Map, empty, insert, remove, Text, utf8,
}
use grimoire.Common.{sys_conn_id, sys_resume, sys_bind_session, sys_auth}
use grimoire.Net.{PType, Frame}
use grimoire.Net.Word.{u32_be, from_be, byte}

pub data Ticket : Type 0 where
  waiting dropped : Ticket
  answered : Frame → Ticket

-- `writable` tells whether the task that writes to the socket still takes frames; `sent` is what it
-- took, `pushes` what went to the subscribers.
pub record Client : Type 0 where
  pub responses : Map ℕ
  pub tickets : Map Ticket
  pub next_ticket : ℕ
  pub seq : ℕ
  pub conn_id : ℕ
  pub writable : Bool
  pub sent : List Frame
  pub pushes : List Frame

abbrev pub connected : Client
connected = record {
  responses = empty;
  tickets = empty;
  next_ticket = 0;
  seq = 1;
  conn_id = 0;
  writable = true;
  sent = [];
  pushes = [];
}

abbrev pub word_at_start : List ℕ → ℕ
word_at_start p = from_be (byte p 0) (byte p 1) (byte p 2) (byte p 3)

-- Whether the reading task goes on, and the client after one frame.
unfoldable pub receive_response : Frame → Client → Client
receive_response f c = elim (c.responses f.seq) [
  | none ↦ c
  | some t ↦ record c {
    responses = remove f.seq c.responses;
    tickets = insert t (answered f) c.tickets;
  }
]

unfoldable pub receive_push : Frame → Client → Client
receive_push f c =
    if f.msg_id == sys_conn_id && length f.payload == 4
    then record c { conn_id = word_at_start f.payload }
    else record c { pushes = c.pushes ++ f ∷ [] }

abbrev pub receive_as : PType → Frame → Client → Bool × Client
receive_as PType.request f c = (true, c)
receive_as PType.response f c = (true, receive_response f c)
receive_as PType.push f c = (true, receive_push f c)
receive_as PType.heartbeat f c = (true, c)
receive_as PType.close f c = (false, c)

unfoldable pub receive : Frame → Client → Bool × Client
receive f c = receive_as f.ptype f c

-- The reading task, until it is told to close.
unfoldable pub receive_all : List Frame → Client → Client
receive_all [] c = c
receive_all (f ∷ fs) c =
    let (more, d) = receive f c in let rest = receive_all fs d in if more then rest else d

abbrev pub request_frame : ℕ → ℕ → List ℕ → Frame
request_frame seq msg_id payload = record {
  ptype = PType.request;
  msg_id = msg_id;
  seq = seq;
  payload = payload;
}

abbrev drop_ticket : Option ℕ → Map Ticket → Map Ticket
drop_ticket none ts = ts
drop_ticket (some t) ts = insert t dropped ts

-- A new channel under the next number: an older entry's half goes away.
unfoldable pub expect_response : Client → ℕ × ℕ × Client
expect_response c = (
  c.seq,
  c.next_ticket,
  record c {
    seq = (c.seq + 1) % 2 ^ 32;
    responses = insert c.seq c.next_ticket c.responses;
    tickets = insert c.next_ticket waiting (drop_ticket (c.responses c.seq) c.tickets);
    next_ticket = c.next_ticket + 1;
  },
)

-- Whether the writing task took the frame.
unfoldable pub send : Frame → Client → Bool × Client
send f c = if c.writable then (true, record c { sent = c.sent ++ f ∷ [] }) else (false, c)

-- `request` up to the wait: the ticket to wait for, unless the frame was not sent.
unfoldable pub start_request : ℕ → List ℕ → Client → Option ℕ × Client
start_request msg_id payload c =
    let (seq, t, d) = expect_response c in
    let (taken, e) = send (request_frame seq msg_id payload) d in
    (if taken then some t else none, e)

pub data RequestError : Type 0 where
  not_sent timed_out channel_closed : RequestError
  server_error : List ℕ → RequestError

pub data Reply : Type 0 where
  frame : Frame → Reply
  failed : RequestError → Reply

-- Message number 0 is an error of the server, with its text.
unfoldable pub checked : Frame → Reply
checked f = if f.msg_id == 0 then failed (server_error f.payload) else frame f

-- What the receiving half sees, once it has come to something or five seconds have run out.
unfoldable pub reply_of : Option Ticket → Reply
reply_of none = failed channel_closed
reply_of (some waiting) = failed timed_out
reply_of (some dropped) = failed channel_closed
reply_of (some (answered f)) = checked f

unfoldable pub finish_request : Option ℕ → Client → Reply
finish_request none c = failed not_sent
finish_request (some t) c = reply_of (c.tickets t)

abbrev pub resume_payload : ℕ → List ℕ
resume_payload old_conn_id = u32_be old_conn_id []

-- The end of `resume`: whether the gateway has moved the connection.
unfoldable pub finish_resume : Reply → Client → Bool × Client
finish_resume (failed e) c = (false, c)
finish_resume (frame r) c =
    if r.msg_id == sys_resume && length r.payload == 4
    then (true, record c { conn_id = word_at_start r.payload })
    else (false, c)

-- `(domain >> 24) as u8` before the session's number.
abbrev pub bind_payload : ℕ → ℕ → List ℕ
bind_payload domain session_id = (domain / 2 ^ 24 % 256) ∷ u32_be session_id []

abbrev pub is_reply_to : ℕ → Reply → Bool
is_reply_to msg_id (failed e) = false
is_reply_to msg_id (frame r) = r.msg_id == msg_id

abbrev pub finish_bind_session : Reply → Bool
finish_bind_session r = is_reply_to sys_bind_session r

abbrev pub finish_auth : Reply → Bool
finish_auth r = is_reply_to sys_auth r

abbrev pub heartbeat_frame : Frame
heartbeat_frame = record { ptype = PType.heartbeat; msg_id = 0; seq = 0; payload = [] }

-- One round of the heartbeat.
abbrev pub heartbeat : Client → Bool × Client
heartbeat c = send heartbeat_frame c

-- The rounds left of the wait for a number; `reading` is what a round reads.
unfoldable pub wait_rounds : ℕ → (ℕ → ℕ) → ℕ
wait_rounds zero reading = 0
wait_rounds (suc left) reading =
    let rest = wait_rounds left reading in if reading left == 0 then rest else reading left

abbrev pub wait_conn_id : (ℕ → ℕ) → ℕ
wait_conn_id reading = wait_rounds 20 reading
