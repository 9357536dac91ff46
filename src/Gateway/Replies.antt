-- ===== src/Gateway/Replies.antt =====
-- Which request a reply goes to.
use grimoire.Prelude.{
  ℕ, ◌<◌, ◌≡◌, ◌≢◌, ◌⊎◌, sym, List, Has, ◌==◌, if◌then◌else◌, Bool-cases, refl, ap, ◌∙◌, arith,
  true, none, some, [], ◌∷◌, ◌++◌, inl, inr, Option-cases, codes, Text,
}
use grimoire.Bridge.{ForwardReply}
use grimoire.Net.{Frame, PType}
use grimoire.Gateway.{Session, Ctx, send, to_client, response}
use grimoire.Gateway.Streams.{Streams, dropped, answered, expect_reply, forget, receive_reply}
use grimoire.Gateway.Forwarding.{Hub, Outside, done, expect, invalidate_session}
use grimoire.Gateway.Requests.{finish_request, finish_with, fail_request, reply_frame}

-- A reply goes to the request that waits under its connection and sequence number, whose task then
-- sees it; the request waits no longer, so a second reply with these numbers changes nothing.
pub receive_reply-answers :
    (s : Streams) (r r' : ForwardReply) (t : ℕ)
    → s.pending r.conn_id r.seq ≡ some t
    → r'.conn_id ≡ r.conn_id
    → r'.seq ≡ r.seq
    → ((receive_reply r s).tickets t ≡ some (answered r))
      × ((receive_reply r s).pending r.conn_id r.seq ≡ none)
      × (receive_reply r' (receive_reply r s) ≡ receive_reply r s)
unfolding receive_reply
receive_reply-answers s r r' t h c q = ground arith

pub send_open :
    (ref : ℕ) (s : Session) (f : Frame) (c : Ctx)
    → c.store ref ≡ some s
    → s.writable ≡ true
    → send ref f c ≡ (true, record c { out = c.out ++ to_client ref f ∷ [] })
unfolding send
send_open ref s f c q w = rw (q, send) (rw w refl)

-- Replies for other requests leave a request waiting.
receive_reply-other :
    (s : Streams) (r : ForwardReply) (conn_id seq t : ℕ)
    → s.pending conn_id seq ≡ some t
    → (r.conn_id ≢ conn_id) ⊎ (r.seq ≢ seq)
    → (receive_reply r s).pending conn_id seq ≡ some t
unfolding receive_reply
receive_reply-other s r conn_id seq t h (inl n) = ground arith
receive_reply-other s r conn_id seq t h (inr n) = ground arith

pub receive_replies : List ForwardReply → Streams → Streams
receive_replies [] s = s
receive_replies (r ∷ rs) s = receive_replies rs (receive_reply r s)

receive_replies-other :
    (rs : List ForwardReply) (s : Streams) (conn_id seq t : ℕ)
    → s.pending conn_id seq ≡ some t
    → ((r : ForwardReply) → Has r rs → (r.conn_id ≢ conn_id) ⊎ (r.seq ≢ seq))
    → (receive_replies rs s).pending conn_id seq ≡ some t
unfolding receive_replies
receive_replies-other [] s conn_id seq t h others = h
receive_replies-other (r ∷ rs) s conn_id seq t h others =
    receive_replies-other rs (receive_reply r s) conn_id seq t
      (receive_reply-other s r conn_id seq t h (others r (inl refl))) (λ x k. others x (inr k))

-- The frame that a client gets for a reply: under its request's number, with the service's message
-- number, or 0 for a reply that tells an error.
answer_frame :
    (f : Frame) (r : ForwardReply)
    → r.seq ≡ f.seq
    → reply_frame f r ≡ record {
      ptype = PType.response;
      msg_id = if r.code == 0 then r.msg_id else 0;
      seq = f.seq;
      payload = r.payload;
    }
unfolding reply_frame
answer_frame f r e = elim (Bool-cases (r.code == 0)) [
  | inl c ↦ rw (c, reply_frame) (ap (λ n. response r.msg_id n r.payload) e)
  | inr c ↦ rw (c, reply_frame) refl
]

-- A reply goes to the client that asked, if its session still takes frames. A request of a connection
-- starts to wait; replies for other
-- requests come in; then a reply with the connection's and the request's numbers does. The task of
-- the request ends with one frame more for its own session and nothing else: a response under the
-- client's sequence number with the reply's payload, and the reply's message number, or 0 where the
-- service tells an error. The request waits no longer.
pub finish-receive_reply :
    (o : Outside) (ref conn_id : ℕ) (f : Frame) (s : Session) (rs : List ForwardReply)
    (r : ForwardReply) (h : Hub)
    → ((x : ForwardReply) → Has x rs → (x.conn_id ≢ conn_id) ⊎ (x.seq ≢ f.seq))
    → r.conn_id ≡ conn_id
    → r.seq ≡ f.seq
    → h.ctx.store ref ≡ some s
    → s.writable ≡ true
    → let t = h.streams.next_ticket in
      let waits = (expect conn_id f.seq h).1 in
      let replied = record waits { streams = receive_reply r (receive_replies rs waits.streams) } in
      let end = finish_request o ref conn_id f t replied in
      ((expect conn_id f.seq h).0 ≡ done t)
      × (end.ctx ≡ record (h.ctx) {
        out =
            h.ctx.out
            ++ to_client ref (record {
              ptype = PType.response;
              msg_id = if r.code == 0 then r.msg_id else 0;
              seq = f.seq;
              payload = r.payload;
            })
              ∷ [];
      })
      × (end.streams.pending conn_id f.seq ≡ none)
unfolding finish_request finish_with expect expect_reply
finish-receive_reply o ref conn_id f s rs r h others c q there open_still =
    let t = h.streams.next_ticket in
    let waits = (expect conn_id f.seq h).1 in
    let before = receive_replies rs waits.streams in
    let replied = record waits { streams = receive_reply r before } in
    let placed : waits.streams.pending conn_id f.seq ≡ some t = ground arith in
    let kept = receive_replies-other rs waits.streams conn_id f.seq t placed others in
    let mine : before.pending r.conn_id r.seq ≡ some t =
      ap (λ x. before.pending x r.seq) c ∙ ap (before.pending conn_id) q ∙ kept in
    let (seen, gone, again) = receive_reply-answers before r r t mine refl refl in
    let ends : finish_request o ref conn_id f t replied ≡ record replied {
      ctx = record (h.ctx) { out = h.ctx.out ++ to_client ref (reply_frame f r) ∷ [] };
    } =
      ap (λ x. finish_with o ref conn_id f x replied) seen
      ∙ rw (send_open ref s (reply_frame f r) h.ctx there open_still) refl in
    (
      refl,
      ap (λ (x : Hub). x.ctx) ends
          ∙ ap (λ g. record (h.ctx) { out = h.ctx.out ++ to_client ref g ∷ [] })
              (answer_frame f r q),
      ap (λ (x : Hub). x.streams.pending conn_id f.seq) ends
          ∙ ap (λ x. (receive_reply r before).pending x f.seq) (sym c)
          ∙ ap ((receive_reply r before).pending r.conn_id) (sym q)
          ∙ gone,
    )

fail_request-streams :
    (o : Outside) (ref conn_id : ℕ) (f : Frame) (e : Text) (h : Hub)
    → (fail_request o ref conn_id f e h).streams ≡ forget conn_id f.seq h.streams
unfolding fail_request invalidate_session
fail_request-streams o ref conn_id f e h = elim (Option-cases (h.ctx.conn_session conn_id)) [
  | inl n ↦ ground arith
  | inr (x, n) ↦ ground arith
]

forget_lem :
    (conn_id seq t : ℕ) (s : Streams)
    → s.pending conn_id seq ≡ some t
    → ((forget conn_id seq s).tickets t ≡ some dropped)
      × ((forget conn_id seq s).pending conn_id seq ≡ none)
unfolding forget
forget_lem conn_id seq t s h = ground arith

receive_reply-none :
    (r : ForwardReply) (s : Streams) → s.pending r.conn_id r.seq ≡ none → receive_reply r s ≡ s
unfolding receive_reply
receive_reply-none r s h = rw (h, receive_reply) refl

expect_lem :
    (conn_id seq t : ℕ) (h : Hub)
    → h.streams.pending conn_id seq ≡ some t
    → t < h.streams.next_ticket
    → ((expect conn_id seq h).1.streams.tickets t ≡ some dropped)
      × ((expect conn_id seq h).1.streams.pending conn_id seq ≡ some h.streams.next_ticket)
unfolding expect expect_reply
expect_lem conn_id seq t h p l = ground arith

-- The bug: the numbers of a request are not checked against those that wait. When a client sends a
-- second request with the number of one that waits, the first fails at once, and its failure takes
-- the second one's place away too: the service's reply is thrown away, and both fail.
pub duplicate_loses_both :
    (o : Outside) (ref conn_id t : ℕ) (f : Frame) (r : ForwardReply) (h : Hub)
    → h.streams.pending conn_id f.seq ≡ some t
    → t < h.streams.next_ticket
    → r.conn_id ≡ conn_id
    → r.seq ≡ f.seq
    → let second = h.streams.next_ticket in
      let h1 = (expect conn_id f.seq h).1 in
      let h2 = finish_request o ref conn_id f t h1 in
      (h1.streams.tickets t ≡ some dropped)
      × (h2 ≡ fail_request o ref conn_id f (codes "bridge stream closed") h1)
      × (h2.streams.tickets second ≡ some dropped)
      × (receive_reply r h2.streams ≡ h2.streams)
unfolding finish_request finish_with
duplicate_loses_both o ref conn_id t f r h p l c q =
    let h1 = (expect conn_id f.seq h).1 in
    let (gone, next) = expect_lem conn_id f.seq t h p l in
    let over : finish_request o ref conn_id f t h1
        ≡ fail_request o ref conn_id f (codes "bridge stream closed") h1 =
      ap (λ x. finish_with o ref conn_id f x h1) gone in
    let left : (finish_request o ref conn_id f t h1).streams ≡ forget conn_id f.seq h1.streams =
      ap (λ (k : Hub). k.streams) over
      ∙ fail_request-streams o ref conn_id f (codes "bridge stream closed") h1 in
    let (lost, free) = forget_lem conn_id f.seq h.streams.next_ticket h1.streams next in
    let none_waits : (forget conn_id f.seq h1.streams).pending r.conn_id r.seq ≡ none =
      rw (c, q) free in
    (
      gone,
      over,
      ap (λ (k : Streams). k.tickets h.streams.next_ticket) left ∙ lost,
      rw left (receive_reply-none r (forget conn_id f.seq h1.streams) none_waits),
    )
