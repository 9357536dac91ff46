-- ===== src/Sim/Client/Responses.antt =====
-- Which request a response goes to.
use grimoire.Prelude.{
  ℕ, ◌+◌, ◌%◌, ◌^◌, ◌<◌, ◌≤◌, ◌≡◌, ◌≢◌, refl, sym, ap, ◌∙◌, inl, inr, arith, true, Bool-cases,
  Option-cases, none, some, List, [], ◌∷◌, length, Has, ◌==◌, ◌&&◌, if◌then◌else◌, insert-cases,
  insert_ne, insert_self, remove-some,
}
use grimoire.Common.{sys_conn_id}
use grimoire.Net.{Frame, PType}
use grimoire.Sim.Client.{
  Client, answered, receive_as, receive, receive_response, receive_push, expect_response, send,
  request_frame, start_request, finish_request, reply_of, checked,
}

-- What happens while a request waits: frames arrive, and other requests start.
pub data Event : Type 0 where
  arrives : Frame → Event
  asks : ℕ → List ℕ → Event

unfoldable pub happens : Event → Client → Client
happens (arrives f) c = (receive f c).1
happens (asks msg_id payload) c = (start_request msg_id payload c).1

unfoldable pub run : List Event → Client → Client
run [] c = c
run (e ∷ es) c = run es (happens e c)

-- Not a response with the number, and not the end of the connection.
abbrev pub LeavesOpen : ℕ → Event → Type 0
LeavesOpen seq (arrives f) = (f.ptype ≢ PType.close) × ((f.ptype ≡ PType.response) → f.seq ≢ seq)
LeavesOpen seq (asks msg_id payload) = Unit {0}

-- The waiting requests have tickets that were given out.
pub record IsNumbered (c : Client) : Type 0 where
  pub below : (k t : ℕ) → c.responses k ≡ some t → t < c.next_ticket
  pub small : c.seq < 2 ^ 32

-- Request `seq` waits with ticket `t`, alone, and `n` numbers were given out since.
pub record Waits (seq t n : ℕ) (c : Client) : Type 0 where
  pub there : c.responses seq ≡ some t
  pub alone : (k : ℕ) → c.responses k ≡ some t → k ≡ seq
  pub below : (k u : ℕ) → c.responses k ≡ some u → u < c.next_ticket
  pub next : c.seq ≡ (seq + n) % 2 ^ 32

receive_response-Waits :
    (seq t n : ℕ) (f : Frame) (c : Client)
    → Waits seq t n c
    → f.seq ≢ seq
    → Waits seq t n (receive_response f c)
unfolding receive_response
receive_response-Waits seq t n f c w ne = elim (Option-cases (c.responses f.seq)) [
  | inl e ↦ rw (e, receive_response) w
  | inr (u, e) ↦
      rw (e, receive_response)
        (record {
          there = ground arith;
          alone = λ k h. w.alone k ((remove-some f.seq c.responses k h).1);
          below = λ k v h. w.below k v ((remove-some f.seq c.responses k h).1);
          next = w.next;
        })
]

receive_push-Waits :
    (seq t n : ℕ) (f : Frame) (c : Client) → Waits seq t n c → Waits seq t n (receive_push f c)
unfolding receive_push
receive_push-Waits seq t n f c w =
    elim (Bool-cases (f.msg_id == sys_conn_id && length f.payload == 4)) [
      | inl b ↦ rw b (record { there = w.there; alone = w.alone; below = w.below; next = w.next })
      | inr b ↦ rw b (record { there = w.there; alone = w.alone; below = w.below; next = w.next })
    ]

-- A new request takes the next number and the next ticket, and leaves the others.
expect_response-Waits :
    (seq t n : ℕ) (c : Client)
    → seq < 2 ^ 32
    → 0 < n
    → n < 2 ^ 32
    → Waits seq t n c
    → Waits seq t (n + 1) (expect_response c).2
unfolding expect_response
expect_response-Waits seq t n c small some_since few w =
    let other : c.seq ≢ seq = omega (arith, w.next) in
    record {
      there = insert_ne c.seq c.next_ticket c.responses seq other ∙ w.there;
      alone = λ k h. elim (insert-cases c.seq c.next_ticket c.responses k h) [
        | inl (a, b) ↦ absurd (omega (arith, b, w.below seq t w.there))
        | inr (a, b) ↦ w.alone k b
      ];
      below = λ k u h. elim (insert-cases c.seq c.next_ticket c.responses k h) [
        | inl (a, b) ↦ omega (arith, b)
        | inr (a, b) ↦ omega (arith, w.below k u b)
      ];
      next = omega (arith, w.next);
    }

send_lem : (f : Frame) (c : Client) → c.writable ≡ true → (send f c).0 ≡ true
unfolding send
send_lem f c h = ground arith

send-Waits : (seq t n : ℕ) (f : Frame) (c : Client) → Waits seq t n c → Waits seq t n (send f c).1
unfolding send
send-Waits seq t n f c w = elim (Bool-cases c.writable) [
  | inl b ↦ rw b (record { there = w.there; alone = w.alone; below = w.below; next = w.next })
  | inr b ↦ rw b (record { there = w.there; alone = w.alone; below = w.below; next = w.next })
]

start_request-Waits :
    (seq t n msg_id : ℕ) (payload : List ℕ) (c : Client)
    → seq < 2 ^ 32
    → 0 < n
    → n < 2 ^ 32
    → Waits seq t n c
    → Waits seq t (n + 1) (start_request msg_id payload c).1
unfolding start_request
start_request-Waits seq t n msg_id payload c small some_since few w =
    let (number, u, d) = expect_response c in
    send-Waits seq t (n + 1) (request_frame number msg_id payload) d
      (expect_response-Waits seq t n c small some_since few w)

receive_as-Waits :
    (seq t n : ℕ) (f : Frame) (p : PType) (c : Client)
    → ((p ≡ PType.response) → f.seq ≢ seq)
    → Waits seq t n c
    → Waits seq t n (receive_as p f c).1
receive_as-Waits seq t n f PType.request c ne w = w
receive_as-Waits seq t n f PType.response c ne w = receive_response-Waits seq t n f c w (ne refl)
receive_as-Waits seq t n f PType.push c ne w = receive_push-Waits seq t n f c w
receive_as-Waits seq t n f PType.heartbeat c ne w = w
receive_as-Waits seq t n f PType.close c ne w = w

run-Waits :
    (seq t n : ℕ) (es : List Event) (c : Client)
    → seq < 2 ^ 32
    → 0 < n
    → n + length es ≤ 2 ^ 32
    → ((e : Event) → Has e es → LeavesOpen seq e)
    → Waits seq t n c
    → (m : ℕ) × Waits seq t m (run es c)
unfolding run happens receive
run-Waits seq t n [] c small some_since few all w = (n, w)
run-Waits seq t n (arrives f ∷ es) c small some_since few all w =
    run-Waits seq t n es (receive f c).1 small some_since (omega arith) (λ e h. all e (inr h))
      (receive_as-Waits seq t n f f.ptype c ((all (arrives f) (inl refl)).1) w)
run-Waits seq t n (asks msg_id payload ∷ es) c small some_since few all w =
    run-Waits seq t (n + 1) es (start_request msg_id payload c).1 small (omega arith) (omega arith)
      (λ e h. all e (inr h))
      (start_request-Waits seq t n msg_id payload c small some_since (omega arith) w)

-- The request that starts waits from then on.
start_request-starts :
    (msg_id : ℕ) (payload : List ℕ) (c : Client)
    → IsNumbered c
    → c.writable ≡ true
    → ((start_request msg_id payload c).0 ≡ some c.next_ticket)
      × Waits c.seq c.next_ticket 1 (start_request msg_id payload c).1
unfolding start_request expect_response
start_request-starts msg_id payload c v open_still =
    let (number, u, d) = expect_response c in
    (
      ap (λ b. if b then some c.next_ticket else none)
          (send_lem (request_frame number msg_id payload) d open_still),
      send-Waits c.seq c.next_ticket 1 (request_frame number msg_id payload) d (record {
        there = insert_self c.seq c.next_ticket c.responses;
        alone = λ k h. elim (insert-cases c.seq c.next_ticket c.responses k h) [
          | inl (a, b) ↦ sym a
          | inr (a, b) ↦ absurd (omega (arith, v.below k c.next_ticket b))
        ];
        below = λ k u h. elim (insert-cases c.seq c.next_ticket c.responses k h) [
          | inl (a, b) ↦ omega (arith, b)
          | inr (a, b) ↦ omega (arith, v.below k u b)
        ];
        next = refl;
      }),
    )

receive_response-answers :
    (t : ℕ) (r : Frame) (c : Client)
    → c.responses r.seq ≡ some t
    → (receive_response r c).tickets t ≡ some (answered r)
unfolding receive_response
receive_response-answers t r c there =
    rw (there, receive_response) (insert_self t (answered r) c.tickets)

receive-answers :
    (t : ℕ) (r : Frame) (c : Client)
    → r.ptype ≡ PType.response
    → c.responses r.seq ≡ some t
    → (receive r c).1.tickets t ≡ some (answered r)
unfolding receive
receive-answers t r c e there =
    ap (λ p. (receive_as p r c).1.tickets t) e ∙ receive_response-answers t r c there

-- A response reaches the request that it answers. While a request waits, other responses, pushes
-- and heartbeats may arrive and other requests start, fewer than 2^32 events in all: when the response
-- with its number comes in, it ends with that response, or with the server's error if the message
-- number is 0.
pub request-receive :
    (msg_id : ℕ) (payload : List ℕ) (c : Client) (es : List Event) (r : Frame)
    → IsNumbered c
    → c.writable ≡ true
    → length es < 2 ^ 32
    → ((e : Event) → Has e es → LeavesOpen c.seq e)
    → r.ptype ≡ PType.response
    → r.seq ≡ c.seq
    → let (t, d) = start_request msg_id payload c in
      finish_request t (receive r (run es d)).1 ≡ checked r
unfolding finish_request reply_of
request-receive msg_id payload c es r v open_still few all e same =
    let d = (start_request msg_id payload c).1 in
    let (taken, w) = start_request-starts msg_id payload c v open_still in
    let (n, w') = run-Waits c.seq c.next_ticket 1 es d v.small (omega arith) (omega arith) all w in
    ap (λ t. finish_request t (receive r (run es d)).1) taken
    ∙ ap reply_of
        (receive-answers c.next_ticket r (run es d) e (ap (run es d).responses same ∙ w'.there))
