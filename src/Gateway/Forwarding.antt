-- ===== src/Gateway/Forwarding.antt =====
-- crates/grimoire-gateway/src/session.rs: the way of a request to its service. What the outside
-- answers during the request is an argument.
use grimoire.Prelude.{
  ℕ, ◌+◌, Bool, true, false, ◌==◌, ◌&&◌, ltb, not, if◌then◌else◌, Option, none, some, List, [], ◌∷◌,
  ◌++◌, insert, remove, Text, codes, Outcome, ok, panic,
}
use grimoire.Common.{domain_battle, domain_card, battle_join, card_start}
use grimoire.Bridge.{ForwardRequest}
use grimoire.Registry.{NodeInfo}
use grimoire.Discovery.{Discovery, World, Channel, resolve, resolve_by_node_id, channel_for}
use grimoire.Discovery.Ring.{Slices}
use grimoire.Gateway.{Ctx, Session, update, mark_domain}
use grimoire.Gateway.Streams.{Streams, expect_reply, open_stream, send_request}

pub data Event : Type 0 where
  player_connected player_disconnected : Text → ℕ → Event
  dir_remove : ℕ → ℕ → Event

-- The gateway with its discovery, its streams and its cache of the session directory; `events` are the
-- calls of services and of the directory whose results the code ignores.
pub record Hub : Type 0 where
  pub ctx : Ctx
  pub discovery : Discovery
  pub streams : Streams
  pub session_cache : ℕ → ℕ → Option (Text × ℕ)
  pub events : List Event

-- What the outside answers during a request: the time, the session directory where there is one, the
-- registry at each of the two lookups, the connecting to a node for a notice and for a stream, and
-- the error of opening a stream, if any.
pub record Outside : Type 0 where
  pub now : ℕ
  pub has_dir : Bool
  pub lobby_take : ℕ → Option ℕ
  pub lookup : ℕ → ℕ → Option Text
  pub by_directory : World
  pub by_ring : World
  pub notice_attempts : List (Option Channel)
  pub stream_attempts : List (Option Channel)
  pub open_error : Option Text

-- `Result<A, String>`, or a panic.
pub data Attempt (A : Type 0) : Type 0 where
  done : A → Attempt A
  failed : Text → Attempt A
  crash : Attempt A

abbrev pub Run : Type 0 → Type 0
Run A = Hub → Attempt A × Hub

module _ {A B : Type 0} where
  abbrev pub continue : Attempt A → (A → Run B) → Run B
  continue (done a) f h = f a h
  continue (failed e) f h = (failed e, h)
  continue crash f h = (crash, h)

  infixl 10 ◌>>=◌
  abbrev pub ◌>>=◌ : Run A → (A → Run B) → Run B
  ◌>>=◌ m f h = let (r, h') = m h in continue r f h'

infixl 10 ◌>>◌
abbrev pub ◌>>◌ : {B : Type 0} → Run (Unit {0}) → Run B → Run B
m >> n = m >>= λ u. n

abbrev pub change : (Hub → Hub) → Run (Unit {0})
change f h = (done tt, f h)

abbrev is_match : ℕ → ℕ → Bool
is_match domain msg_id =
    if domain == domain_battle
    then msg_id == battle_join
    else if domain == domain_card
    then msg_id == card_start
    else false

abbrev is_bound : ℕ → Option (ℕ × ℕ) → Bool
is_bound domain none = false
is_bound domain (some (d, sid)) = d == domain

abbrev bind_session : ℕ → ℕ × ℕ → Hub → Hub
bind_session conn_id target h = record h {
  ctx = record (h.ctx) { conn_session = insert conn_id target h.ctx.conn_session };
}

abbrev take_waiting : ℕ → ℕ → Option ℕ → Hub → Hub
take_waiting domain conn_id none h = h
take_waiting domain conn_id (some sid) h = bind_session conn_id (domain, sid) h

-- A request to be matched takes a waiting session from the lobby, unless the connection is bound.
unfoldable pub try_matchmake : Outside → ℕ → ℕ → ℕ → Hub → Hub
try_matchmake o domain msg_id conn_id h =
    if is_match domain msg_id && (o.has_dir && not (is_bound domain (h.ctx.conn_session conn_id)))
    then take_waiting domain conn_id (o.lobby_take domain) h
    else h

abbrev pub set_cached :
    ℕ → ℕ → Option (Text × ℕ) → (ℕ → ℕ → Option (Text × ℕ)) → ℕ → ℕ → Option (Text × ℕ)
set_cached domain sid v m d i = if d == domain then (if i == sid then v else m d i) else m d i

abbrev log : List Event → Hub → Hub
log es h = record h { events = h.events ++ es }

unfoldable pub invalidate_session : Outside → ℕ → ℕ → ℕ → Hub → Hub
invalidate_session o domain conn_id sid h =
    log (if o.has_dir then dir_remove domain sid ∷ [] else []) (record h {
      ctx = record (h.ctx) { conn_session = remove conn_id h.ctx.conn_session };
      session_cache = set_cached domain sid none h.session_cache;
    })

-- The node id that the cache holds and that has not expired.
unfoldable pub cached_host : ℕ → Option (Text × ℕ) → Option Text
cached_host now none = none
cached_host now (some (node_id, until)) = if ltb now until then some node_id else none

abbrev pub resolved : Text → Outcome (Option NodeInfo) × Discovery → Run NodeInfo
resolved svc_name (panic, d) h = (crash, record h { discovery = d })
resolved svc_name (ok none, d) h =
    (failed (codes "no " ++ (svc_name ++ codes " available")), record h { discovery = d })
resolved svc_name (ok (some n), d) h = (done n, record h { discovery = d })

module _ (sl : Slices) where
  unfoldable pub host_node : Outside → ℕ → Text → Hub → Option NodeInfo × Hub
  host_node o domain node_id h =
      let (n, d) = resolve_by_node_id sl o.by_directory domain node_id h.discovery in
      (n, record h { discovery = d })

  -- The session goes where its host is gone.
  abbrev or_invalidate :
      Outside → ℕ → ℕ → ℕ → (Hub → Hub) → Option NodeInfo × Hub → Option NodeInfo × Hub
  or_invalidate o domain conn_id sid keep (some n, h) = (some n, keep h)
  or_invalidate o domain conn_id sid keep (none, h) =
      (none, invalidate_session o domain conn_id sid h)

  abbrev remember : Outside → ℕ → ℕ → Text → Hub → Hub
  remember o domain sid node_id h = record h {
    session_cache = set_cached domain sid (some (node_id, o.now + 15000000000)) h.session_cache;
  }

  unfoldable pub session_host : Outside → ℕ → ℕ → ℕ → Hub → Option NodeInfo × Hub
  session_host o domain conn_id sid h = elim (cached_host o.now (h.session_cache domain sid)) [
    | some node_id ↦ or_invalidate o domain conn_id sid (λ k. k) (host_node o domain node_id h)
    | none ↦ elim (o.lookup domain sid) [
      | none ↦ (none, h)
      | some node_id ↦
          or_invalidate o domain conn_id sid (remember o domain sid node_id)
            (host_node o domain node_id h)
    ]
  ]

  unfoldable pub session_target_node : Outside → ℕ → ℕ → Hub → Option NodeInfo × Hub
  session_target_node o domain conn_id h =
      if o.has_dir
      then elim (h.ctx.conn_session conn_id) [
        | none ↦ (none, h)
        | some (bound, sid) ↦
            if bound == domain then session_host o domain conn_id sid h else (none, h)
      ]
      else (none, h)

  abbrev by_ring_unless : Outside → ℕ → Text → ℕ → Option NodeInfo × Hub → Attempt NodeInfo × Hub
  by_ring_unless o domain svc_name conn_id (some n, h) = (done n, h)
  by_ring_unless o domain svc_name conn_id (none, h) =
      resolved svc_name (resolve sl o.by_ring domain (some conn_id) h.discovery) h

  -- The host of the bound session, else the node that the ring gives.
  unfoldable pub target_node : Outside → ℕ → Text → ℕ → Run NodeInfo
  target_node o domain svc_name conn_id h =
      by_ring_unless o domain svc_name conn_id (session_target_node o domain conn_id h)

-- A channel to a node; a failure to connect is none.
abbrev connected : Outcome (Option Channel) × Discovery → Hub → Attempt (Option Channel) × Hub
connected (panic, d) h = (crash, record h { discovery = d })
connected (ok c, d) h = (done c, record h { discovery = d })

unfoldable pub channel_to : Text → List (Option Channel) → Run (Option Channel)
channel_to addr attempts h = connected (channel_for addr attempts h.discovery) h

abbrev pub tell : Event → Option Channel → Run (Unit {0})
tell e none h = (done tt, h)
tell e (some c) h = (done tt, log (e ∷ []) h)

abbrev mark : ℕ → ℕ → Option Session → Hub → Bool × Hub
mark ref domain none h = (false, h)
mark ref domain (some s) h =
    let (fresh, s') = mark_domain domain s in (fresh, record h { ctx = update ref s' h.ctx })

abbrev tell_if : Bool × Hub → Run (Unit {0}) → Attempt (Unit {0}) × Hub
tell_if (true, h) m = m h
tell_if (false, h) m = (done tt, h)

-- The service is told of a connection that is new to its domain.
unfoldable pub introduce : Outside → ℕ → ℕ → ℕ → NodeInfo → Run (Unit {0})
introduce o ref domain conn_id n h =
    tell_if (mark ref domain (h.ctx.store ref) h)
      (channel_to n.addr o.notice_attempts >>= tell (player_connected n.addr conn_id))

abbrev opened : Outside → ℕ → Text → Option Channel → Run ℕ
opened o domain addr none h = (failed (codes "connect " ++ addr), h)
opened o domain addr (some c) h = elim o.open_error [
  | some e ↦ (failed e, h)
  | none ↦ let (ref, s) = open_stream domain addr h.streams in (done ref, record h { streams = s })
]

unfoldable pub get_or_open : Outside → ℕ → NodeInfo → Run ℕ
get_or_open o domain n h = elim (h.streams.streams domain n.addr) [
  | some ref ↦ (done ref, h)
  | none ↦ (channel_to n.addr o.stream_attempts >>= opened o domain n.addr) h
]

unfoldable pub expect : ℕ → ℕ → Run ℕ
expect conn_id seq h =
    let (t, s) = expect_reply conn_id seq h.streams in (done t, record h { streams = s })

abbrev taken : Hub → Bool × Streams → Attempt (Unit {0}) × Hub
taken h (true, s) = (done tt, record h { streams = s })
taken h (false, s) = (failed (codes "bridge stream closed"), record h { streams = s })

unfoldable pub submit : ℕ → ForwardRequest → Run (Unit {0})
submit stream req h = taken h (send_request stream req h.streams)
