-- ===== src/Svcfw/Tests.antt =====
-- Runs of what the services share, at concrete states.
use grimoire.Prelude.{
  ◌<◌, ◌⊎◌, false, false, ◌<◌, ◌^◌, ◌++◌, subst, sym, inl, inr, Has, ℕ, ◌≡◌, ◌≢◌, refl, arith, true,
  ◌==◌, if◌then◌else◌, Option, none, some, List, [], ◌∷◌, Text, codes, same, find,
}
use grimoire.Common.{svc_gateway, domain_card, make, gateway_id_of}
use grimoire.Registry.{
  pos, RegistrySvc, NodeInfo, empty_text, register, heartbeat, heartbeat_node, discover,
  discover_nodes, node_infos, node, insert_node,
}
use grimoire.Svcfw.Pusher.{
  Network, init, push_via, stream_for, channel_for, find_gateway, is_gateway, get_meta, parse_u8,
  parse_digits,
}
use grimoire.Svcfw.Order.{request, push_via-push_via}
use grimoire.Svcfw.Registration.{Registration, reached, rejoin, beat}
use grimoire.Svcfw.Rejoin.{rejoin_loses_gateway}
use grimoire.Svcfw.Profiles.{Profile, Stores, cache_set, load, create, record_game, named_row}
use grimoire.Svcfw.Profiles.Coherence.{IsCoherent, load-row}
use grimoire.Svcfw.Profiles.Writes.{create-IsCoherent}
use grimoire.Svcfw.Profiles.Games.{IsDistinct, record_game-load}
use grimoire.Svcfw.Memory.{integers, json, redis, Rows, postgres}
use grimoire.Svcfw.Directory.{delivered, lost_after}
use grimoire.Svcfw.Directory.Lobby.{
  Call, set_call, take_call, IsSublist, set_sessions, handed_out, waits, handed_out-IsSublist,
}
use grimoire.Svcfw.Cells.{Cells, server}

abbrev gateway_1 : Registration
gateway_1 = record {
  service = svc_gateway;
  node_id = codes "g1";
  addr = codes "a1";
  meta = (codes "id", codes "1") ∷ [];
  ttl_secs = pos 10;
}

-- The registry knows a second gateway, of number 2, and has forgotten the first.
abbrev registry : RegistrySvc
registry =
    register 5 svc_gateway (codes "g2") (codes "a2") ((codes "id", codes "2") ∷ []) (pos 30)
      (record { backend = record { services = empty_text }; default_ttl = pos 10 })

forgotten : node svc_gateway (codes "g1") registry.backend ≡ none
unfolding register insert_node node same
forgotten = refl

abbrev order : List Text
order = codes "g1" ∷ codes "g2" ∷ []

abbrev network : Network
network = record {
  registry = λ service. some (discover service order (beat 6 gateway_1 (reached true) registry));
  connect = λ addr. none;
  opens = λ ch. true;
  kicked = λ ch conn_id. none;
}

abbrev gateway_2 : NodeInfo
gateway_2 = record { node_id = codes "g2"; addr = codes "a2"; meta = (codes "id", codes "2") ∷ [] }

network-find_gateway : find_gateway network 2 ≡ some gateway_2
unfolding find_gateway is_gateway get_meta parse_u8 parse_digits discover discover_nodes node_infos
    beat rejoin heartbeat heartbeat_node register insert_node same find
network-find_gateway = refl

rejoin_loses_gateway_example : gateway_2.node_id ≢ gateway_1.node_id
rejoin_loses_gateway_example =
    rejoin_loses_gateway 6 2 gateway_1 registry network order gateway_2 refl forgotten refl
      network-find_gateway

-- Nothing is cached; player 7 has a row, player 8 has none.
abbrev stores : Stores Rows (Text → Option Text)
stores = record { pg = λ k. if k == 7 then some (codes "ann", 4, 2) else none; redis = λ k. none }

stores-IsCoherent : IsCoherent integers json postgres redis stores
stores-IsCoherent = λ player_id text p h f. absurd (ground arith)

load-row_example :
    ((load integers json postgres redis 7 stores).0
      ≡ some (record { player_id = 7; name = codes "ann"; games = 4; wins = 2 }))
    × IsCoherent integers json postgres redis (load integers json postgres redis 7 stores).1
load-row_example = load-row integers json postgres redis 7 stores stores-IsCoherent refl

players_differ : IsDistinct {I = ℕ} (7 ∷ 8 ∷ [])
players_differ = (λ h. elim h [ inl e ↦ ground arith | inr k ↦ elim k [ ] ], (λ h. elim h [ ], tt))

recorded : (record_game integers json postgres redis (7 ∷ 8 ∷ []) 8 stores).0 ≡ true
unfolding record_game
recorded = refl

recorded_win : (record_game integers json postgres redis (7 ∷ 8 ∷ []) 7 stores).0 ≡ true
unfolding record_game
recorded_win = refl

record_game-load_example :
    (load integers json postgres redis 7
      (record_game integers json postgres redis (7 ∷ 8 ∷ []) 7 stores).1).0
    ≡ some (record { player_id = 7; name = codes "ann"; games = 5; wins = 3 })
record_game-load_example =
    record_game-load integers json postgres redis (7 ∷ 8 ∷ []) 7 7 stores stores-IsCoherent
      (inl refl) players_differ (λ k r. refl) (λ d. refl) recorded_win

cached :
    (p : Profile ℕ) (t : Stores Rows (Text → Option Text))
    → (cache_set integers json postgres redis p t).0 ≡ true
unfolding cache_set
cached p t = refl

create-IsCoherent_example :
    let t = create integers json postgres redis 7 (codes "eve") stores in
    IsCoherent integers json postgres redis t.1
    × ((p : Profile ℕ)
        → t.0 ≡ some p
        → (p ≡ named_row integers 7 (codes "eve") (postgres.row stores.pg 7))
          × (postgres.row t.1.pg 7 ≡ some p))
create-IsCoherent_example =
    create-IsCoherent integers json postgres redis 7 (codes "eve") stores stores-IsCoherent cached

-- A session that waits is handed out once, also when a reply to a setting was lost.
abbrev calls : List Call
calls =
    set_call lost_after 5 ∷ set_call delivered 6 ∷ take_call delivered ∷ take_call delivered ∷ []

abbrev nothing : Cells
nothing key = none

small : (sid : ℕ) → Has sid (set_sessions calls) → sid < 2 ^ 32
small sid (inl e) = subst (λ n. n < 2 ^ 32) (sym e) (omega arith)
small sid (inr (inl e)) = subst (λ n. n < 2 ^ 32) (sym e) (omega arith)
small sid (inr (inr h)) = elim h [ ]

handed_out-IsSublist_example :
    IsSublist
      (handed_out server domain_card calls nothing)
      (waits server domain_card nothing ++ set_sessions calls)
handed_out-IsSublist_example = handed_out-IsSublist server domain_card calls nothing small

-- Two connections of gateway 2; the second push finds no network.
abbrev online : Network
online = record {
  registry = λ service. some (gateway_2 ∷ []);
  connect = λ addr. some 9;
  opens = λ ch. true;
  kicked = λ ch conn_id. none;
}

abbrev offline : Network
offline = record {
  registry = λ service. none;
  connect = λ addr. none;
  opens = λ ch. false;
  kicked = λ ch conn_id. none;
}

first_push : (push_via online (make 2 5) 7 [] false init).0 ≡ true
unfolding push_via stream_for channel_for find_gateway is_gateway get_meta parse_u8 parse_digits
    gateway_id_of make same find
first_push = refl

same_gateway : gateway_id_of (make 2 6) ≡ gateway_id_of (make 2 5)
unfolding gateway_id_of make
same_gateway = refl

push_via-push_via_example :
    let t = (push_via online (make 2 5) 7 [] false init).1 in
    let t' = push_via offline (make 2 6) 8 (1 ∷ []) true t in
    (s : ℕ) × (room : ℕ) × (t.streams (gateway_id_of (make 2 5)) ≡ some s)
    × (t.open_streams s ≡ some room)
    × (t.sent ≡ init.sent ++ (s, request (make 2 5) 7 [] false) ∷ [])
    × (((0 < room)
          × (t'.0 ≡ true)
          × (t'.1.streams (gateway_id_of (make 2 5)) ≡ some s)
          × (t'.1.sent
              ≡ (init.sent ++ (s, request (make 2 5) 7 [] false) ∷ [])
                ++ (s, request (make 2 6) 8 (1 ∷ []) true) ∷ []))
        ⊎ ((room ≡ 0) × (t' ≡ (false, t))))
push_via-push_via_example =
    push_via-push_via online offline (make 2 5) (make 2 6) 7 8 [] (1 ∷ []) false true init
      first_push same_gateway
