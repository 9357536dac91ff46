-- ===== src/Card/Entry.antt =====
-- In a well-formed state a start request is answered, and seats the connection.
use grimoire.Prelude.{
  ℕ, ◌+◌, ◌%◌, ◌^◌, ◌<◌, ◌≤◌, ◌≡◌, ◌⊎◌, refl, sym, ap, ◌∙◌, subst, arith, inl, inr, Bool, true,
  false, ◌==◌, leb, not, ◌&&◌, if◌then◌else◌, some, List, [], ◌∷◌, ◌++◌, map, length, get_elem?,
  get_elem?-append, All, Map, insert, insert-cases, insert_self, Bool-cases, Option-cases, position,
  any, Outcome,
}
use grimoire.Common.{domain_card}
use grimoire.Card.{
  CardDef, CardGame, GamePlayer, CardGameState, phase_playing, player_idx_of, is_full, new,
  new_player, add_player,
}
use grimoire.Card.Service.{
  App, dir_bind, lobby_clear, lobby_set, find_waiting, seat, target_game, announce, opened,
  take_seat, enter, start, bound_game,
}
use grimoire.Card.Validity.{ids, conns, AreSeated, IsGame, IsValid}
use grimoire.Card.Moves.{Answers, view_for-some, push_snapshot-Answers, emit-IsValid}

-- A game that is waited in: it is played and has one player.
abbrev IsWaiting : CardGame → Type 0
IsWaiting g = (g.phase ≡ phase_playing) × (p : GamePlayer) × (g.players ≡ p ∷ [])

seated-waits :
    (g : CardGame) (ps : List GamePlayer)
    → AreSeated (map (λ p. p.player_id) ps) g.turn
    → leb 2 (length ps) ≡ false
    → (p : GamePlayer) × (ps ≡ p ∷ [])
seated-waits g [] h e = absurd h
seated-waits g (p ∷ []) h e = (p, refl)
seated-waits g (p ∷ q ∷ ps) h e = absurd (ground arith)

-- The search finds a game that is waited in, if it finds one.
find_waiting-IsWaiting :
    (s : App) (scan : List ℕ) {gid : ℕ}
    → IsValid s
    → find_waiting s.games scan ≡ some gid
    → (g : CardGame) × (s.games gid ≡ some g) × IsWaiting g
unfolding find_waiting
find_waiting-IsWaiting s [] v e = cc
find_waiting-IsWaiting s (k ∷ scan) {gid} v e = elim (Option-cases (s.games k)) [
  | inl missing ↦ find_waiting-IsWaiting s scan v (ground arith)
  | inr (g, here) ↦ elim (Bool-cases (g.phase == phase_playing && not (is_full g))) [
    | inl t ↦
        let (p, single) = seated-waits g g.players (v.games_ok k g here).seated (ground arith) in
        let same : k ≡ gid = ground arith in
        (g, subst (λ j. s.games j ≡ some g) same here, (ground arith, p, single))
    | inr f ↦ find_waiting-IsWaiting s scan v (ground arith)
  ]
]

below_mono : {a b : ℕ} (xs : List ℕ) → a ≤ b → All (λ n. n < a) xs → All (λ n. n < b) xs
below_mono [] h v = tt
below_mono (x ∷ xs) h v = (omega (arith, v.0), below_mono xs h v.1)

-- A game that is put under a key, with a connection bound to it.
put_game-IsValid :
    (s : App) (k : ℕ) (g : CardGame) (conn_id idx players games : ℕ)
    → IsValid s
    → IsGame g
    → k < games
    → s.next_game ≤ games
    → s.next_player ≤ players
    → All (λ n. n < players) (ids g)
    → ((c i : ℕ) → s.conn_game c ≡ some (k, i) → get_elem? (conns g) i ≡ some c)
    → get_elem? (conns g) idx ≡ some conn_id
    → IsValid (record s {
      games = insert k g s.games;
      conn_game = insert conn_id (k, idx) s.conn_game;
      next_player = players;
      next_game = games;
    })
put_game-IsValid s k g conn_id idx players games v ok' below more_games more_players ids_ok old
      this =
    record {
      games_ok = λ j x h. ground (arith, v.games_ok j x);
      games_below = λ j x h. elim (insert-cases k g s.games j h) [
        | inl (p, q) ↦ omega arith
        | inr (p, q) ↦ omega (arith, v.games_below j x q)
      ];
      ids_below = λ j x h. elim (insert-cases k g s.games j h) [
        | inl (p, q) ↦ subst (λ (y : CardGame). All (λ n. n < players) (ids y)) q ids_ok
        | inr (p, q) ↦ below_mono (ids x) more_players (v.ids_below j x q)
      ];
      bound = λ c j i h. elim (insert-cases conn_id (k, idx) s.conn_game c h) [
        | inl (p, q) ↦ (g, ground arith, ground arith)
        | inr (p, q) ↦ elim (Bool-cases (k == j)) [
          | inl e ↦ (g, ground arith, ground (arith, old c i))
          | inr e ↦ let (x, m, n) = v.bound c j i q in (x, ground arith, n)
        ]
      ];
    }

-- What `seat` gives for a game that is waited in, by a player with a number of its own or by the
-- connection that waits there.
record IsSeated (g g' : CardGame) (conn_id player_id idx : ℕ) : Type 0 where
  game : IsGame g'
  here : get_elem? (conns g') idx ≡ some conn_id
  fresh : All (λ n. n < player_id + 1) (ids g')
  others : (i c : ℕ) → get_elem? (conns g) i ≡ some c → get_elem? (conns g') i ≡ some c

seat-IsSeated :
    (conn_id player_id : ℕ) (shuffled : List CardDef) (g : CardGame) (p : GamePlayer)
    → IsGame (record g { players = p ∷ [] })
    → g.phase ≡ phase_playing
    → (p.player_id < player_id) ⊎ ((p.conn_id ≡ conn_id) × (p.player_id ≡ player_id))
    → let w : CardGame = record g { players = p ∷ [] } in
      let (idx, g') = seat conn_id player_id shuffled w in IsSeated w g' conn_id player_id idx
unfolding seat any add_player player_idx_of position
seat-IsSeated conn_id player_id shuffled g p v playing h =
    elim (Bool-cases (p.conn_id == conn_id)) [
      | inl same ↦
          rw (same, seat)
            (record {
              game = v;
              here = ground arith;
              fresh = (ground arith, tt);
              others = λ i c e. e;
            })
      | inr other ↦
          rw (other, seat)
            (record {
              game = record { seated = (ground arith, ground arith); alive = inr (ground arith) };
              here = refl;
              fresh = (ground arith, ground arith);
              others = λ i c e. get_elem?-append (p.conn_id ∷ []) (conn_id ∷ []) i e;
            })
    ]

announce-Answers :
    (gid : ℕ) (started : Bool) (s : App)
    → IsValid s
    → Answers (announce gid started s) × ((announce gid started s).1.games ≡ s.games)
unfolding announce
announce-Answers gid started s v = elim (Bool-cases s.has_dir) [
  | inl on ↦ (
    (
      tt,
      record s {
        out =
            s.out
            ++ (dir_bind domain_card gid s.node_id
                ∷ (if started then lobby_clear domain_card gid else lobby_set domain_card gid)
                ∷ []);
      },
      ground arith,
      emit-IsValid s _ v,
    ),
    ground arith,
  )
  | inr off ↦ ((tt, s, ground arith, v), ground arith)
]

opened-Answers :
    (gid : ℕ) (started : Bool) (view : CardGameState) (g : CardGame) (s : App)
    → IsValid s
    → s.games gid ≡ some g
    → Answers (opened gid started view s)
unfolding opened
opened-Answers gid true view g s v h =
    let ((a, t, e, w), same) = announce-Answers gid true s v in
    let there =
      sym (ap (λ (r : Outcome (Unit {0}) × App). r.1.games gid) e)
      ∙ ap (λ (m : Map CardGame). m gid) same
      ∙ h in
    let (b, u, f, x) = push_snapshot-Answers gid t g there w in rw (e, f) (_, u, refl, x)
opened-Answers gid false view g s v h =
    let ((a, t, e, w), same) = announce-Answers gid false s v in rw e (_, t, refl, w)

bound_there :
    (t : App) (gid : ℕ) (w : CardGame)
    → IsValid t
    → t.games gid ≡ some w
    → (c i : ℕ) → t.conn_game c ≡ some (gid, i)
    → get_elem? (conns w) i ≡ some c
bound_there t gid w v there c i h =
    let (y, m, n) = v.bound c gid i h in
    let same : y ≡ w = cc in subst (λ (z : CardGame). get_elem? (conns z) i ≡ some c) same n

-- A seat is taken in a game that is there and waited in, or new.
take_seat-Answers :
    (t : App) (conn_id player_id gid : ℕ) (shuffled : List CardDef) (g : CardGame) (p : GamePlayer)
    → IsValid t
    → t.games gid ≡ some (record g { players = p ∷ [] })
    → g.phase ≡ phase_playing
    → (p.player_id < player_id) ⊎ ((p.conn_id ≡ conn_id) × (p.player_id ≡ player_id))
    → t.next_player ≡ player_id + 1
    → Answers (take_seat conn_id player_id shuffled gid t)
unfolding take_seat
take_seat-Answers t conn_id player_id gid shuffled g p v there playing who next =
    let w : CardGame = record g { players = p ∷ [] } in
    let idx = (seat conn_id player_id shuffled w).0 in
    let g' = (seat conn_id player_id shuffled w).1 in
    let x : IsSeated w g' conn_id player_id idx =
      seat-IsSeated conn_id player_id shuffled g p (v.games_ok gid w there) playing who in
    let u =
      put_game-IsValid t gid g' conn_id idx t.next_player t.next_game v x.game
        (v.games_below gid w there) (omega arith) (omega arith)
        (below_mono (ids g') (omega arith) x.fresh)
        (λ c i h. x.others i c (bound_there t gid w v there c i h)) x.here in
    let (view, f) = view_for-some g' idx x.game.seated in
    rw (there, take_seat)
      (rw f (opened-Answers gid (is_full g') view g' _ u (insert_self gid g' t.games)))

-- After a new game was opened for the player.
opened_game-IsValid :
    (s : App) (conn_id : ℕ) (shuffled : List CardDef)
    → IsValid s
    → IsValid (record s {
      games = insert s.next_game (new s.next_game conn_id s.next_player shuffled) s.games;
      next_player = s.next_player + 1;
      next_game = s.next_game + 1;
    })
opened_game-IsValid s conn_id shuffled v = record {
  games_ok = λ j x h. elim (insert-cases s.next_game _ s.games j h) [
    | inl (p, q) ↦ subst IsGame q (record { seated = refl; alive = inr (ground arith) })
    | inr (p, q) ↦ v.games_ok j x q
  ];
  games_below = λ j x h. elim (insert-cases s.next_game _ s.games j h) [
    | inl (p, q) ↦ omega arith
    | inr (p, q) ↦ omega (arith, v.games_below j x q)
  ];
  ids_below = λ j x h. elim (insert-cases s.next_game _ s.games j h) [
    | inl (p, q) ↦
        subst (λ (y : CardGame). All (λ n. n < s.next_player + 1) (ids y)) q (omega arith)
    | inr (p, q) ↦ below_mono (ids x) (omega arith) (v.ids_below j x q)
  ];
  bound = λ c j i h. let (x, m, n) = v.bound c j i h in (x, ground (arith, v.games_below j x m), n);
}

counted-IsValid : (s : App) → IsValid s → IsValid (record s { next_player = s.next_player + 1 })
counted-IsValid s v = record {
  games_ok = v.games_ok;
  games_below = v.games_below;
  ids_below = λ j x h. below_mono (ids x) (omega arith) (v.ids_below j x h);
  bound = v.bound;
}

-- A new connection is seated, in the game that the search found or in a new one.
enter-Answers :
    (s : App) (conn_id : ℕ) (scan : List ℕ) (shuffled : List CardDef)
    → IsValid s
    → s.next_player + 1 < 2 ^ 32
    → s.next_game + 1 < 2 ^ 32
    → Answers (enter conn_id (find_waiting s.games scan) shuffled s)
unfolding enter target_game
enter-Answers s conn_id scan shuffled v small_players small_games =
    let next : (s.next_player + 1) % 2 ^ 32 ≡ s.next_player + 1 = omega arith in
    let next_game : (s.next_game + 1) % 2 ^ 32 ≡ s.next_game + 1 = omega arith in
    elim (Option-cases (find_waiting s.games scan)) [
      | inl e ↦
          rw (e, next, next_game)
            (take_seat-Answers _ conn_id s.next_player s.next_game shuffled
              (new s.next_game conn_id s.next_player shuffled)
              (new_player conn_id s.next_player shuffled) (opened_game-IsValid s conn_id shuffled v)
              (insert_self s.next_game _ s.games) refl (inr (refl, refl)) refl)
      | inr (gid, e) ↦
          let (g, there, wait) = find_waiting-IsWaiting s scan v e in
          let (playing, p, single) = wait in
          rw (e, next)
            (take_seat-Answers _ conn_id s.next_player gid shuffled g p (counted-IsValid s v)
              (there ∙ ap (λ ps. some (record g { players = ps })) single) playing
              (inl
                (subst
                  (λ ps. All (λ n. n < s.next_player) (map (λ (q : GamePlayer). q.player_id) ps))
                  single (v.ids_below gid g there)).0)
              refl)
    ]

-- A start request is answered in every well-formed state, in whatever order the games are searched
-- and however the deck is shuffled, and leaves a well-formed state, while the counters do not wrap.
pub start-Answers :
    (s : App) (conn_id : ℕ) (scan : List ℕ) (shuffled : List CardDef)
    → IsValid s
    → s.next_player + 1 < 2 ^ 32
    → s.next_game + 1 < 2 ^ 32
    → Answers (start conn_id scan shuffled s)
unfolding start bound_game
start-Answers s conn_id scan shuffled v small_players small_games =
    elim (Option-cases (s.conn_game conn_id)) [
      | inl e ↦
          rw (e, start, bound_game)
            (enter-Answers s conn_id scan shuffled v small_players small_games)
      | inr ((gid, idx), e) ↦
          let (g, f, q) = v.bound conn_id gid idx e in
          let (view, h) = view_for-some g idx (v.games_ok gid g f).seated in
          rw (e, start, bound_game, f, h) (_, s, refl, v)
    ]
