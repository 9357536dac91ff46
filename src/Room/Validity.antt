-- ===== src/Room/Validity.antt =====
-- The well-formed states of the room service.
use grimoire.Prelude.{
  ℕ, ◌<◌, ◌≤◌, ◌≡◌, refl, sym, ap, ◌∙◌, arith, inl, inr, Bool, true, false, not, ◌==◌,
  if◌then◌else◌, Option, some, none, List, [], ◌∷◌, length, retain, insert, remove, insert-cases,
  remove-some, Bool-cases, Option-cases,
}
use grimoire.Room.{
  App, Player, Room, init, mark_member, mark_room, set_online, emit, emit_dir, Effect,
}
use grimoire.Room.Service.{put_room, without_player, min_capacity, max_capacity}

-- A room stands under its number, has from 2 to 64 places, a member, and no more than fit.
pub record IsRoom (k : ℕ) (r : Room) : Type 0 where
  pub number : r.id ≡ k
  pub least : min_capacity ≤ r.capacity
  pub most : r.capacity ≤ max_capacity
  pub inhabited : 0 < length r.members
  pub fits : length r.members ≤ r.capacity

pub record IsValid (s : App) : Type 0 where
  pub rooms_ok : (k : ℕ) (r : Room) → s.rooms k ≡ some r → IsRoom k r
  pub rooms_below : (k : ℕ) (r : Room) → s.rooms k ≡ some r → (0 < k) × (k < s.next_room)
  pub players_ok :
      (c : ℕ) (p : Player) → s.players c ≡ some p → (p.conn_id ≡ c) × (p.player_id < s.next_player)
  pub some_room : 0 < s.next_room

pub init-IsValid : (a b : Bool) (n : List ℕ) → IsValid (init a b n)
init-IsValid a b n = record {
  rooms_ok = λ k r h. cc;
  rooms_below = λ k r h. cc;
  players_ok = λ c p h. cc;
  some_room = omega arith;
}

-- Validity is about the players, the rooms and the counters.
pub same-IsValid :
    (s t : App)
    → IsValid s
    → t.rooms ≡ s.rooms
    → t.players ≡ s.players
    → t.next_room ≡ s.next_room
    → t.next_player ≡ s.next_player
    → IsValid t
same-IsValid s t v a b c d = record {
  rooms_ok = λ k r h. v.rooms_ok k r (ap (λ m. m k) (sym a) ∙ h);
  rooms_below = λ k r h. ground (arith, v.rooms_below k r (ap (λ m. m k) (sym a) ∙ h));
  players_ok = λ n p h. ground (arith, v.players_ok n p (ap (λ m. m n) (sym b) ∙ h));
  some_room = ground (arith, v.some_room);
}

pub set_player-IsValid :
    (s : App) (c : ℕ) (p : Player)
    → IsValid s
    → p.conn_id ≡ c
    → p.player_id < s.next_player
    → IsValid (record s { players = insert c p s.players })
set_player-IsValid s c p v i b = record {
  rooms_ok = v.rooms_ok;
  rooms_below = v.rooms_below;
  players_ok = λ n q h. elim (insert-cases c p s.players n h) [
    | inl (e, f) ↦ ground arith
    | inr (e, f) ↦ v.players_ok n q f
  ];
  some_room = v.some_room;
}

pub remove_player-IsValid :
    (s : App) (c : ℕ) → IsValid s → IsValid (record s { players = remove c s.players })
remove_player-IsValid s c v = record {
  rooms_ok = v.rooms_ok;
  rooms_below = v.rooms_below;
  players_ok = λ n q h. v.players_ok n q (remove-some c s.players n h).1;
  some_room = v.some_room;
}

pub set_room-IsValid :
    (s : App) (k : ℕ) (r : Room)
    → IsValid s
    → IsRoom k r
    → 0 < k
    → k < s.next_room
    → IsValid (record s { rooms = insert k r s.rooms })
set_room-IsValid s k r v i p b = record {
  rooms_ok = λ j x h. elim (insert-cases k r s.rooms j h) [
    | inl (e, f) ↦ ground arith
    | inr (e, f) ↦ v.rooms_ok j x f
  ];
  rooms_below = λ j x h. elim (insert-cases k r s.rooms j h) [
    | inl (e, f) ↦ ground arith
    | inr (e, f) ↦ v.rooms_below j x f
  ];
  players_ok = v.players_ok;
  some_room = v.some_room;
}

pub remove_room-IsValid :
    (s : App) (k : ℕ) → IsValid s → IsValid (record s { rooms = remove k s.rooms })
remove_room-IsValid s k v = record {
  rooms_ok = λ j x h. v.rooms_ok j x (remove-some k s.rooms j h).1;
  rooms_below = λ j x h. v.rooms_below j x (remove-some k s.rooms j h).1;
  players_ok = v.players_ok;
  some_room = v.some_room;
}

pub emit-IsValid : (s : App) (es : List Effect) → IsValid s → IsValid (emit es s)
emit-IsValid s es v = same-IsValid s (emit es s) v refl refl refl refl

if-IsValid : (b : Bool) (s t : App) → IsValid s → IsValid t → IsValid (if b then s else t)
if-IsValid true s t v w = v
if-IsValid false s t v w = w

pub emit_dir-IsValid : (s : App) (es : List Effect) → IsValid s → IsValid (emit_dir es s)
emit_dir-IsValid s es v = if-IsValid s.has_dir (emit es s) s (emit-IsValid s es v) v

pub length-mark_member :
    (c : ℕ) (o : Bool) (ms : List Player) → length (mark_member c o ms) ≡ length ms
unfolding mark_member
length-mark_member c o [] = refl
length-mark_member c o (m ∷ ms) = ground (arith, length-mark_member c o ms)

pub length-retain : (f : Player → Bool) (ms : List Player) → length (retain f ms) ≤ length ms
unfolding retain
length-retain f [] = omega arith
length-retain f (m ∷ ms) = ground (arith, length-retain f ms)

pub without_player-IsRoom :
    (k n : ℕ) (r : Room)
    → IsRoom k r
    → 0 < length (without_player n r).members
    → IsRoom k (without_player n r)
unfolding without_player
without_player-IsRoom k n r v h = record {
  number = v.number;
  least = v.least;
  most = v.most;
  inhabited = h;
  fits = omega (arith, length-retain (λ m. not (m.player_id == n)) r.members, v.fits);
}

mark_room-IsValid :
    (s : App) (c k : ℕ) (o : Bool) (r : Option Room)
    → s.rooms k ≡ r
    → IsValid s
    → IsValid (mark_room c o r k s)
mark_room-IsValid s c k o none h v = v
mark_room-IsValid s c k o (some r) h v =
    let i = v.rooms_ok k r h in
    let same = length-mark_member c o r.members in
    let (pos, below) = v.rooms_below k r h in
    set_room-IsValid s k (record r { members = mark_member c o r.members }) v
      (record {
        number = i.number;
        least = i.least;
        most = i.most;
        inhabited = omega (arith, same, i.inhabited);
        fits = omega (arith, same, i.fits);
      })
      pos below

pub set_online-IsValid : (s : App) (c : ℕ) (o : Bool) → IsValid s → IsValid (set_online c o s)
unfolding set_online
set_online-IsValid s c o v = elim (Option-cases (s.players c)) [
  | inl e ↦ rw e v
  | inr (p, e) ↦
      let (i, b) = v.players_ok c p e in
      rw e (
        mark_room-IsValid (record s { players = insert c (record p { online = o }) s.players }) c
          p.room_id o (s.rooms p.room_id) refl
          (set_player-IsValid s c (record p { online = o }) v i b))
]

-- A room without a player is put back, or closed when nobody is left.
pub put_room-IsValid :
    (s : App) (k n : ℕ) (r : Room)
    → s.rooms k ≡ some r
    → IsValid s
    → IsValid (put_room k (without_player n r) s)
unfolding put_room
put_room-IsValid s k n r h v =
    let (pos, below) = v.rooms_below k r h in
    elim (Bool-cases (length (without_player n r).members == 0)) [
      | inl e ↦
          rw e
            (emit_dir-IsValid (record s { rooms = remove k s.rooms }) _ (remove_room-IsValid s k v))
      | inr e ↦ rw e (
          set_room-IsValid s k (without_player n r) v
            (without_player-IsRoom k n r (v.rooms_ok k r h) (ground arith)) pos below)
    ]
