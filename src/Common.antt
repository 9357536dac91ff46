-- ===== src/Common.antt =====
-- crates/grimoire-common/src/lib.rs: message numbers and connection numbers, as 32-bit words. A mask
-- of whole low or high bits is written by `/` and `%`, and `|` of disjoint bits by `+`.
mod Tests
use grimoire.Prelude.{
  ℕ, ◌+◌, ◌*◌, ◌/◌, ◌%◌, ◌^◌, ◌<◌, ◌≡◌, ◌↔◌, arith, ltb, leb, ◌==◌, if◌then◌else◌, Option, none,
  some, Text, codes,
}
use Prim.Native.String.{String}

abbrev pub local_bits : ℕ
local_bits = 2 ^ 24

abbrev pub domain_room : ℕ
domain_room = 0x0100_0000

abbrev pub domain_battle : ℕ
domain_battle = 0x0200_0000

abbrev pub domain_card : ℕ
domain_card = 0x0300_0000

-- `msg_id & DOMAIN_MASK`.
unfoldable pub domain_of : ℕ → ℕ
domain_of msg_id = msg_id / local_bits % 256 * local_bits

abbrev pub sys_conn_id : ℕ
sys_conn_id = 0x0000_ffff

abbrev pub sys_resume : ℕ
sys_resume = 0x0000_fffe

abbrev pub sys_bind_session : ℕ
sys_bind_session = 0x0000_fffd

abbrev pub sys_auth : ℕ
sys_auth = 0x0000_fffc

abbrev pub room_login : ℕ
room_login = domain_room + 1

abbrev pub room_create : ℕ
room_create = domain_room + 2

abbrev pub room_join : ℕ
room_join = domain_room + 3

abbrev pub room_leave : ℕ
room_leave = domain_room + 4

abbrev pub room_list : ℕ
room_list = domain_room + 5

abbrev pub room_chat : ℕ
room_chat = domain_room + 6

abbrev pub room_state_push : ℕ
room_state_push = domain_room + 0x100

abbrev pub room_chat_push : ℕ
room_chat_push = domain_room + 0x101

abbrev pub battle_join : ℕ
battle_join = domain_battle + 1

abbrev pub battle_input : ℕ
battle_input = domain_battle + 2

abbrev pub battle_leave : ℕ
battle_leave = domain_battle + 3

abbrev pub battle_resync : ℕ
battle_resync = domain_battle + 4

abbrev pub battle_frame_sync : ℕ
battle_frame_sync = domain_battle + 0x100

abbrev pub card_start : ℕ
card_start = domain_card + 1

abbrev pub card_play : ℕ
card_play = domain_card + 2

abbrev pub card_end_turn : ℕ
card_end_turn = domain_card + 3

abbrev pub card_state : ℕ
card_state = domain_card + 4

abbrev pub card_snapshot_push : ℕ
card_snapshot_push = domain_card + 0x100

abbrev pub svc_gateway : Text
svc_gateway = codes "gateway"

abbrev pub svc_room : Text
svc_room = codes "grimoire-room-svc"

abbrev pub svc_battle : Text
svc_battle = codes "grimoire-battle-svc"

abbrev pub svc_card : Text
svc_card = codes "grimoire-card-svc"

-- A connection number: the gateway's number in the high byte, a local one below.
unfoldable pub make : ℕ → ℕ → ℕ
make gateway_id local = gateway_id * local_bits + local % local_bits

unfoldable pub gateway_id_of : ℕ → ℕ
gateway_id_of conn_id = conn_id / local_bits % 256

unfoldable pub local_of : ℕ → ℕ
local_of conn_id = conn_id % local_bits

-- A connection number is a word and gives back the gateway that made it and the local number,
-- the latter as far as 24 bits hold it.
pub make_parts :
    (g l : ℕ)
    → g < 256
    → (make g l < 2 ^ 32) × (gateway_id_of (make g l) ≡ g) × (local_of (make g l) ≡ l % local_bits)
unfolding make gateway_id_of local_of
make_parts g l h = (omega arith, omega arith, omega arith)

-- Two connections have one number exactly if one gateway made both and their local numbers agree
-- in 24 bits; so numbers repeat after 2^24 connections of a gateway.
pub make-eq_iff :
    (g l g' l' : ℕ)
    → g < 256
    → g' < 256
    → (make g l ≡ make g' l') ↔ ((g ≡ g') × (l % local_bits ≡ l' % local_bits))
unfolding make
make-eq_iff g l g' l' h h' = (λ e. (omega arith, omega arith), λ e. omega (arith, e.0, e.1))

-- The domain of a message is that of the block that its number stands in.
pub domain_of-add :
    (d n : ℕ) → d < 256 → n < local_bits → domain_of (d * local_bits + n) ≡ d * local_bits
unfolding domain_of
domain_of-add d n h k = omega arith
