-- ===== src/Net.antt =====
-- crates/grimoire-net/src/lib.rs: the frames of the TCP connection and their codec. A buffer
-- (`BytesMut`) is the list of its bytes; `reserve` and capacities have no counterpart.
pub mod Word
pub mod Udp
pub mod Prefix
pub mod Roundtrip
pub mod Stream
mod Tests
use grimoire.Prelude.{
  ℕ, zero, suc, ◌+◌, ◌*◌, Bool, true, false, not, ◌&&◌, ltb, ◌==◌, if◌then◌else◌, Option, none,
  some, List, [], ◌∷◌, ◌++◌, length, get_or, take, drop,
}
use Word.{u32_be, from_be, byte}

abbrev pub version : ℕ
version = 1

abbrev pub header_len : ℕ
header_len = 16

abbrev pub max_payload : ℕ
max_payload = 4 * 1024 * 1024

pub data PType : Type 0 where
  request response push heartbeat close : PType

-- `ptype as u8`.
unfoldable pub as_u8 : PType → ℕ
as_u8 PType.request = 0
as_u8 PType.response = 1
as_u8 PType.push = 2
as_u8 PType.heartbeat = 3
as_u8 PType.close = 4

unfoldable pub from_u8 : ℕ → Option PType
from_u8 v =
    if v == 0
    then some PType.request
    else if v == 1
    then some PType.response
    else if v == 2
    then some PType.push
    else if v == 3
    then some PType.heartbeat
    else if v == 4
    then some PType.close
    else none

pub record Frame : Type 0 where
  pub ptype : PType
  pub msg_id : ℕ
  pub seq : ℕ
  pub payload : List ℕ

-- `io` is what the transport reports; the codec never raises it.
pub data FrameError : Type 0 where
  bad_magic io : FrameError
  bad_version bad_ptype too_large : ℕ → FrameError

pub data Result {ℓ} (A : Type ℓ) : Type ℓ where
  ok : A → Result A
  err : FrameError → Result A

abbrev pub header : Frame → List ℕ
header f =
    b'M'
    ∷ b'T'
    ∷ version
    ∷ as_u8 f.ptype
    ∷ u32_be f.msg_id (u32_be f.seq (u32_be (length f.payload) []))

unfoldable pub encode_into : Frame → List ℕ → List ℕ
encode_into f buf = buf ++ (header f ++ f.payload)

unfoldable pub encode : Frame → List ℕ
unfolding encode_into
encode f = encode_into f []

-- The length is known: the frame is taken off the buffer when it is there as a whole.
unfoldable pub decode_payload : PType → ℕ → List ℕ → Result (Option Frame) × List ℕ
decode_payload p len src =
    if ltb max_payload len
    then (err (too_large len), src)
    else if ltb (length src) (header_len + len)
    then (ok none, src)
    else (
      ok (
          some (record {
            ptype = p;
            msg_id = from_be (byte src 4) (byte src 5) (byte src 6) (byte src 7);
            seq = from_be (byte src 8) (byte src 9) (byte src 10) (byte src 11);
            payload = take len (drop header_len src);
          })),
      drop len (drop header_len src),
    )

unfoldable pub decode_typed : Option PType → List ℕ → Result (Option Frame) × List ℕ
unfolding decode_payload
decode_typed none src = (err (bad_ptype (byte src 3)), src)
decode_typed (some p) src =
    decode_payload p (from_be (byte src 12) (byte src 13) (byte src 14) (byte src 15)) src

-- The result, and the buffer that the call leaves.
unfoldable pub decode : List ℕ → Result (Option Frame) × List ℕ
unfolding decode_typed
decode src =
    if ltb (length src) header_len
    then (ok none, src)
    else if not (byte src 0 == b'M' && byte src 1 == b'T')
    then (err bad_magic, src)
    else if not (byte src 2 == version)
    then (err (bad_version (byte src 2)), src)
    else decode_typed (from_u8 (byte src 3)) src
