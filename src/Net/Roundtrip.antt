-- ===== src/Net/Roundtrip.antt =====
-- What is encoded is decoded, and what is decoded was encoded.
use grimoire.Prelude.{
  ℕ, ◌<◌, ◌≤◌, ◌≡◌, refl, arith, some, List, ◌∷◌, ◌++◌, length, length-append, take-append_length,
  drop-append_length, take, take-append-drop, drop, length-take,
}
use grimoire.Net.Word.{u32_mod, from_be, u32_be, from_be-u32, u32_be-from, IsBytes}
use grimoire.Net.{
  PType, Frame, ok, err, too_large, max_payload, version, encode, decode, from_u8, as_u8,
}

-- The fields fit their words, and the payload the decoder's limit.
pub record IsSendable (f : Frame) : Type 0 where
  pub msg_id_fits : f.msg_id < u32_mod
  pub seq_fits : f.seq < u32_mod
  pub payload_fits : length f.payload ≤ max_payload

-- `from_u8` inverts the cast of a packet type.
from_u8-as_u8 : (p : PType) → from_u8 (as_u8 p) ≡ some p
unfolding from_u8 as_u8
from_u8-as_u8 PType.request = refl
from_u8-as_u8 PType.response = refl
from_u8-as_u8 PType.push = refl
from_u8-as_u8 PType.heartbeat = refl
from_u8-as_u8 PType.close = refl

as_u8-from_u8 : (v : ℕ) {p : PType} → from_u8 v ≡ some p → as_u8 p ≡ v
unfolding from_u8 as_u8
as_u8-from_u8 v h = ground arith

-- A frame that fits is decoded from its encoding, and the bytes behind it are left.
pub decode-encode :
    (f : Frame) (rest : List ℕ) → IsSendable f → decode (encode f ++ rest) ≡ (ok (some f), rest)
unfolding decode encode
decode-encode f rest s = ground (
  arith,
  from_u8-as_u8 f.ptype,
  take-append_length f.payload rest,
  drop-append_length f.payload rest,
  length-append f.payload rest,
  from_be-u32 f.msg_id s.msg_id_fits,
  from_be-u32 f.seq s.seq_fits,
  from_be-u32 (length f.payload),
)

-- The encoder has no limit: a longer payload is written, and the decoder refuses it.
pub decode-encode_large :
    (f : Frame) (rest : List ℕ)
    → max_payload < length f.payload
    → length f.payload < u32_mod
    → decode (encode f ++ rest) ≡ (err (too_large (length f.payload)), encode f ++ rest)
unfolding decode encode
decode-encode_large f rest h k =
    ground (arith, from_u8-as_u8 f.ptype, from_be-u32 (length f.payload))

-- The fields that the decoder read, for a buffer that holds a header.
record IsHeader (a b c d : ℕ) (msg seq len : ℕ) (r : List ℕ) (f : Frame) (rest : List ℕ)
    : Type 0 where
  magic : (b'M' ≡ a) × (b'T' ≡ b) × (version ≡ c)
  ptype : as_u8 f.ptype ≡ d
  msg_id : f.msg_id ≡ msg
  seq_id : f.seq ≡ seq
  size : length f.payload ≡ len
  body : f.payload ++ rest ≡ r

decode-IsHeader :
    (a b c d e f g h i j k l m n o p : ℕ) (r : List ℕ) {fr : Frame} {rest : List ℕ}
    → decode (a ∷ b ∷ c ∷ d ∷ e ∷ f ∷ g ∷ h ∷ i ∷ j ∷ k ∷ l ∷ m ∷ n ∷ o ∷ p ∷ r)
      ≡ (ok (some fr), rest)
    → IsHeader a b c d (from_be e f g h) (from_be i j k l) (from_be m n o p) r fr rest
unfolding decode
decode-IsHeader a b c d e f g h i j k l m n o p r {fr} {rest} q = record {
  magic = (ground arith, ground arith, ground arith);
  ptype = as_u8-from_u8 d (ground arith);
  msg_id = ground arith;
  seq_id = ground arith;
  size = let t = taken in ground (arith, length-take (from_be m n o p) r);
  body = rw (taken.0, taken.1) (take-append-drop (from_be m n o p) r);
}
  where
    taken : (fr.payload ≡ take (from_be m n o p) r) × (rest ≡ drop (from_be m n o p) r)
    taken = (ground arith, ground arith)

u32_be_lem :
    {n : ℕ} (a b c d : ℕ) {r s : List ℕ}
    → a < 256
    → b < 256
    → c < 256
    → d < 256
    → n ≡ from_be a b c d
    → r ≡ s
    → u32_be n r ≡ a ∷ b ∷ c ∷ d ∷ s
u32_be_lem a b c d ha hb hc hd e q = rw (e, q) (u32_be-from a b c d _ ha hb hc hd)

cons_lem :
    {a b c d a' b' c' d' : ℕ} {r s : List ℕ}
    → a ≡ a'
    → b ≡ b'
    → c ≡ c'
    → d ≡ d'
    → r ≡ s
    → a ∷ b ∷ c ∷ d ∷ r ≡ a' ∷ b' ∷ c' ∷ d' ∷ s
cons_lem p q r s t = cc

-- Of bytes, a decoded frame's encoding is exactly what was taken off the buffer.
pub encode-decode :
    (src : List ℕ) {f : Frame} {rest : List ℕ}
    → IsBytes src
    → decode src ≡ (ok (some f), rest)
    → encode f ++ rest ≡ src
unfolding encode
encode-decode (a ∷ b ∷ c ∷ d ∷ e ∷ f ∷ g ∷ h ∷ i ∷ j ∷ k ∷ l ∷ m ∷ n ∷ o ∷ p ∷ r)
      (_, (_, (_, (_, (ve, (vf, (vg, (vh, (vi, (vj, (vk, (vl, (vm, (vn, (vo, (vp, _))))))))))))))))
      q =
    let x = decode-IsHeader a b c d e f g h i j k l m n o p r q in
    cons_lem x.magic.0 x.magic.1 x.magic.2 x.ptype (
      u32_be_lem e f g h ve vf vg vh x.msg_id
        (u32_be_lem i j k l vi vj vk vl x.seq_id (u32_be_lem m n o p vm vn vo vp x.size x.body)))
encode-decode src v q = unfold decode in ground arith
