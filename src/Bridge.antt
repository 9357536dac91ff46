-- ===== src/Bridge.antt =====
-- proto/messages.proto: what a gateway and a service exchange over the bridge. The protobuf library
-- encodes and decodes payloads; a service takes its decoders and encoders as an argument.
use grimoire.Prelude.{ℕ, List, ◌++◌, Text, codes, hexadecimal, utf8}

pub record ForwardRequest : Type 0 where
  pub conn_id : ℕ
  pub seq : ℕ
  pub msg_id : ℕ
  pub payload : List ℕ

pub record ForwardReply : Type 0 where
  pub conn_id : ℕ
  pub seq : ℕ
  pub msg_id : ℕ
  pub code : ℕ
  pub payload : List ℕ

-- What a decoder answers: the message, or the text of its error.
pub data Decoded {ℓ} (A : Type ℓ) : Type ℓ where
  message : A → Decoded A
  malformed : Text → Decoded A

-- The closures `reply` and `err` of `process`.
abbrev pub reply : ForwardRequest → List ℕ → ForwardReply
reply req payload = record {
  conn_id = req.conn_id;
  seq = req.seq;
  msg_id = req.msg_id;
  code = 0;
  payload = payload;
}

abbrev pub error_reply : ForwardRequest → Text → ForwardReply
error_reply req text = record {
  conn_id = req.conn_id;
  seq = req.seq;
  msg_id = req.msg_id;
  code = 1;
  payload = utf8 text;
}

abbrev pub bad_payload : ForwardRequest → Text → ForwardReply
bad_payload req e = error_reply req (codes "bad payload: " ++ e)

abbrev pub unknown_msg : ForwardRequest → ForwardReply
unknown_msg req = error_reply req (codes "unknown msg_id 0x" ++ hexadecimal 8 req.msg_id)
