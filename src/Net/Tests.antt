-- ===== src/Net/Tests.antt =====
-- Runs of the codec at concrete inputs.
use grimoire.Prelude.{ℕ, ◌≡◌, refl, arith, some, List, [], ◌∷◌, ◌++◌}
use grimoire.Net.{Frame, PType, ok, encode, decode, from_u8, as_u8}
use grimoire.Net.Udp.{
  peer_packet, parse_peer_packet, push_datagram, parse_push_datagram, parse-peer_packet,
  parse-push_datagram,
}
use grimoire.Net.Prefix.{decode-append_frame}
use grimoire.Net.Roundtrip.{IsSendable, decode-encode, encode-decode}
use grimoire.Net.Stream.{waiting, Receives, Receives-encode_all, Receives-sent}

abbrev login : Frame
login = record { ptype = PType.request; msg_id = 0x0100_0001; seq = 7; payload = 1 ∷ 2 ∷ 3 ∷ [] }

abbrev wire : List ℕ
wire = 77 ∷ 84 ∷ 1 ∷ 0 ∷ 1 ∷ 0 ∷ 0 ∷ 1 ∷ 0 ∷ 0 ∷ 0 ∷ 7 ∷ 0 ∷ 0 ∷ 0 ∷ 3 ∷ 1 ∷ 2 ∷ 3 ∷ []

abbrev login_bad : List ℕ
login_bad = 72 ∷ 84 ∷ 1 ∷ 0 ∷ 1 ∷ 0 ∷ 0 ∷ 1 ∷ 0 ∷ 0 ∷ 0 ∷ 7 ∷ 0 ∷ 0 ∷ 0 ∷ 3 ∷ []

encode-login : encode login ≡ wire
unfolding encode as_u8
encode-login = refl

decode-wire : decode (wire ++ 9 ∷ []) ≡ (ok (some login), 9 ∷ [])
unfolding decode from_u8
decode-wire = refl

login-IsSendable : IsSendable login
login-IsSendable = record {
  msg_id_fits = omega arith;
  seq_fits = omega arith;
  payload_fits = omega arith;
}

decode-encode_example : decode (encode login ++ 9 ∷ []) ≡ (ok (some login), 9 ∷ [])
decode-encode_example = decode-encode login (9 ∷ []) login-IsSendable

encode-decode_example : encode login ++ 9 ∷ [] ≡ wire ++ 9 ∷ []
encode-decode_example = encode-decode (wire ++ 9 ∷ []) (omega arith) decode-wire

decode-append_frame_example : decode ((wire ++ 9 ∷ []) ++ 8 ∷ []) ≡ (ok (some login), 9 ∷ 8 ∷ [])
decode-append_frame_example = decode-append_frame (wire ++ 9 ∷ []) (8 ∷ []) decode-wire

abbrev first_cut : List ℕ
first_cut = 77 ∷ 84 ∷ 1 ∷ 0 ∷ 1 ∷ []

abbrev second_cut : List ℕ
second_cut = 0 ∷ 0 ∷ 1 ∷ 0 ∷ 0 ∷ 0 ∷ 7 ∷ 0 ∷ 0 ∷ 0 ∷ 3 ∷ 1 ∷ 2 ∷ 3 ∷ 77 ∷ []

cuts_arrive : Receives [] (first_cut ∷ second_cut ∷ []) (login ∷ []) (waiting (77 ∷ []))
unfolding decode encode as_u8
cuts_arrive =
    Receives-encode_all (login ∷ []) (77 ∷ []) (first_cut ∷ second_cut ∷ []) (login-IsSendable, tt)
      refl refl

Receives-sent_example : ((login ∷ []) ≡ (login ∷ [])) × (waiting (77 ∷ []) ≡ waiting (77 ∷ []))
unfolding decode encode as_u8
Receives-sent_example =
    Receives-sent (login ∷ []) (login ∷ []) (77 ∷ []) (first_cut ∷ second_cut ∷ [])
      (login-IsSendable, tt) refl refl cuts_arrive

parse-peer_packet_example :
    parse_peer_packet (peer_packet 0x0100_0005 0x0200_0002 (4 ∷ []))
    ≡ some (0x0100_0005, 0x0200_0002, 4 ∷ [])
parse-peer_packet_example =
    parse-peer_packet 0x0100_0005 0x0200_0002 (4 ∷ []) (omega arith) (omega arith)

parse-push_datagram_example :
    parse_push_datagram (push_datagram 0x0200_0100 0 (4 ∷ [])) ≡ some (0x0200_0100, 0, 4 ∷ [])
parse-push_datagram_example = parse-push_datagram 0x0200_0100 0 (4 ∷ []) (omega arith) (omega arith)
