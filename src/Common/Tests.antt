-- ===== src/Common/Tests.antt =====
-- Runs of the number layouts at concrete inputs.
use grimoire.Prelude.{◌*◌, ◌+◌, ◌%◌, ◌^◌, ◌<◌, ◌≡◌, refl, arith}
use grimoire.Common.{
  local_bits, make, gateway_id_of, local_of, domain_of, domain_card, card_play, make_parts,
  domain_of-add,
}

domain_of_play : domain_of card_play ≡ domain_card
unfolding domain_of
domain_of_play = refl

make_parts_example :
    (make 3 70000 < 2 ^ 32)
    × (gateway_id_of (make 3 70000) ≡ 3)
    × (local_of (make 3 70000) ≡ 70000 % local_bits)
make_parts_example = make_parts 3 70000 (omega arith)

domain_of-add_example : domain_of (3 * local_bits + 2) ≡ 3 * local_bits
domain_of-add_example = domain_of-add 3 2 (omega arith) (omega arith)
