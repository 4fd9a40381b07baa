-- ===== src/Stun/Tests.antt =====
-- Runs of the STUN messages, and the theorems about them at a concrete exchange: the texts of
-- addresses are stood for by a library with one address.
use midscale.Prelude.{
  String, Option, none, some, [], ◌∷◌, ◌≡◌, ◌≢◌, refl, length, arith, ltb, if◌then◌else◌, str_eq,
  true, all, eq_iff,
}
use midscale.Stun.Packing.{Bytes}
use midscale.Stun.{
  IpText, returned, raised, out_of_fuel, build_binding_request, handler, parse_binding_response,
}
use midscale.Stun.Exchange.{exchange_lem}
use midscale.Stun.Scan.{parse_binding_response-ends}

abbrev packed : String → Option Bytes
packed ip = if str_eq ip "10.0.0.7" then some (10 ∷ 0 ∷ 0 ∷ 7 ∷ []) else none

packed_bytes : (ip : String) (b : Bytes) → packed ip ≡ some b → all (λ x. ltb x 256) b ≡ true
packed_bytes ip b e = ground arith

packed_text : (ip : String) (b : Bytes) → packed ip ≡ some b → length b ≡ 4 → "10.0.0.7" ≡ ip
packed_text ip b e h = ground (arith, eq_iff ip "10.0.0.7")

abbrev one_address : IpText
one_address = record {
  packed = packed;
  inet_ntoa = λ b. "10.0.0.7";
  inet_ntop = λ b. "::";
  packed_bytes = packed_bytes;
  inet_ntoa-packed = packed_text;
}

abbrev tid : Bytes
tid = 1 ∷ 2 ∷ 3 ∷ 4 ∷ 5 ∷ 6 ∷ 7 ∷ 8 ∷ 9 ∷ 10 ∷ 11 ∷ 12 ∷ []

answered :
    handler one_address (build_binding_request tid) "10.0.0.7" 51820
    ≡ some (
        1 ∷ 1 ∷ 0 ∷ 8 ∷ 0x21 ∷ 0x12 ∷ 0xA4 ∷ 0x42 ∷ 1 ∷ 2 ∷ 3 ∷ 4 ∷ 5 ∷ 6 ∷ 7 ∷ 8 ∷ 9 ∷ 10 ∷ 11 ∷ 12
        ∷ 0 ∷ 0x20 ∷ 0 ∷ 8 ∷ 0 ∷ 1 ∷ 235 ∷ 126 ∷ 43 ∷ 18 ∷ 164 ∷ 69 ∷ [])
unfolding handler build_binding_request
answered = refl

-- A message cut off in the middle of an attribute makes the client's parser raise.
cut_off :
    parse_binding_response one_address
      (1 ∷ 1 ∷ 0 ∷ 8 ∷ 0x21 ∷ 0x12 ∷ 0xA4 ∷ 0x42 ∷ 1 ∷ 2 ∷ 3 ∷ 4 ∷ 5 ∷ 6 ∷ 7 ∷ 8 ∷ 9 ∷ 10 ∷ 11 ∷ 12
        ∷ 0 ∷ [])
      tid
    ≡ raised
unfolding parse_binding_response
cut_off = refl

exchange_lem_example :
    (reply : Bytes) × (handler one_address (build_binding_request tid) "10.0.0.7" 51820
      ≡ some reply)
    × (parse_binding_response one_address reply tid ≡ returned (some ("10.0.0.7", 51820)))
    × (length reply ≡ 32)
exchange_lem_example =
    exchange_lem one_address tid "10.0.0.7" 51820 (10 ∷ 0 ∷ 0 ∷ 7 ∷ []) refl refl refl (omega arith)

parse_binding_response-ends_example :
    parse_binding_response one_address (1 ∷ 1 ∷ 255 ∷ 255 ∷ []) tid ≢ out_of_fuel
parse_binding_response-ends_example =
    parse_binding_response-ends one_address (1 ∷ 1 ∷ 255 ∷ 255 ∷ []) tid
