-- ===== src/Client/Stun/Tests.antt =====
-- The packets of STUN at concrete values.
use wzp.Common.{ℕ, ◌≡◌, refl, List, [], ◌∷◌, ◌++◌, arith}
use wzp.Client.Stun.{
  ok, SocketAddr, v4, encode_binding_request, parse_binding_response, byte_at, u16_at, slice,
  xor_bytes, parse_mapped_address, parse_xor_mapped_address, ok_of, take_attribute, walk,
  same_bytes, best, read_attributes, check_header,
}
use wzp.Client.Stun.Safety.{IsSafe, parse_binding_response-IsSafe}
use wzp.Client.Stun.Writer.{attribute, attributes, xor_value, response}
use wzp.Client.Stun.RoundTrip.{parse_binding_response-response}
use wzp.Client.Stun.Match.{IsReply, parse_binding_response-IsReply}

abbrev txn : List ℕ
txn = 1 ∷ 2 ∷ 3 ∷ 4 ∷ 5 ∷ 6 ∷ 7 ∷ 8 ∷ 9 ∷ 10 ∷ 11 ∷ 12 ∷ []

abbrev home : SocketAddr
home = v4 (203 ∷ 0 ∷ 113 ∷ 9 ∷ []) 40000

-- A wrong MAPPED-ADDRESS, an attribute with padding, the address, and the wrong one again.
abbrev wrong : ℕ × List ℕ
wrong = (1, 0 ∷ 1 ∷ 1 ∷ 1 ∷ 10 ∷ 0 ∷ 0 ∷ 1 ∷ [])

abbrev packet : List ℕ
packet =
    response txn
      ((wrong ∷ (0x8022, 1 ∷ 2 ∷ 3 ∷ []) ∷ []) ++ ((0x20, xor_value home txn) ∷ (wrong ∷ [])))

parse_binding_response-response_example : parse_binding_response packet txn ≡ ok home
parse_binding_response-response_example =
    parse_binding_response-response home txn (wrong ∷ (0x8022, 1 ∷ 2 ∷ 3 ∷ []) ∷ []) (wrong ∷ [])
      refl refl (omega arith, (omega arith, tt)) (omega arith, tt)

parsed : parse_binding_response packet txn ≡ ok home
unfolding parse_binding_response response attributes attribute xor_value xor_bytes byte_at u16_at
    slice parse_mapped_address parse_xor_mapped_address ok_of take_attribute walk same_bytes best
    read_attributes check_header
parsed = refl

parse_binding_response-IsReply_example : IsReply packet txn
parse_binding_response-IsReply_example = parse_binding_response-IsReply packet txn home parsed

parse_binding_response-IsSafe_example :
    IsSafe (parse_binding_response (encode_binding_request txn) txn)
parse_binding_response-IsSafe_example =
    parse_binding_response-IsSafe (encode_binding_request txn) txn
