-- ===== src/Stun.antt =====
-- Address discovery: the server's messages, backend/app/services/stun_server.py, and the client's,
-- midscaled/daemon/stun_client.py. The texts of addresses are those of Python's `ipaddress` and
-- `socket`, an interface below; the transaction id, which the client draws at random, is an argument.
pub mod Packing
mod Xor
pub mod Exchange
pub mod Scan
mod Tests
use Prim.Native.Nat.{bit_xor}
use midscale.Prelude.{
  ℕ, zero, suc, String, Bool, true, false, not, Option, none, some, List, [], ◌∷◌, ◌++◌, ◌&&◌, ◌||◌,
  ◌≡◌, ◌+◌, ◌/◌, ◌%◌, ◌<◌, length, take, drop, all, ltb, leb, ◌==◌, if◌then◌else◌,
}
use midscale.Stun.Packing.{
  Bytes, bytes_eq, bytes16, bytes32, pack16, pack32, unpack_i, unpack_from_i, unpack_from_hh,
  unpack_from_hhi, unpack_from_bbh,
}

-- What the code relies on of `ipaddress.ip_address(...).packed` (`none` where it raises ValueError),
-- `socket.inet_ntoa` and `socket.inet_ntop`: the packed form is bytes, and an IPv4 text that is
-- accepted is the one that inet_ntoa writes.
pub record IpText : Type 0 where
  pub packed : String → Option Bytes
  pub inet_ntoa : Bytes → String
  pub inet_ntop : Bytes → String
  pub packed_bytes : (ip : String) (b : Bytes) → packed ip ≡ some b → all (λ x. ltb x 256) b ≡ true
  pub inet_ntoa-packed :
      (ip : String) (b : Bytes) → packed ip ≡ some b → length b ≡ 4 → inet_ntoa b ≡ ip

-- A call returns a value or Python's `None`, or raises; `out_of_fuel` is the model's.
pub data Outcome (A : Type 0) : Type 0 where
  returned : Option A → Outcome A
  raised : Outcome A
  out_of_fuel : Outcome A

abbrev pub stun_magic_cookie : ℕ
stun_magic_cookie = 0x2112A442

abbrev pub stun_binding_request : ℕ
stun_binding_request = 0x0001

abbrev pub stun_binding_response : ℕ
stun_binding_response = 0x0101

abbrev pub stun_xor_mapped_address : ℕ
stun_xor_mapped_address = 0x0020

abbrev pub stun_header_size : ℕ
stun_header_size = 20

-- struct.pack("!HHI", msg_type, msg_len, STUN_MAGIC_COOKIE), at fields that fit
abbrev pub header : (msg_type msg_len : ℕ) → Bytes
header msg_type msg_len = bytes16 msg_type ++ bytes16 msg_len ++ bytes32 stun_magic_cookie

-- data[8:20]
abbrev pub tid_of : Bytes → Bytes
tid_of message = take 12 (drop 8 message)

unfoldable pub build_binding_request : (transaction_id : Bytes) → Bytes
build_binding_request transaction_id = header stun_binding_request 0 ++ transaction_id

-- `none` where `struct` raises: a port beyond 16 bits, a packed address that has not four bytes.
unfoldable pub attr_value : (packed : Bytes) (port : ℕ) → Option Bytes
unfolding pack16 pack32
attr_value packed port = elim (pack16 (bit_xor port (stun_magic_cookie / 65536))) [
  | none ↦ none
  | some p ↦ elim (unpack_i packed) [
    | none ↦ none
    | some n ↦ elim (pack32 (bit_xor n stun_magic_cookie)) [
      | none ↦ none
      | some a ↦ some (0 ∷ 1 ∷ p ++ a)
    ]
  ]
]

abbrev pub respond : (transaction_id : Bytes) → Option Bytes → Outcome Bytes
respond tid none = raised
respond tid (some value) = returned (
    some (
      header stun_binding_response (length value)
      ++ (tid ++ (bytes16 stun_xor_mapped_address ++ (bytes16 (length value) ++ value)))))

abbrev pub answer_to : (transaction_id : Bytes) (port : ℕ) → Option Bytes → Outcome Bytes
answer_to tid port none = returned none
answer_to tid port (some b) = respond tid (attr_value b port)

-- `_parse_request`, whose value is the length that the log shows.
abbrev pub request_length : Option (ℕ × ℕ × ℕ) → Outcome ℕ
request_length none = raised
request_length (some (msg_type, msg_len, cookie)) =
    if not (cookie == stun_magic_cookie) || not (msg_type == stun_binding_request)
    then returned none
    else returned (some msg_len)

unfoldable pub parse_request : (request_data : Bytes) → Outcome ℕ
parse_request request =
    if ltb (length request) stun_header_size
    then returned none
    else request_length (unpack_from_hhi request)

-- The datagram that goes back: none where a call returned `None` or raised, which the handler logs.
abbrev pub sent : Outcome Bytes → Option Bytes
sent (returned reply) = reply
sent raised = none
sent out_of_fuel = none

-- What the loop over the attributes does at one: it returns or raises, or goes on.
pub data Visit : Type 0 where
  stop : Outcome (String × ℕ) → Visit
  next : Visit

-- The words that are left, each packed after `^ STUN_MAGIC_COOKIE`.
abbrev pub unmask_words : ℕ → Bytes → Option Bytes
unmask_words zero value = some []
unmask_words (suc k) value = elim (unpack_from_i value) [
  | none ↦ none
  | some n ↦ elim (pack32 (bit_xor n stun_magic_cookie)) [
    | none ↦ none
    | some b ↦ elim (unmask_words k (drop 4 value)) [ none ↦ none | some c ↦ some (b ++ c) ]
  ]
]

-- offset += 4 + attr_length, and a padding byte
abbrev pub following : (offset attr_length : ℕ) → ℕ
following offset attr_length = offset + 4 + attr_length + (if attr_length % 2 == 0 then 0 else 1)

module _ (lib : IpText) where
  abbrev pub answer_request :
      (request_data : Bytes) (ip : String) (port : ℕ) → Option (ℕ × ℕ × ℕ) → Outcome Bytes
  answer_request request ip port none = raised
  answer_request request ip port (some (msg_type, msg_len, cookie)) =
      if not (cookie == stun_magic_cookie)
      then returned none
      else if not (msg_type == stun_binding_request)
      then returned none
      else if not (length (tid_of request) == 12)
      then returned none
      else answer_to (tid_of request) port (lib.packed ip)

  unfoldable pub build_binding_response :
      (request_data : Bytes) (ip : String) (port : ℕ) → Outcome Bytes
  unfolding attr_value
  build_binding_response request ip port =
      if ltb (length request) stun_header_size
      then returned none
      else answer_request request ip port (unpack_from_hhi request)

  abbrev pub handle_parsed : (message : Bytes) (ip : String) (port : ℕ) → Outcome ℕ → Option Bytes
  handle_parsed message ip port (returned (some l)) = sent (build_binding_response message ip port)
  handle_parsed message ip port _ = none

  unfoldable pub handler : (message : Bytes) (ip : String) (port : ℕ) → Option Bytes
  unfolding build_binding_response parse_request
  handler message ip port = handle_parsed message ip port (parse_request message)

  abbrev pub address_v4 : (port : ℕ) → Option ℕ → Outcome (String × ℕ)
  address_v4 port none = raised
  address_v4 port (some n) = elim (pack32 (bit_xor n stun_magic_cookie)) [
    | none ↦ raised
    | some b ↦ returned (some (lib.inet_ntoa b, port))
  ]

  abbrev pub address_v6 : (port : ℕ) → Option Bytes → Outcome (String × ℕ)
  address_v6 port none = raised
  address_v6 port (some b) = returned (some (lib.inet_ntop b, port))

  abbrev pub visit_mapped : (attr_length : ℕ) (value : Bytes) → Option (ℕ × ℕ × ℕ) → Visit
  visit_mapped attr_length value none = stop raised
  visit_mapped attr_length value (some (reserved, family, xored_port)) =
      let port = bit_xor xored_port (stun_magic_cookie / 65536) in
      if family == 1 && leb 8 attr_length
      then stop (address_v4 port (unpack_from_i (drop 4 value)))
      else if family == 2 && leb 20 attr_length
      then stop (address_v6 port (unmask_words 4 (drop 4 value)))
      else next

  unfoldable pub visit : (attr_type attr_length : ℕ) (value : Bytes) → Visit
  unfolding pack32
  visit attr_type attr_length value =
      if attr_type == stun_xor_mapped_address && leb 8 attr_length
      then visit_mapped attr_length value (unpack_from_bbh value)
      else next

  -- The loop, on fuel.
  unfoldable pub scan : ℕ → (message : Bytes) (offset end : ℕ) → Outcome (String × ℕ)
  unfolding visit
  scan zero message offset end = out_of_fuel
  scan (suc fuel) message offset end = elim (leb (offset + 4) end) [
    | false ↦ returned none
    | true ↦ elim (unpack_from_hh (drop offset message)) [
      | none ↦ raised
      | some (attr_type, attr_length) ↦
          elim (visit attr_type attr_length (drop (offset + 4) message)) [
            | stop r ↦ r
            | next ↦ scan fuel message (following offset attr_length) end
          ]
    ]
  ]

  abbrev pub parse_header :
      (message expected_tid : Bytes) → Option (ℕ × ℕ × ℕ) → Outcome (String × ℕ)
  parse_header message expected none = raised
  parse_header message expected (some (msg_type, msg_len, cookie)) =
      if not (cookie == stun_magic_cookie)
      then returned none
      else if not (msg_type == stun_binding_response)
      then returned none
      else if not (bytes_eq (tid_of message) expected) || not (length (tid_of message) == 12)
      then returned none
      else scan (msg_len + 1) message stun_header_size (stun_header_size + msg_len)

  unfoldable pub parse_binding_response : (message expected_tid : Bytes) → Outcome (String × ℕ)
  unfolding scan bytes_eq
  parse_binding_response message expected =
      if ltb (length message) stun_header_size
      then returned none
      else parse_header message expected (unpack_from_hhi message)
