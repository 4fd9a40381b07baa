-- ===== src/Stun/Exchange.antt =====
-- A request of midscaled/daemon/stun_client.py, the answer of backend/app/services/stun_server.py and
-- what the client reads from it.
use Prim.Native.Nat.{bit_xor}
use midscale.Prelude.{
  ℕ, String, true, some, [], ◌∷◌, ◌++◌, ◌≡◌, refl, sym, ap, ◌∙◌, ◌/◌, ◌%◌, ◌<◌, arith, length, all,
  ltb, lt→ltb, take, drop, ==_refl, take-append, drop-append, drop_more, length-append,
}
use mathlib.Core.List.{append-nil}
use midscale.Stun.Packing.{Bytes, bytes_eq, bytes16, bytes32, pack16, pack32, word16, word32}
use midscale.Stun.Xor.{bit_xor16, bit_xor32, bit_xor_twice}
use midscale.Stun.{
  IpText, returned, build_binding_request, attr_value, build_binding_response, parse_request,
  handler, header, tid_of, scan, visit, parse_binding_response, stun_binding_response,
  stun_magic_cookie, stun_xor_mapped_address, address_v4,
}

pack16_lem : (n : ℕ) → n < 65536 → pack16 n ≡ some (bytes16 n)
unfolding pack16
pack16_lem n h = rw (lt→ltb n 65536 h)

pack32_lem : (n : ℕ) → n < 4294967296 → pack32 n ≡ some (bytes32 n)
unfolding pack32
pack32_lem n h = rw (lt→ltb n 4294967296 h)

word16-bytes16 : (n : ℕ) → word16 (n / 256) (n % 256) ≡ n
word16-bytes16 n = omega arith

word32-bytes32 :
    (n : ℕ) → n < 4294967296 → word32 (n / 16777216) (n / 65536 % 256) (n / 256 % 256) (n % 256) ≡ n
word32-bytes32 n h = omega arith

bytes_eq_refl : (b : Bytes) → bytes_eq b b ≡ true
unfolding bytes_eq
bytes_eq_refl [] = refl
bytes_eq_refl (a ∷ b) = rw (==_refl a, bytes_eq_refl b)

abbrev xored_port : ℕ → ℕ
xored_port port = bit_xor port (stun_magic_cookie / 65536)

abbrev xored_ip : ℕ → ℕ
xored_ip n = bit_xor n stun_magic_cookie

-- The attribute's value for an address of four bytes.
abbrev value_of : (n port : ℕ) → Bytes
value_of n port = 0 ∷ 1 ∷ bytes16 (xored_port port) ++ bytes32 (xored_ip n)

abbrev rest_of_reply : (n port : ℕ) → Bytes
rest_of_reply n port = bytes16 stun_xor_mapped_address ++ (bytes16 8 ++ value_of n port)

abbrev reply_of : (tid : Bytes) (n port : ℕ) → Bytes
reply_of tid n port =
    header stun_binding_response 8
    ++ (tid ++ (bytes16 stun_xor_mapped_address ++ (bytes16 8 ++ value_of n port)))

attr_value_lem :
    (a b c d port : ℕ)
    → port < 65536
    → word32 a b c d < 4294967296
    → attr_value (a ∷ b ∷ c ∷ d ∷ []) port ≡ some (value_of (word32 a b c d) port)
unfolding attr_value
attr_value_lem a b c d port p q = rw (
  pack16_lem (xored_port port) (bit_xor16 port (stun_magic_cookie / 65536) p (omega arith)),
  attr_value,
  pack32_lem (xored_ip (word32 a b c d))
      (bit_xor32 (word32 a b c d) stun_magic_cookie q (omega arith)),
)

module _ (tid : Bytes) (is_tid : length tid ≡ 12) where
  reply-tid : (n port : ℕ) → tid_of (reply_of tid n port) ≡ tid
  reply-tid n port = take-append 12 tid (rest_of_reply n port) is_tid

  reply-drop : (n port : ℕ) → drop 20 (reply_of tid n port) ≡ rest_of_reply n port
  reply-drop n port = drop-append 12 tid (rest_of_reply n port) is_tid

  reply-drop_value : (n port : ℕ) → drop 24 (reply_of tid n port) ≡ value_of n port
  reply-drop_value n port = drop_more 20 4 (reply_of tid n port) ∙ ap (drop 4) (reply-drop n port)

  length-reply : (n port : ℕ) → length (reply_of tid n port) ≡ 32
  length-reply n port = omega (arith, length-append tid (rest_of_reply n port), is_tid)

  length-request : length (build_binding_request tid) ≡ 20
  unfolding build_binding_request
  length-request = omega (arith, is_tid)

  request-tid : tid_of (build_binding_request tid) ≡ tid
  unfolding build_binding_request
  request-tid = ap (λ t. take 12 t) (sym (append-nil tid)) ∙ take-append 12 tid [] is_tid

module _ (lib : IpText) (tid : Bytes) (is_tid : length tid ≡ 12) where
  parsed_request : parse_request (build_binding_request tid) ≡ returned (some 0)
  unfolding parse_request build_binding_request
  parsed_request = rw (is_tid, parse_request)

  response :
      (a b c d port : ℕ) (ip : String)
      → lib.packed ip ≡ some (a ∷ b ∷ c ∷ d ∷ [])
      → port < 65536
      → word32 a b c d < 4294967296
      → build_binding_response lib (build_binding_request tid) ip port
        ≡ returned (some (reply_of tid (word32 a b c d) port))
  unfolding build_binding_response build_binding_request
  response a b c d port ip e p q = rw (
    is_tid,
    build_binding_response,
    request-tid tid is_tid,
    build_binding_response,
    is_tid,
    e,
    attr_value_lem a b c d port p q,
  )

  address_v4_lem :
      (n port : ℕ)
      → n < 4294967296
      → address_v4 lib port (some (xored_ip n)) ≡ returned (some (lib.inet_ntoa (bytes32 n), port))
  address_v4_lem n port q =
      rw (bit_xor_twice n stun_magic_cookie q (omega arith), address_v4, pack32_lem n q, address_v4)

  parsed_reply :
      (n port : ℕ)
      → port < 65536
      → n < 4294967296
      → parse_binding_response lib (reply_of tid n port) tid
        ≡ returned (some (lib.inet_ntoa (bytes32 n), port))
  unfolding parse_binding_response
  parsed_reply n port p q =
      rw
        (
          length-reply tid is_tid n port,
          parse_binding_response,
          reply-tid tid is_tid n port,
          parse_binding_response,
          bytes_eq_refl tid,
          is_tid,
          scan,
          reply-drop tid is_tid n port,
          reply-drop_value tid is_tid n port,
          visit,
          word16-bytes16 (xored_port port),
          bit_xor_twice port (stun_magic_cookie / 65536) (omega arith) (omega arith),
          reply-drop_value tid is_tid n port,
          word32-bytes32 (xored_ip n) (bit_xor32 n stun_magic_cookie q (omega arith)),
        )
        (address_v4_lem n port q)

-- Four bytes and the number that they are read as.
word32_bound :
    (a b c d : ℕ)
    → all (λ x. ltb x 256) (a ∷ b ∷ c ∷ d ∷ []) ≡ true
    → (word32 a b c d < 4294967296) × (bytes32 (word32 a b c d) ≡ a ∷ b ∷ c ∷ d ∷ [])
word32_bound a b c d h = ground arith

-- The address that a STUN server reports is the one that it saw: for an IPv4 text that `ipaddress`
-- packs into four bytes, a port below 65536 and a transaction id of twelve bytes, the server's handler
-- answers the client's request, the client reads the answer back as exactly this address and port, and
-- the answer has 32 bytes.
pub exchange_lem :
    (lib : IpText) (tid : Bytes) (ip : String) (port : ℕ) (packed : Bytes)
    → length tid ≡ 12
    → lib.packed ip ≡ some packed
    → length packed ≡ 4
    → port < 65536
    → (reply : Bytes) × (handler lib (build_binding_request tid) ip port ≡ some reply)
      × (parse_binding_response lib reply tid ≡ returned (some (ip, port)))
      × (length reply ≡ 32)
unfolding handler
exchange_lem lib tid ip port (a ∷ b ∷ c ∷ d ∷ []) is_tid e four p =
    let fits = word32_bound a b c d (lib.packed_bytes ip (a ∷ b ∷ c ∷ d ∷ []) e) in
    (
      reply_of tid (word32 a b c d) port,
      rw
          (
            parsed_request lib tid is_tid,
            response lib tid is_tid a b c d port ip e p fits.0,
            handler,
          )
          refl,
      parsed_reply lib tid is_tid (word32 a b c d) port p fits.0
          ∙ ap (λ t. returned (some (t, port)))
              (ap lib.inet_ntoa fits.1 ∙ lib.inet_ntoa-packed ip (a ∷ b ∷ c ∷ d ∷ []) e four),
      length-reply tid is_tid (word32 a b c d) port,
    )
exchange_lem lib tid ip port [] is_tid e four p = absurd (omega arith)
exchange_lem lib tid ip port (a ∷ []) is_tid e four p = absurd (omega arith)
exchange_lem lib tid ip port (a ∷ b ∷ []) is_tid e four p = absurd (omega arith)
exchange_lem lib tid ip port (a ∷ b ∷ c ∷ []) is_tid e four p = absurd (omega arith)
exchange_lem lib tid ip port (a ∷ b ∷ c ∷ d ∷ x ∷ more) is_tid e four p = absurd (omega arith)
