-- ===== src/Frames.antt =====
-- The byte framing of the relay: `_send_message` and `data_received` of
-- backend/app/services/relay_server.py. midscaled/daemon/relay_client.py has the same code in
-- `_send_message` and `_read_loop`. Bytes are numbers below 256.
pub mod Rounds
pub mod Chunks
mod Tests
use midscale.Prelude.{
  ℕ, zero, suc, ◌+◌, ◌*◌, ◌/◌, ◌%◌, Bool, Option, none, some, List, [], ◌∷◌, ◌++◌, length, take,
  drop, ltb, leb, if◌then◌else◌,
}

-- b"MIDSCALE_RELAY_V1"
abbrev pub relay_magic : List ℕ
relay_magic =
    77 ∷ 73 ∷ 68 ∷ 83 ∷ 67 ∷ 65 ∷ 76 ∷ 69 ∷ 95 ∷ 82 ∷ 69 ∷ 76 ∷ 65 ∷ 89 ∷ 95 ∷ 86 ∷ 49 ∷ []

abbrev pub header_size : ℕ
header_size = 4

-- struct.pack("!I", n), for n < 2 ** 32.
unfoldable pub pack_u32 : ℕ → List ℕ
pack_u32 n = n / 16777216 ∷ (n / 65536) % 256 ∷ (n / 256) % 256 ∷ n % 256 ∷ []

-- struct.unpack("!I", b) of the four bytes at the front.
unfoldable pub unpack_u32 : List ℕ → ℕ
unpack_u32 (a ∷ b ∷ c ∷ d ∷ []) = a * 16777216 + b * 65536 + c * 256 + d
unpack_u32 _ = 0

-- RELAY_MAGIC + bytes([msg_type]) + body
unfoldable pub payload_of : ℕ → List ℕ → List ℕ
payload_of msg_type body = relay_magic ++ (msg_type ∷ body)

-- header + payload; packing a length of 2 ** 32 or more raises.
unfoldable pub encode : List ℕ → Option (List ℕ)
unfolding pack_u32
encode payload =
    if ltb (length payload) 4294967296 then some (pack_u32 (length payload) ++ payload) else none

-- One round of the loop: the payload at the front of the buffer and what follows it, or `none` where
-- the loop ends because the header or the payload is not there yet.
unfoldable pub next_message : List ℕ → Option (List ℕ × List ℕ)
unfolding unpack_u32
next_message buffer =
    let msg_len = unpack_u32 (take header_size buffer) in
    if leb header_size (length buffer)
    then (if ltb (length buffer) (header_size + msg_len)
        then none
        else some (take msg_len (drop header_size buffer), drop msg_len (drop header_size buffer)))
    else none

-- The loop, on fuel. The handler never raises (it catches everything) and never touches the buffer.
module _ {ℓ} {S : Type ℓ} (handle : List ℕ → S → S) where
  unfoldable pub drain : ℕ → List ℕ → S → List ℕ × S
  drain zero buffer s = (buffer, s)
  drain (suc fuel) buffer s = elim (next_message buffer) [
    | none ↦ (buffer, s)
    | some (payload, rest) ↦ drain fuel rest (handle payload s)
  ]

  -- `data_received` on the buffer with the new data behind it; a message takes at least a header, so
  -- the buffer's length is fuel enough.
  unfoldable pub data_received : List ℕ → List ℕ → S → List ℕ × S
  unfolding drain
  data_received buffer data_in s = drain (length (buffer ++ data_in)) (buffer ++ data_in) s

  -- The calls that the transport makes, one for each chunk that arrives.
  unfoldable pub receive_all : List ℕ → List (List ℕ) → S → List ℕ × S
  receive_all buffer [] s = (buffer, s)
  receive_all buffer (chunk ∷ chunks) s =
      let (buffer', s') = data_received buffer chunk s in receive_all buffer' chunks s'
