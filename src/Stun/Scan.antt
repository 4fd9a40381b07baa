-- ===== src/Stun/Scan.antt =====
-- The loop over the attributes of a STUN message, `_parse_binding_response` of
-- midscaled/daemon/stun_client.py.
use midscale.Prelude.{
  ℕ, zero, suc, ◌≢◌, ◌+◌, ◌≤◌, inl, inr, arith, leb, drop, Option-cases, leb→le, Bool-cases,
}
use midscale.Stun.Packing.{Bytes, unpack_from_hh, unpack_from_hhi}
use midscale.Stun.{IpText, out_of_fuel, stop, visit, scan, parse_binding_response, following}

module _ (lib : IpText) where
  visit-ends :
      (attr_type attr_length : ℕ) (value : Bytes)
      → visit lib attr_type attr_length value ≢ stop out_of_fuel
  unfolding visit
  visit-ends attr_type attr_length value = ground arith

  -- Every round moves on by four bytes or more, so a count of rounds beyond the bytes left is enough.
  scan-ends :
      (fuel : ℕ) (message : Bytes) (offset end : ℕ)
      → end + 1 ≤ offset + fuel
      → 1 ≤ fuel
      → scan lib fuel message offset end ≢ out_of_fuel
  unfolding scan
  scan-ends zero message offset end h k = absurd (omega arith)
  scan-ends (suc fuel) message offset end h k = elim (Bool-cases (leb (offset + 4) end)) [
    | inr e ↦ rw (e, scan) (ground arith)
    | inl e ↦ elim (Option-cases (unpack_from_hh (drop offset message))) [
      | inl n ↦ rw (e, scan, n, scan) (ground arith)
      | inr (t, p) ↦
          rw (e, scan, p, scan)
            (ground (
              arith,
              leb→le (offset + 4) end e,
              visit-ends t.0 t.1 (drop (offset + 4) message),
              scan-ends fuel message (following offset t.1) end
                  (ground (arith, leb→le (offset + 4) end e))
                  (ground (arith, leb→le (offset + 4) end e)),
            ))
    ]
  ]

  -- Whatever datagram comes back, a count of rounds by the message length that it announces is enough
  -- for the client's loop over the attributes: parsing always ends, with an address, `None` or an
  -- exception.
  pub parse_binding_response-ends :
      (message expected_tid : Bytes) → parse_binding_response lib message expected_tid ≢ out_of_fuel
  unfolding parse_binding_response
  parse_binding_response-ends message expected = elim (Option-cases (unpack_from_hhi message)) [
    | inl n ↦ rw (n, parse_binding_response) (ground arith)
    | inr (t, p) ↦
        rw (p, parse_binding_response)
          (ground (arith, scan-ends (t.1 + 1) message 20 (20 + t.1) (omega arith) (omega arith)))
  ]
