-- ===== src/Frames/Rounds.antt =====
-- One round of the receiving loop, on a frame and on a longer buffer: `data_received` of
-- backend/app/services/relay_server.py.
use midscale.Prelude.{
  ℕ, zero, suc, ◌+◌, ◌≤◌, ◌<◌, none, some, List, [], ◌∷◌, ◌++◌, ◌≡◌, refl, ap, sym, ◌∙◌, arith,
  length, take, drop, length-append,
}
use midscale.Frames.{pack_u32, unpack_u32, encode, next_message, header_size}

module _ {ℓ} {A : Type ℓ} where
  take-append : (n : ℕ) (xs ys : List A) → n ≤ length xs → take n (xs ++ ys) ≡ take n xs
  take-append zero xs ys h = refl
  take-append (suc n) [] ys h = absurd (omega arith)
  take-append (suc n) (x ∷ xs) ys h = ap (λ t. x ∷ t) (take-append n xs ys (omega arith))

  drop-append : (n : ℕ) (xs ys : List A) → n ≤ length xs → drop n (xs ++ ys) ≡ drop n xs ++ ys
  drop-append zero xs ys h = refl
  drop-append (suc n) [] ys h = absurd (omega arith)
  drop-append (suc n) (x ∷ xs) ys h = drop-append n xs ys (omega arith)

  length-drop : (n : ℕ) (xs : List A) → n ≤ length xs → length (drop n xs) + n ≡ length xs
  length-drop zero xs h = omega arith
  length-drop (suc n) [] h = absurd (omega arith)
  length-drop (suc n) (x ∷ xs) h = omega (arith, length-drop n xs (omega arith))

  take-append_self : (xs ys : List A) → take (length xs) (xs ++ ys) ≡ xs
  take-append_self [] ys = refl
  take-append_self (x ∷ xs) ys = ap (λ t. x ∷ t) (take-append_self xs ys)

  drop-append_self : (xs ys : List A) → drop (length xs) (xs ++ ys) ≡ ys
  drop-append_self [] ys = refl
  drop-append_self (x ∷ xs) ys = drop-append_self xs ys

-- What a round takes off the buffer, in terms of the length that the header states.
record Round (b m r : List ℕ) : Type 0 where
  fits : header_size + unpack_u32 (take header_size b) ≤ length b
  payload : m ≡ take (unpack_u32 (take header_size b)) (drop header_size b)
  rest : r ≡ drop (unpack_u32 (take header_size b)) (drop header_size b)

next_message-Round : (b m r : List ℕ) → next_message b ≡ some (m, r) → Round b m r
unfolding next_message
next_message-Round b m r e = ground arith

Round-next_message : (b m r : List ℕ) → Round b m r → next_message b ≡ some (m, r)
unfolding next_message
Round-next_message b m r h = ground arith

-- More data behind a whole message does not change it.
pub next_message-append :
    (b c m r : List ℕ) → next_message b ≡ some (m, r) → next_message (b ++ c) ≡ some (m, r ++ c)
next_message-append b c m r e =
    Round-next_message (b ++ c) m (r ++ c) (more (next_message-Round b m r e))
  where
    more : Round b m r → Round (b ++ c) m (r ++ c)
    more h =
        let len = unpack_u32 (take header_size b) in
        let room : header_size ≤ length b = omega (arith, h.fits) in
        let same : take header_size (b ++ c) ≡ take header_size b =
          take-append header_size b c room in
        let left : len ≤ length (drop header_size b) =
          omega (arith, h.fits, length-drop header_size b room) in
        record {
          fits = rw same (omega (arith, h.fits, length-append b c));
          payload = rw same (
              rw (drop-append header_size b c room)
                (h.payload ∙ sym (take-append len (drop header_size b) c left)));
          rest = rw same (
              rw (drop-append header_size b c room)
                (ap (λ t. t ++ c) h.rest ∙ sym (drop-append len (drop header_size b) c left)));
        }

-- A round takes at least a header.
pub next_message-shorter : (b m r : List ℕ) → next_message b ≡ some (m, r) → length r + 4 ≤ length b
next_message-shorter b m r e =
    let h = next_message-Round b m r e in
    let room : 4 ≤ length b = omega (arith, h.fits) in
    let len = unpack_u32 (take 4 b) in
    omega (
      arith,
      h.fits,
      ap length h.rest,
      length-drop 4 b room,
      length-drop len (drop 4 b) (omega (arith, h.fits, length-drop 4 b room)),
    )

unpack-pack : (n : ℕ) → n < 4294967296 → unpack_u32 (pack_u32 n) ≡ n
unfolding unpack_u32 pack_u32
unpack-pack n h = omega arith

-- A frame in front of anything is read back as its payload.
next_message-frame :
    (m rest : List ℕ)
    → length m < 4294967296
    → next_message ((pack_u32 (length m) ++ m) ++ rest) ≡ some (m, rest)
unfolding pack_u32
next_message-frame m rest h =
    let n = length m in
    let is : unpack_u32 (pack_u32 n) ≡ n = unpack-pack n h in
    Round-next_message ((pack_u32 n ++ m) ++ rest) m rest (record {
      fits = rw is (omega (arith, length-append m rest));
      payload = rw is (sym (take-append_self m rest));
      rest = rw is (sym (drop-append_self m rest));
    })

encode-some :
    (m f : List ℕ) → encode m ≡ some f → (length m < 4294967296) × (f ≡ pack_u32 (length m) ++ m)
unfolding encode
encode-some m f e = ground arith

pub next_message-encode :
    (m f rest : List ℕ) → encode m ≡ some f → next_message (f ++ rest) ≡ some (m, rest)
next_message-encode m f rest e =
    let (short, is) = encode-some m f e in rw is (next_message-frame m rest short)

pub next_message-nil : next_message [] ≡ none
unfolding next_message
next_message-nil = refl
