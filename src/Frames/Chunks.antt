-- ===== src/Frames/Chunks.antt =====
-- A stream of frames that arrives in chunks: `data_received` of
-- backend/app/services/relay_server.py.
use mathlib.Core.List.{append_assoc, append-nil, flatten}
use midscale.Prelude.{
  ℕ, zero, suc, ◌≤◌, none, some, List, [], ◌∷◌, ◌++◌, ◌≡◌, refl, ap, sym, ◌∙◌, inl, inr, arith,
  length, Option-cases,
}
use midscale.Frames.{encode, next_message, drain, data_received, receive_all}
use midscale.Frames.Rounds.{
  next_message-append, next_message-shorter, next_message-encode, next_message-nil,
}

-- Each message with its frame.
abbrev pub Encoded : List (List ℕ) → List (List ℕ) → Type 0
Encoded [] [] = Unit
Encoded (m ∷ ms) (f ∷ fs) = (encode m ≡ some f) × Encoded ms fs
Encoded _ _ = ⊥

module _ {ℓ} {S : Type ℓ} (handle : List ℕ → S → S) where
  -- The loop ends at once where no message is whole.
  drain-none : (f : ℕ) (b : List ℕ) (s : S) → next_message b ≡ none → drain handle f b s ≡ (b, s)
  unfolding drain
  drain-none zero b s e = refl
  drain-none (suc f) b s e = rw (e, drain) refl

  drain-some :
      (f : ℕ) (b m r : List ℕ) (s : S)
      → next_message b ≡ some (m, r)
      → drain handle (suc f) b s ≡ drain handle f r (handle m s)
  unfolding drain
  drain-some f b m r s e = rw (e, drain) refl

  drain-nil : (f : ℕ) (s : S) → drain handle f [] s ≡ ([], s)
  drain-nil f s = drain-none f [] s next_message-nil

  -- Any fuel from the buffer's length up gives the same.
  drain_fuel :
      (f g : ℕ) (b : List ℕ) (s : S)
      → length b ≤ f
      → length b ≤ g
      → drain handle f b s ≡ drain handle g b s
  drain_fuel zero zero b s p q = refl
  drain_fuel zero (suc g) [] s p q = drain-nil zero s ∙ sym (drain-nil (suc g) s)
  drain_fuel zero (suc g) (x ∷ b) s p q = absurd (omega arith)
  drain_fuel (suc f) zero [] s p q = drain-nil (suc f) s ∙ sym (drain-nil zero s)
  drain_fuel (suc f) zero (x ∷ b) s p q = absurd (omega arith)
  drain_fuel (suc f) (suc g) b s p q = elim (Option-cases (next_message b)) [
    | inl e ↦ drain-none (suc f) b s e ∙ sym (drain-none (suc g) b s e)
    | inr ((m, r), e) ↦
        let less = next_message-shorter b m r e in
        drain-some f b m r s e
        ∙ drain_fuel f g r (handle m s) (omega arith) (omega arith)
        ∙ sym (drain-some g b m r s e)
  ]

  -- With fuel enough the loop stops only where no message is whole.
  drain-stuck :
      (f : ℕ) (b : List ℕ) (s : S) → length b ≤ f → next_message (drain handle f b s).0 ≡ none
  drain-stuck zero [] s p = rw (drain-nil zero s) next_message-nil
  drain-stuck zero (x ∷ b) s p = absurd (omega arith)
  drain-stuck (suc f) b s p = elim (Option-cases (next_message b)) [
    | inl e ↦ rw (drain-none (suc f) b s e) e
    | inr ((m, r), e) ↦
        rw (drain-some f b m r s e)
          (drain-stuck f r (handle m s) (omega (arith, next_message-shorter b m r e)))
  ]

  -- The loop with fuel enough, as `data_received` calls it.
  abbrev settle : List ℕ → S → List ℕ × S
  settle b s = drain handle (length b) b s

  settle-some :
      (b m r : List ℕ) (s : S) → next_message b ≡ some (m, r) → settle b s ≡ settle r (handle m s)
  settle-some [] m r s e = cc next_message-nil
  settle-some (x ∷ b) m r s e =
      let less = next_message-shorter (x ∷ b) m r e in
      drain-some (length b) (x ∷ b) m r s e
      ∙ drain_fuel (length b) (length r) r (handle m s) (omega arith) (omega arith)

  -- Data that comes later can wait until what is there has been handled.
  settle-append :
      (n : ℕ) (b c : List ℕ) (s : S)
      → length b ≤ n
      → settle (b ++ c) s ≡ settle ((settle b s).0 ++ c) (settle b s).1
  settle-append zero [] c s p = rw (drain-nil zero s) refl
  settle-append zero (x ∷ b) c s p = absurd (omega arith)
  settle-append (suc n) b c s p = elim (Option-cases (next_message b)) [
    | inl e ↦ rw (drain-none (length b) b s e) refl
    | inr ((m, r), e) ↦
        settle-some (b ++ c) m (r ++ c) s (next_message-append b c m r e)
        ∙ settle-append n r c (handle m s) (omega (arith, next_message-shorter b m r e))
        ∙ sym (ap (λ (t : List ℕ × S). settle (t.0 ++ c) t.1) (settle-some b m r s e))
  ]

  receive_all-settle :
      (b : List ℕ) (chunks : List (List ℕ)) (s : S)
      → next_message b ≡ none
      → receive_all handle b chunks s ≡ settle (b ++ flatten chunks) s
  unfolding receive_all data_received flatten
  receive_all-settle b [] s e = rw append-nil (sym (drain-none (length b) b s e))
  receive_all-settle b (c ∷ chunks) s e =
      receive_all-settle (settle (b ++ c) s).0 chunks (settle (b ++ c) s).1
        (drain-stuck (length (b ++ c)) (b ++ c) s (omega arith))
      ∙ sym (settle-append (length (b ++ c)) (b ++ c) (flatten chunks) s (omega arith))
      ∙ ap (λ t. settle t s) (append_assoc b c (flatten chunks))

  -- The handler on each payload in turn.
  abbrev pub handle_all : List (List ℕ) → S → S
  handle_all [] s = s
  handle_all (m ∷ ms) s = handle_all ms (handle m s)

  settle-frames :
      (ms fs : List (List ℕ)) (s : S)
      → Encoded ms fs
      → settle (flatten fs) s ≡ ([], handle_all ms s)
  unfolding flatten
  settle-frames [] [] s h = drain-nil zero s
  settle-frames [] (f ∷ fs) s h = elim h [ ]
  settle-frames (m ∷ ms) [] s h = elim h [ ]
  settle-frames (m ∷ ms) (f ∷ fs) s h =
      settle-some (f ++ flatten fs) m (flatten fs) s (next_message-encode m f (flatten fs) h.0)
      ∙ settle-frames ms fs (handle m s) h.1

  -- Let each of the messages `ms` be encoded as the frame at its place in `fs`. Then, however the
  -- stream of frames is cut into chunks, the receiver handles exactly these messages, whole and in
  -- order, and its buffer is empty at the end.
  pub receive_all_frames :
      (ms fs chunks : List (List ℕ)) (s : S)
      → Encoded ms fs
      → flatten chunks ≡ flatten fs
      → receive_all handle [] chunks s ≡ ([], handle_all ms s)
  receive_all_frames ms fs chunks s h same =
      receive_all-settle [] chunks s next_message-nil
      ∙ ap (λ t. settle t s) same
      ∙ settle-frames ms fs s h
