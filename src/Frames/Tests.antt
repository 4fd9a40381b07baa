-- ===== src/Frames/Tests.antt =====
-- A stream of two frames that arrives in three pieces: backend/app/services/relay_server.py.
use mathlib.Core.List.{flatten}
use midscale.Prelude.{ℕ, List, [], ◌∷◌, ◌++◌, ◌≡◌, refl}
use midscale.Frames.{encode, receive_all}
use midscale.Frames.Chunks.{Encoded, handle_all, receive_all_frames}

-- The handler keeps a log of what it is given.
abbrev keep_log : List ℕ → List (List ℕ) → List (List ℕ)
keep_log m log = log ++ m ∷ []

abbrev messages : List (List ℕ)
messages = (1 ∷ 2 ∷ 3 ∷ []) ∷ [] ∷ []

abbrev frames : List (List ℕ)
frames = (0 ∷ 0 ∷ 0 ∷ 3 ∷ 1 ∷ 2 ∷ 3 ∷ []) ∷ (0 ∷ 0 ∷ 0 ∷ 0 ∷ []) ∷ []

abbrev pieces : List (List ℕ)
pieces = (0 ∷ 0 ∷ []) ∷ (0 ∷ 3 ∷ 1 ∷ 2 ∷ 3 ∷ 0 ∷ 0 ∷ []) ∷ (0 ∷ 0 ∷ []) ∷ []

frames-Encoded : Encoded messages frames
unfolding encode
frames-Encoded = (refl, (refl, tt))

pieces-frames : flatten pieces ≡ flatten frames
unfolding flatten
pieces-frames = refl

receive_all_frames_example :
    receive_all keep_log [] pieces [] ≡ ([], handle_all keep_log messages [])
receive_all_frames_example =
    receive_all_frames keep_log messages frames pieces [] frames-Encoded pieces-frames
