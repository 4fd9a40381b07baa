-- ===== src/Scoring/Bounds.antt =====
-- The range of a score and how it moves with each input.
-- backend/app/services/endpoint_scoring.py, `compute_endpoint_score`.
use midscale.Prelude.{refl, ℕ, ◌≤◌, Bool, true, false, Option, ◌≡◌, arith}
use midscale.Prelude.Int.{ℤ, pos, ◌≤ℤ◌, min_ℤ, max_ℤ, int_laws}
use midscale.Scoring.{raw_score, compute_endpoint_score, score_max, latency_penalty}

-- A score is never below 0 and never above 200.
pub compute_endpoint_score_bounds :
    (reachable : Bool) (latency_ms : Option ℤ) (failures successes : ℕ) (priority : ℤ)
    → (pos 0 ≤ℤ compute_endpoint_score reachable latency_ms failures successes priority)
      × (compute_endpoint_score reachable latency_ms failures successes priority ≤ℤ score_max)
unfolding compute_endpoint_score
compute_endpoint_score_bounds r l f s p = ground arith

clamp_mono :
    (a b : ℤ) → a ≤ℤ b → max_ℤ (pos 0) (min_ℤ a score_max) ≤ℤ max_ℤ (pos 0) (min_ℤ b score_max)
clamp_mono a b h = ground arith

min_mono : (a b : ℤ) → a ≤ℤ b → min_ℤ a (pos 100) ≤ℤ min_ℤ b (pos 100)
min_mono a b h = ground arith

raw_score_mono :
    (r r' : Bool) (l l' : Option ℤ) (f f' s s' : ℕ) (p p' : ℤ)
    → (r ≡ true → r' ≡ true)
    → latency_penalty l' ≤ℤ latency_penalty l
    → f' ≤ f
    → s ≤ s'
    → p' ≤ℤ p
    → raw_score r l f s p ≤ℤ raw_score r' l' f' s' p'
unfolding raw_score
raw_score_mono true true l l' f f' s s' p p' hr hl hf hs hp = omega (int_laws, min_mono p' p hp)
raw_score_mono true false l l' f f' s s' p p' hr hl hf hs hp = cc (hr refl)
raw_score_mono false true l l' f f' s s' p p' hr hl hf hs hp = omega (int_laws, min_mono p' p hp)
raw_score_mono false false l l' f f' s s' p p' hr hl hf hs hp = omega (int_laws, min_mono p' p hp)

-- An endpoint that is reachable if the other is, whose latency costs no more, with no more failures,
-- no fewer successes and no larger priority number never scores below the other.
pub compute_endpoint_score_mono :
    (r r' : Bool) (l l' : Option ℤ) (f f' s s' : ℕ) (p p' : ℤ)
    → (r ≡ true → r' ≡ true)
    → latency_penalty l' ≤ℤ latency_penalty l
    → f' ≤ f
    → s ≤ s'
    → p' ≤ℤ p
    → compute_endpoint_score r l f s p ≤ℤ compute_endpoint_score r' l' f' s' p'
unfolding compute_endpoint_score
compute_endpoint_score_mono r r' l l' f f' s s' p p' hr hl hf hs hp =
    clamp_mono (raw_score r l f s p) (raw_score r' l' f' s' p')
      (raw_score_mono r r' l l' f f' s s' p p' hr hl hf hs hp)
