-- ===== src/Scoring/Order.antt =====
-- What the sort of backend/app/services/endpoint_scoring.py puts first.
use mathlib.Core.HLevel.{⊥_prop}
use mathlib.Core.List.{Perm, Mem, mem-cons, not-mem-nil}
use mathlib.Core.List.Perm
use mathlib.Core.Logic.Or
use mathlib.Core.Bool.{true≢false}
use mathlib.Core.Path.{subst}
use midscale.Prelude.{
  zero, suc, Option, none, ◌⊎◌, inl, inr, Bool-cases, ap, all, not, ◌∙◌, sym, Bool, true, false,
  some, List, [], ◌∷◌, ◌≡◌, refl, arith,
}
use midscale.Prelude.Int.{ℤ, pos, negsuc, neg, eq_ℤ, ltb_ℤ, eq_of_parts, ◌<ℤ◌, ◌≤ℤ◌}
use midscale.Prelude.Sort.{sorted, Leads, IsSorted, sorted-perm, sorted-IsSorted, all-sorted}
use midscale.Endpoints.{DeviceEndpoint}
use midscale.Scoring.{
  lex_above, outranks, first, reach_key, sort_latency, sort_endpoint_candidates,
  select_best_endpoint,
}

lex_asym :
    (a b : ℤ) (r r' : Bool)
    → (r ≡ true → r' ≡ false)
    → lex_above a b r ≡ true
    → lex_above b a r' ≡ false
lex_asym a b r r' h e = ground arith

lex_trans :
    (a b c : ℤ) (ab bc ac : Bool)
    → (bc ≡ false → ab ≡ false → ac ≡ false)
    → lex_above c b bc ≡ false
    → lex_above b a ab ≡ false
    → lex_above c a ac ≡ false
lex_trans a b c ab bc ac h e f = ground arith

outranks_asym : (e f : DeviceEndpoint) → outranks e f ≡ true → outranks f e ≡ false
unfolding outranks
outranks_asym e f = lex_asym e.score f.score _ _ (
    lex_asym (reach_key e) (reach_key f) _ _ (
      lex_asym (neg (sort_latency e.latency_ms)) (neg (sort_latency f.latency_ms)) _ _
        (λ h. ground arith)))

outranks_trans :
    (e f g : DeviceEndpoint) → outranks g f ≡ false → outranks f e ≡ false → outranks g e ≡ false
unfolding outranks
outranks_trans e f g = lex_trans e.score f.score g.score _ _ _ (
    lex_trans (reach_key e) (reach_key f) (reach_key g) _ _ _ (
      lex_trans (neg (sort_latency e.latency_ms)) (neg (sort_latency f.latency_ms))
        (neg (sort_latency g.latency_ms)) _ _ _ (λ h k. ground arith)))

-- The candidates are the given endpoints, each as often as it was given, and no later one outranks an
-- earlier one.
sort_endpoint_candidates_lem :
    (endpoints : List DeviceEndpoint)
    → Perm (sort_endpoint_candidates endpoints) endpoints
      × IsSorted outranks (sort_endpoint_candidates endpoints)
unfolding sort_endpoint_candidates
sort_endpoint_candidates_lem endpoints = (
  sorted-perm outranks endpoints,
  sorted-IsSorted outranks outranks_asym outranks_trans endpoints,
)

outranks_irrefl : (e : DeviceEndpoint) → outranks e e ≡ false
outranks_irrefl e = ground (arith, outranks_asym e e)

all-of-Leads :
    (b : DeviceEndpoint) (rest : List DeviceEndpoint)
    → Leads outranks b rest
    → all (λ e. not (outranks e b)) rest ≡ true
all-of-Leads b [] h = refl
all-of-Leads b (e ∷ rest) h = ground (arith, all-of-Leads b rest h.1)

-- The choice as the sorted list shows it.
best_of :
    (e : DeviceEndpoint) (es order : List DeviceEndpoint)
    → Perm order (e ∷ es)
    → IsSorted outranks order
    → ((p : DeviceEndpoint → Bool) → all p order ≡ all p (e ∷ es))
    → (b : DeviceEndpoint) × (first order ≡ some b)
      × Mem b (e ∷ es)
      × (all (λ f. not (outranks f b)) (e ∷ es) ≡ true)
best_of e es [] h s same = absurd (true≢false (same (λ f. false)))
best_of e es (b ∷ rest) h s same = (
  b,
  refl,
  (Perm.mem_iff h).0 (mem-cons.1 (Or.inl refl)),
  sym (same (λ f. not (outranks f b))) ∙ ground (arith, outranks_irrefl b, all-of-Leads b rest s.0),
)

-- Milliseconds: a latency that is unknown or 0 counts as 9999.
abbrev pub delay : Option ℤ → ℤ
delay none = pos 9999
delay (some (pos zero)) = pos 9999
delay (some (pos (suc n))) = pos (suc n)
delay (some (negsuc n)) = negsuc n

sort_latency_lem : (l : Option ℤ) → sort_latency l ≡ delay l
sort_latency_lem none = refl
sort_latency_lem (some (pos zero)) = refl
sort_latency_lem (some (pos (suc n))) = ground arith
sort_latency_lem (some (negsuc n)) = ground arith

-- `b` is at least as good as `f`: the first of score, reachability, delay and priority number in which
-- they differ is for `b`: a greater score, reachable, a smaller delay, a smaller number.
abbrev pub AtLeast : DeviceEndpoint → DeviceEndpoint → Type 0
AtLeast b f =
    (f.score <ℤ b.score)
    ⊎ ((f.score ≡ b.score)
        × (((f.reachable ≡ false) × (b.reachable ≡ true))
            ⊎ ((f.reachable ≡ b.reachable)
                × ((delay b.latency_ms <ℤ delay f.latency_ms)
                    ⊎ ((delay b.latency_ms ≡ delay f.latency_ms) × (b.priority ≤ℤ f.priority))))))

lex_not_above : (a b : ℤ) (r : Bool) → lex_above a b r ≡ false → (a <ℤ b) ⊎ ((a ≡ b) × (r ≡ false))
lex_not_above a b r h = elim (Bool-cases (eq_ℤ b a)) [
  | inl e ↦ inr (eq_of_parts a b (ground (arith, e)), ground (arith, h, e))
  | inr e ↦ inl (ground (arith, h, e))
]

neg_less : (a b : ℤ) → neg a <ℤ neg b → b <ℤ a
neg_less a b h = ground arith

neg_same : (a b : ℤ) → neg a ≡ neg b → b ≡ a
neg_same a b h = ground arith

reach_less :
    (f b : DeviceEndpoint)
    → reach_key f <ℤ reach_key b
    → (f.reachable ≡ false) × (b.reachable ≡ true)
reach_less f b h = ground arith

reach_same : (f b : DeviceEndpoint) → reach_key f ≡ reach_key b → f.reachable ≡ b.reachable
reach_same f b h = ground arith

number_same : (a b : ℤ) → ltb_ℤ (neg a) (neg b) ≡ false → a ≤ℤ b
number_same a b h = ground (arith, h)

outranks-AtLeast : (b f : DeviceEndpoint) → outranks f b ≡ false → AtLeast b f
unfolding outranks
outranks-AtLeast b f h =
    let slow = sort_latency_lem f.latency_ms in
    let fast = sort_latency_lem b.latency_ms in
    elim (lex_not_above f.score b.score _ h) [
      | inl less ↦ inl less
      | inr (same, h1) ↦ inr (
        same,
        elim (lex_not_above (reach_key f) (reach_key b) _ h1) [
          | inl less ↦ inl (reach_less f b less)
          | inr (alike, h2) ↦ inr (
            reach_same f b alike,
            elim (lex_not_above (neg (sort_latency f.latency_ms)) (neg (sort_latency b.latency_ms))
                _ h2) [
                  | inl less ↦ inl (
                      subst2 f b slow fast
                        (neg_less (sort_latency f.latency_ms) (sort_latency b.latency_ms) less))
                  | inr (tied, h3) ↦ inr (
                    sym fast
                        ∙ neg_same (sort_latency f.latency_ms) (sort_latency b.latency_ms) tied
                        ∙ slow,
                    number_same b.priority f.priority h3,
                  )
                ],
          )
        ],
      )
    ]
  where
    subst2 :
        (f b : DeviceEndpoint)
        → sort_latency f.latency_ms ≡ delay f.latency_ms
        → sort_latency b.latency_ms ≡ delay b.latency_ms
        → sort_latency b.latency_ms <ℤ sort_latency f.latency_ms
        → delay b.latency_ms <ℤ delay f.latency_ms
    subst2 f b s t h =
        subst (λ x. x <ℤ delay f.latency_ms) t (subst (λ x. sort_latency b.latency_ms <ℤ x) s h)

fails-not_Mem :
    (p : DeviceEndpoint → Bool) (xs : List DeviceEndpoint) (x : DeviceEndpoint)
    → p x ≡ false
    → all p xs ≡ true
    → ¬ Mem x xs
fails-not_Mem p [] x f h m = not-mem-nil m
fails-not_Mem p (y ∷ ys) x f h m =
    Or.elim ⊥_prop (mem-cons.0 m) (λ e. ground (arith, h, f, ap p e))
      (λ k. fails-not_Mem p ys x f (ground (arith, h)) k)

all-Mem :
    (p : DeviceEndpoint → Bool) (xs : List DeviceEndpoint) (x : DeviceEndpoint)
    → Mem x xs
    → all p xs ≡ true
    → p x ≡ true
all-Mem p xs x m h = elim (Bool-cases (p x)) [
  | inl e ↦ e
  | inr e ↦ absurd (fails-not_Mem p xs x e h m)
]

-- Of a list that is not empty one of its endpoints is chosen, and it is at least as good as each of
-- them: by the greater score, then reachable before unreachable, then the smaller latency, where one
-- that is unknown or 0 counts as 9999 ms, then the smaller priority number.
pub select_best_endpoint_lem :
    (e : DeviceEndpoint) (es : List DeviceEndpoint) (f : DeviceEndpoint)
    → Mem f (e ∷ es)
    → (b : DeviceEndpoint) × (select_best_endpoint (e ∷ es) ≡ some b) × Mem b (e ∷ es) × AtLeast b f
unfolding select_best_endpoint
select_best_endpoint_lem e es f m =
    let (b, chosen, mem, best) =
      best_of e es (sorted outranks (e ∷ es)) (sorted-perm outranks (e ∷ es))
        (sorted-IsSorted outranks outranks_asym outranks_trans (e ∷ es))
        (λ p. all-sorted outranks p (e ∷ es)) in
    let beaten = all-Mem (λ x. not (outranks x b)) (e ∷ es) f m best in
    (b, chosen, mem, outranks-AtLeast b f (ground (arith, beaten)))
