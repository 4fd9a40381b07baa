-- ===== src/Api/Replies.antt =====
-- What a chain of checks that answers without an error has passed.
use midscale.Prelude.{ℕ, Bool, true, false, Option, none, some, ◌≡◌, refl}
use midscale.Api.{Reply, ok, error, crash, ◌>>=◌, require, found}

-- Where a chain answers, its first part has answered, and the rest has with that answer.
pub bind-answers {ℓ κ} :
    {A : Type ℓ} {B : Type κ} {answer : B} (first : Reply A) (rest : A → Reply B)
    → (first >>= rest) ≡ ok answer
    → (got : A) × (first ≡ ok got) × (rest got ≡ ok answer)
bind-answers crash rest e = cc
bind-answers (error status_code) rest e = cc
bind-answers (ok got) rest e = (got, refl, e)

pub found-ok {ℓ} : {A : Type ℓ} (o : Option A) (n : ℕ) (a : A) → found o n ≡ ok a → o ≡ some a
found-ok none n a h = cc
found-ok (some b) n a h = cc

pub require-ok : (b : Bool) (n : ℕ) {u : Unit {0}} → require b n ≡ ok u → b ≡ true
require-ok true n h = refl
require-ok false n h = cc

pub ok_inj {ℓ} : {A : Type ℓ} (a b : A) → ok a ≡ ok b → a ≡ b
ok_inj a b h = cc
