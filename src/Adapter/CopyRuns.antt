-- ===== src/Adapter/CopyRuns.antt =====
-- src/BNAdapter.cpp, `TransformFunction`: how the parts of the copy follow one another.
use co_bra_for_binary_ninja.Prelude.{◌≡◌, refl, ap}
use co_bra_for_binary_ninja.Adapter.Outcome.{Outcome, returned, thrown, undefined}
use co_bra_for_binary_ninja.Adapter.Copy.{CopyState, Copied, copied, aborted, lost, ◌>>=◌, lift}

-- Inversion of a bind that ends with a value.
pub bind-copied {ℓ κ} :
    {A : Type ℓ} {B : Type κ} (m : Copied A) (f : A × CopyState → Copied B) {b : B × CopyState}
    → (m >>= f) ≡ copied b
    → (a : A × CopyState) × (m ≡ copied a) × (f a ≡ copied b)
bind-copied (copied a) f h = (a, refl, h)
bind-copied (aborted t st) f h = cc
bind-copied lost f h = cc

pub copied-injective {ℓ} : {A : Type ℓ} {a b : A × CopyState} → copied a ≡ copied b → a ≡ b
copied-injective h = cc

pub lift-copied {ℓ} :
    {A : Type ℓ} (o : Outcome A) (st : CopyState) (r : A × CopyState)
    → lift o st ≡ copied r
    → o ≡ returned r.0
lift-copied (returned a) st r h = ap (λ (x : _ × CopyState). returned x.0) (copied-injective h)
lift-copied (thrown t) st r h = cc
lift-copied undefined st r h = cc

pub both-copied {ℓ κ μ} :
    {A : Type ℓ} {B : Type κ} {C : Type μ} (m : Copied A) (f : A × CopyState → Copied B)
    (g : A × CopyState → B × CopyState → C × CopyState) {c : C × CopyState}
    → (m >>= λ a. f a >>= λ b. copied (g a b)) ≡ copied c
    → (a : A × CopyState) × (b : B × CopyState) × (m ≡ copied a) × (f a ≡ copied b) × (g a b ≡ c)
both-copied m f g h =
    let (a, e, h') = bind-copied m _ h in
    let (b, e', k) = bind-copied (f a) _ h' in (a, b, e, e', copied-injective k)
