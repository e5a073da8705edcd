-- ===== src/Prelude/Effects.antt =====
-- Fallible code that changes a state: what it returns, and the state it leaves, errors included.
use mathlib.Core.Path.{◌≡◌, refl, sym, ap, ap₂, subst}
use mathlib.Core.Logic.{◌⊎◌, inl, inr}
use distributed_softmax.Prelude.Outcomes.{Outcome, ok, err, panic, from_sum}

abbrev pub Effect {ℓ κ υ} : Type ℓ → Type κ → Type υ → Type (ℓ ⊔ κ ⊔ υ)
Effect S E A = S → Outcome E A × S

module _ {ℓ κ υ ι} {S : Type ℓ} {E : Type κ} {A : Type υ} {B : Type ι} where
  abbrev pub continue : Outcome E A × S → (A → Effect S E B) → Outcome E B × S
  continue (ok a, s) f = f a s
  continue (err e, s) f = (err e, s)
  continue (panic, s) f = (panic, s)

  infixl 5 ◌>>=◌
  abbrev pub ◌>>=◌ : Effect S E A → (A → Effect S E B) → Effect S E B
  (m >>= f) s = continue (m s) f

module _ {ℓ κ υ} {S : Type ℓ} {E : Type κ} where
  infixl 5 ◌>>◌
  abbrev pub ◌>>◌ : {B : Type υ} → Effect S E (Unit {0}) → Effect S E B → Effect S E B
  m >> k = m >>= λ _. k

  -- Code that changes nothing.
  abbrev pub pure : {A : Type υ} → Outcome E A → Effect S E A
  pure r s = (r, s)

  -- Code that only looks at the state.
  abbrev pub look : {A : Type υ} → (S → Outcome E A) → Effect S E A
  look f s = (f s, s)

  -- A library's call, which does not panic.
  abbrev pub call : {A : Type υ} → (S → (E ⊎ A) × S) → Effect S E A
  call f s = let (r, s') = f s in (from_sum r, s')

module _ {ℓ κ υ ι} {S : Type ℓ} {E : Type κ} {A : Type υ} {B : Type ι} where
  continue_ok :
      (m : Outcome E A × S) (f : A → Effect S E B) (b : B) (s' : S)
      → continue m f ≡ (ok b, s')
      → (a : A) × (t : S) × (m ≡ (ok a, t)) × (f a t ≡ (ok b, s'))
  continue_ok (ok a, t) f b s' h = (a, t, refl, h)
  continue_ok (err e, t) f b s' h = absurd (cc (ap (λ (p : Outcome E B × S). p.0) h))
  continue_ok (panic, t) f b s' h = absurd (cc (ap (λ (p : Outcome E B × S). p.0) h))

  -- Where a sequence succeeds, its first part does, and the second from where that ends.
  pub bind_ok :
      (m : Effect S E A) (f : A → Effect S E B) (s s' : S) (b : B)
      → (m >>= f) s ≡ (ok b, s')
      → (a : A) × (t : S) × (m s ≡ (ok a, t)) × (f a t ≡ (ok b, s'))
  bind_ok m f s s' b h = continue_ok (m s) f b s' h

  continue_panic :
      (m : Outcome E A × S) (f : A → Effect S E B) (s' : S)
      → continue m f ≡ (panic, s')
      → ((t : S) → ¬ (m ≡ (panic, t)))
      → (a : A) × (t : S) × (m ≡ (ok a, t)) × (f a t ≡ (panic, s'))
  continue_panic (ok a, t) f s' h calm = (a, t, refl, h)
  continue_panic (err e, t) f s' h calm = absurd (cc (ap (λ (p : Outcome E B × S). p.0) h))
  continue_panic (panic, t) f s' h calm = absurd (calm t refl)

  -- Where a sequence panics and its first part does not, the second does.
  pub bind_panic :
      (m : Effect S E A) (f : A → Effect S E B) (s s' : S)
      → (m >>= f) s ≡ (panic, s')
      → ((t : S) → ¬ (m s ≡ (panic, t)))
      → (a : A) × (t : S) × (m s ≡ (ok a, t)) × (f a t ≡ (panic, s'))
  bind_panic m f s s' h calm = continue_panic (m s) f s' h calm

module _ {ℓ κ υ} {S : Type ℓ} {E : Type κ} {A : Type υ} where
  sum_ok : (m : (E ⊎ A) × S) (a : A) (s' : S) → call (λ s. m) s' ≡ (ok a, s') → m ≡ (inr a, s')
  sum_ok (inl e, t) a s' h = absurd (cc (ap (λ (p : Outcome E A × S). p.0) h))
  sum_ok (inr b, t) a s' h =
      ap₂ (λ (x : A) (y : S). (inr x, y)) (cc (ap (λ (p : Outcome E A × S). p.0) h))
        (ap (λ (p : Outcome E A × S). p.1) h)

  pub pure_ok : (r : Outcome E A) (s s' : S) (a : A) → pure r s ≡ (ok a, s') → (r ≡ ok a) × (s ≡ s')
  pure_ok r s s' a h = (ap (λ (p : Outcome E A × S). p.0) h, ap (λ (p : Outcome E A × S). p.1) h)

  pub call_ok : (f : S → (E ⊎ A) × S) (s s' : S) (a : A) → call f s ≡ (ok a, s') → f s ≡ (inr a, s')
  call_ok f s s' a h = sum_ok (f s) a s' h

pub pure_then {ℓ κ υ ι} :
    {S : Type ℓ} {E : Type κ} {A : Type υ} {B : Type ι} (r : Outcome E A) (k : A → Effect S E B)
    (s s' : S) (b : B)
    → (pure r >>= k) s ≡ (ok b, s')
    → (a : A) × (r ≡ ok a) × (k a s ≡ (ok b, s'))
pure_then r k s s' b h =
    let (a, t, first, rest) = bind_ok (pure r) k s s' b h in
    let (made, stays) = pure_ok r s t a first in
    (a, made, subst (λ x. k a x ≡ (ok b, s')) (sym stays) rest)

-- Code that changes nothing and panics does not leave another state.
pub pure_panic {ℓ κ υ} :
    {S : Type ℓ} {E : Type κ} {A : Type υ} (r : Outcome E A) (s s' : S)
    → pure r s ≡ (panic, s')
    → (r ≡ panic) × (s ≡ s')
pure_panic {A = A} r s s' h =
    (ap (λ (p : Outcome _ A × _). p.0) h, ap (λ (p : Outcome _ A × _). p.1) h)
