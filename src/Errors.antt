-- ===== src/Errors.antt =====
-- Errors of anyhow, as the texts that they show.
use distributed_softmax.Prelude.{
  ◌≡◌, refl, ◌++◌, Outcome, ok, err, panic, ◌>>=◌, ◌>>◌, ◌⊎◌, inl, inr, from_sum,
}
use distributed_softmax.Prelude.Effects.{Effect}
use distributed_softmax.Text.{Bytes}

-- `context(text)`: the text that the error then shows.
abbrev pub with_context {ℓ} : {A : Type ℓ} → Bytes → Outcome Bytes A → Outcome Bytes A
with_context text (ok a) = ok a
with_context text (err e) = err text
with_context text panic = panic

abbrev pub in_context {ℓ κ} :
    {S : Type ℓ} {A : Type κ} → Bytes → Effect S Bytes A → Effect S Bytes A
in_context text m s = let (r, s') = m s in (with_context text r, s')

-- `map_err(|e| anyhow!("<text>{}", e))`, and `{:?}` for the text of an error's `Debug`.
abbrev pub with_prefix {ℓ} : {A : Type ℓ} → Bytes → Outcome Bytes A → Outcome Bytes A
with_prefix text (ok a) = ok a
with_prefix text (err e) = err (text ++ e)
with_prefix text panic = panic

-- Where a sequence succeeds, its first part does, and the second with what that returns.
pub bind_returns {ℓ κ} :
    {A : Type ℓ} {B : Type κ} (m : Outcome Bytes A) (k : A → Outcome Bytes B) (b : B)
    → (m >>= k) ≡ ok b
    → (a : A) × (m ≡ ok a) × (k a ≡ ok b)
bind_returns (ok a) k b h = (a, refl, h)
bind_returns (err e) k b h = absurd (cc h)
bind_returns panic k b h = absurd (cc h)

pub ok_eq {ℓ} : {A : Type ℓ} (a b : A) → ◌≡◌ {A = Outcome Bytes A} (ok a) (ok b) → a ≡ b
ok_eq a b h = cc h

module _ {ℓ} {A : Type ℓ} where
  -- What succeeds with another text for its error succeeds without it.
  pub prefix_ok :
      (text : Bytes) (r : Outcome Bytes A) (a : A) → with_prefix text r ≡ ok a → r ≡ ok a
  prefix_ok text (ok b) a h = h
  prefix_ok text (err e) a h = absurd (cc h)
  prefix_ok text panic a h = absurd (cc h)

  pub context_ok :
      (text : Bytes) (r : Outcome Bytes A) (a : A) → with_context text r ≡ ok a → r ≡ ok a
  context_ok text (ok b) a h = h
  context_ok text (err e) a h = absurd (cc h)
  context_ok text panic a h = absurd (cc h)

  pub sum_ok : (r : Bytes ⊎ A) (a : A) → ◌≡◌ {A = Outcome Bytes A} (from_sum r) (ok a) → r ≡ inr a
  sum_ok (inl e) a h = absurd (cc h)
  sum_ok (inr b) a h = cc h

pub then_ok {ℓ} :
    {A : Type ℓ} (r : Outcome Bytes (Unit {0})) (q : Outcome Bytes A) (a : A)
    → (r >> q) ≡ ok a
    → (r ≡ ok tt) × (q ≡ ok a)
then_ok (ok u) q a h = (refl, h)
then_ok (err e) q a h = absurd (cc h)
then_ok panic q a h = absurd (cc h)
