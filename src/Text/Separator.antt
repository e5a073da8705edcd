-- ===== src/Text/Separator.antt =====
-- Texts built from a prefix, a `:` and a tail without one are taken apart in one way only.
use distributed_softmax.Prelude.{
  ℕ, subst, ◌↔◌, ◌≡◌, refl, ◌≢◌, [], ◌∷◌, ◌++◌, arith, All, All-append_right, All-imp, ap₂, true,
  false, Bool-cases, inl, inr, some,
}
use distributed_softmax.Text.{Bytes, IsDigit, strip_prefix, beq}

abbrev pub IsNot : ℕ → ℕ → Type 0
IsNot sep c = c ≢ sep

pub IsDigit→IsNot : (s : Bytes) → All IsDigit s → All (IsNot b':') s
IsDigit→IsNot = All-imp IsDigit (IsNot b':') (λ c h. omega arith)

last_separator_absent : (sep : ℕ) (s t : Bytes) → ¬ All (IsNot sep) (s ++ (sep ∷ t))
last_separator_absent sep s t h = (All-append_right (IsNot sep) s (sep ∷ t) h).0 refl

-- The last `sep` splits a text.
pub split_at_last :
    (sep : ℕ) (a b s t : Bytes)
    → All (IsNot sep) s
    → All (IsNot sep) t
    → a ++ (sep ∷ s) ≡ b ++ (sep ∷ t)
    → (a ≡ b) × (s ≡ t)
split_at_last sep [] [] s t hs ht e = (refl, cc)
split_at_last sep [] (y ∷ b) s t hs ht e =
    absurd (last_separator_absent sep b t (subst (All (IsNot sep)) (cc) hs))
split_at_last sep (x ∷ a) [] s t hs ht e =
    absurd (last_separator_absent sep a s (subst (All (IsNot sep)) (cc) ht))
split_at_last sep (x ∷ a) (y ∷ b) s t hs ht e =
    let (front, back) = split_at_last sep a b s t hs ht (cc) in (ap₂ ◌∷◌ (cc) front, back)

pub append_cancel : (p s t : Bytes) → p ++ s ≡ p ++ t → s ≡ t
append_cancel [] s t e = e
append_cancel (c ∷ p) s t e = append_cancel p s t (cc)

pub strip_prefix-append : (p s : Bytes) → strip_prefix p (p ++ s) ≡ some s
unfolding strip_prefix
strip_prefix-append [] s = refl
strip_prefix-append (c ∷ p) s = ground (arith, strip_prefix-append p s)

-- What `strip_prefix` returns is what follows the prefix.
pub strip_prefix_sound : (p s t : Bytes) → strip_prefix p s ≡ some t → s ≡ p ++ t
unfolding strip_prefix
strip_prefix_sound [] s t e = ground arith
strip_prefix_sound (a ∷ p) [] t e = cc
strip_prefix_sound (a ∷ p) (b ∷ s) t e = ground (arith, strip_prefix_sound p s t)

pub beq_iff : (s t : Bytes) → (beq s t ≡ true) ↔ (s ≡ t)
unfolding beq
beq_iff [] [] = ground arith
beq_iff [] (_ ∷ _) = ground arith
beq_iff (_ ∷ _) [] = ground arith
beq_iff (a ∷ s) (b ∷ t) = ground (arith, beq_iff s t)

pub beq_apart : (a b : Bytes) → a ≢ b → beq a b ≡ false
beq_apart a b ne = elim (Bool-cases (beq a b)) [
  | inl e ↦ absurd (ne ((beq_iff a b).0 e))
  | inr e ↦ e
]
