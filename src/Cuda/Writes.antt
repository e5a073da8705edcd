-- ===== src/Cuda/Writes.antt =====
-- What is in a buffer after every thread or block has stored its value.
use distributed_softmax.Prelude.{
  ℕ, ◌<◌, ◌≡◌, ◌≢◌, refl, ap, ◌∙◌, Option, none, some, List, [], ◌∷◌, set, length, get_elem?,
  get_elem?-set_self, get_elem?-set_ne, length-set, arith, inl, inr, eq_or_ne,
}
use distributed_softmax.Prelude.Totals.{tabulate, tabulate_ext}
use distributed_softmax.Cuda.{count, write_all}

module _ {ℓ} {A : Type ℓ} where
  abbrev store : Option A → ℕ → List A → List A
  store none i out = out
  store (some v) i out = set out i v

  length-store : (o : Option A) (i : ℕ) (out : List A) → length (store o i out) ≡ length out
  length-store none i out = refl
  length-store (some v) i out = length-set out i v

  store_ne :
      (o : Option A) (i j : ℕ) (out : List A)
      → i ≢ j
      → get_elem? (store o i out) j ≡ get_elem? out j
  store_ne none i j out h = refl
  store_ne (some v) i j out h = get_elem?-set_ne out i j v h

  module _ (value : ℕ → Option A) where
    write_all-cons :
        (i : ℕ) (is : List ℕ) (out : List A)
        → write_all value (i ∷ is) out ≡ write_all value is (store (value i) i out)
    unfolding write_all
    write_all-cons i is out = by_case (value i) refl
      where
        by_case :
            (o : Option A)
            → value i ≡ o
            → write_all value (i ∷ is) out ≡ write_all value is (store (value i) i out)
        by_case none e = rw (e, write_all) refl
        by_case (some v) e = rw (e, write_all) refl

    pub length-write_all :
        (is : List ℕ) (out : List A) → length (write_all value is out) ≡ length out
    unfolding write_all
    length-write_all [] out = refl
    length-write_all (i ∷ is) out =
        ap length (write_all-cons i is out)
        ∙ length-write_all is (store (value i) i out)
        ∙ length-store (value i) i out

  module _ (f : ℕ → A) (value : ℕ → Option A) (n : ℕ)
      (stores : (i : ℕ) → i < n → value i ≡ some (f i)) where
    store_self :
        (i : ℕ) (out : List A)
        → i < n
        → length out ≡ n
        → get_elem? (store (value i) i out) i ≡ some (f i)
    store_self i out h e = rw (stores i h) (get_elem?-set_self out i (f i) (omega arith))

    stays :
        (is : List ℕ) (out : List A) (j : ℕ)
        → j < n
        → length out ≡ n
        → get_elem? out j ≡ some (f j)
        → get_elem? (write_all value is out) j ≡ some (f j)
    unfolding write_all
    stays [] out j h e held = held
    stays (i ∷ is) out j h e held =
        ap (λ (xs : List A). get_elem? xs j) (write_all-cons value i is out)
        ∙ stays is (store (value i) i out) j h (length-store (value i) i out ∙ e)
            (elim (eq_or_ne i j) [
              | inl same ↦ rw same (store_self j out h e)
              | inr other ↦ store_ne (value i) i j out other ∙ held
            ])

    arrives :
        (is : List ℕ) (out : List A) (j : ℕ)
        → j < n
        → length out ≡ n
        → 0 < count j is
        → get_elem? (write_all value is out) j ≡ some (f j)
    arrives [] out j h e once = elim once [ ]
    arrives (i ∷ is) out j h e once =
        ap (λ (xs : List A). get_elem? xs j) (write_all-cons value i is out) ∙ elim (eq_or_ne i j) [
          | inl same ↦
              stays is (store (value i) i out) j h (length-store (value i) i out ∙ e)
                (rw same (store_self j out h e))
          | inr other ↦
              arrives is (store (value i) i out) j h (length-store (value i) i out ∙ e)
                (ground arith)
        ]

    -- In whatever order each index below `n` has its turn, the buffer holds all their values.
    pub write_all-tabulate :
        (is : List ℕ) (out : List A)
        → length out ≡ n
        → ((i : ℕ) → i < n → 0 < count i is)
        → write_all value is out ≡ tabulate n f
    write_all-tabulate is out e every =
        tabulate_ext n f (write_all value is out) (length-write_all value is out ∙ e)
          (λ j h. arrives is out j h e (every j h))
