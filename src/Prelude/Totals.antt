-- ===== src/Prelude/Totals.antt =====
-- What an operation makes of a function's values at the indices below a number, in a commutative
-- monoid.
use Prim.Native.Nat.{ℕ, zero, suc, ◌+◌, ◌*◌, ◌<◌}
use mathlib.Core.Path.{◌≡◌, refl, sym, ap, ap₂, ◌∙◌, fun_ext}
use mathlib.Core.List.{List, [], ◌∷◌, foldl, map}
use mathlib.Core.Option.{some}
use native.Mathlib.Omega.{arith}
use distributed_softmax.Prelude.Folds.{IsMonoid, foldl_from}
use distributed_softmax.Prelude.Lists.{length, get_elem?}

module _ {ℓ} {A : Type ℓ} where
  abbrev pub tabulate : ℕ → (ℕ → A) → List A
  tabulate zero f = []
  tabulate (suc n) f = f 0 ∷ tabulate n (λ i. f (suc i))

module _ {ℓ} {A : Type ℓ} where
  -- An array at an index, with what lies beyond it in memory.
  abbrev pub read : (beyond : ℕ → A) → List A → ℕ → A
  read beyond [] i = beyond i
  read beyond (x ∷ xs) zero = x
  read beyond (x ∷ xs) (suc i) = read (λ j. beyond (suc j)) xs i

  pub length-tabulate : (n : ℕ) (f : ℕ → A) → length (tabulate n f) ≡ n
  length-tabulate zero f = refl
  length-tabulate (suc n) f = ap suc (length-tabulate n (λ i. f (suc i)))

  pub tabulate_congr :
      (n : ℕ) (f g : ℕ → A) → ((i : ℕ) → i < n → f i ≡ g i) → tabulate n f ≡ tabulate n g
  tabulate_congr zero f g h = refl
  tabulate_congr (suc n) f g h =
      ap₂ ◌∷◌ (h 0 (omega arith))
        (tabulate_congr n (λ i. f (suc i)) (λ i. g (suc i)) (λ i k. h (suc i) (omega arith)))

  pub tabulate-read {κ} :
      {B : Type κ} (g : A → B) (beyond : ℕ → A) (xs : List A)
      → tabulate (length xs) (λ i. g (read beyond xs i)) ≡ map g xs
  tabulate-read g beyond [] = refl
  tabulate-read g beyond (x ∷ xs) = ap (◌∷◌ (g x)) (tabulate-read g (λ j. beyond (suc j)) xs)

  -- A list is known by its entries.
  pub tabulate_ext :
      (n : ℕ) (f : ℕ → A) (xs : List A)
      → length xs ≡ n
      → ((i : ℕ) → i < n → get_elem? xs i ≡ some (f i))
      → xs ≡ tabulate n f
  tabulate_ext zero f [] e h = refl
  tabulate_ext zero f (x ∷ xs) e h = absurd (omega arith)
  tabulate_ext (suc n) f [] e h = absurd (omega arith)
  tabulate_ext (suc n) f (x ∷ xs) e h =
      ap₂ ◌∷◌ (cc (h 0 (omega arith)))
        (tabulate_ext n (λ i. f (suc i)) xs (omega arith) (λ i k. h (suc i) (omega arith)))

module _ {ℓ} {A : Type ℓ} (op : A → A → A) (e : A) where
  unfoldable pub total : ℕ → (ℕ → A) → A
  total zero f = e
  total (suc n) f = op (total n f) (f n)

  pub total_congr : (n : ℕ) (f g : ℕ → A) → ((i : ℕ) → i < n → f i ≡ g i) → total n f ≡ total n g
  unfolding total
  total_congr zero f g h = refl
  total_congr (suc n) f g h =
      ap₂ op (total_congr n f g (λ i k. h i (omega arith))) (h n (omega arith))

  total_at : (m n : ℕ) (f : ℕ → A) → m ≡ n → total m f ≡ total n f
  total_at m n f h = ap (λ (k : ℕ). total k f) h

  module _ (laws : IsMonoid op e) where
    open laws use {assoc, left_unit, right_unit}

    pub total_one : (f : ℕ → A) → total 1 f ≡ f 0
    unfolding total
    total_one f = left_unit (f 0)

    pub total_split :
        (m n : ℕ) (f : ℕ → A) → total (m + n) f ≡ op (total m f) (total n (λ i. f (m + i)))
    unfolding total
    total_split m zero f = total_at (m + 0) m f (omega arith) ∙ sym (right_unit (total m f))
    total_split m (suc n) f =
        total_at (m + suc n) (suc (m + n)) f (omega arith)
        ∙ ap (λ (t : A). op t (f (m + n))) (total_split m n f)
        ∙ assoc (total m f) (total n (λ i. f (m + i))) (f (m + n))

    pub total_blocks :
        (blocks size : ℕ) (f : ℕ → A)
        → total blocks (λ b. total size (λ i. f (b * size + i))) ≡ total (blocks * size) f
    unfolding total
    total_blocks zero size f = total_at 0 (0 * size) f (omega arith)
    total_blocks (suc blocks) size f =
        ap (λ (t : A). op t (total size (λ i. f (blocks * size + i)))) (total_blocks blocks size f)
        ∙ sym (total_split (blocks * size) size f)
        ∙ total_at (blocks * size + size) (suc blocks * size) f (grind arith)

    pub total_unit : (n : ℕ) (f : ℕ → A) → ((i : ℕ) → f i ≡ e) → total n f ≡ e
    unfolding total
    total_unit zero f h = refl
    total_unit (suc n) f h = rw (total_unit n f h, h n) (left_unit e)

    pub total_same :
        (c : A) → op c c ≡ c → (n : ℕ) (f : ℕ → A) → ((i : ℕ) → f i ≡ c) → total (suc n) f ≡ c
    unfolding total
    total_same c idem zero f h = left_unit (f 0) ∙ h 0
    total_same c idem (suc n) f h = rw (total_same c idem n f h, h (suc n)) idem

    total-cons : (n : ℕ) (f : ℕ → A) → total (suc n) f ≡ op (f 0) (total n (λ i. f (suc i)))
    unfolding total
    total-cons n f =
        total_at (suc n) (1 + n) f (omega arith)
        ∙ total_split 1 n f
        ∙ ap₂ op (left_unit (f 0)) (ap (total n) (fun_ext (λ i. ap f (omega arith))))

    pub foldl-tabulate : (n : ℕ) (f : ℕ → A) → foldl op e (tabulate n f) ≡ total n f
    unfolding total
    foldl-tabulate zero f = refl
    foldl-tabulate (suc n) f =
        ap (λ (t : A). foldl op t (tabulate n (λ i. f (suc i)))) (left_unit (f 0))
        ∙ foldl_from op e laws (f 0) (tabulate n (λ i. f (suc i)))
        ∙ ap (op (f 0)) (foldl-tabulate n (λ i. f (suc i)))
        ∙ sym (total-cons n f)

    module _ (comm : (a b : A) → op a b ≡ op b a) where
      interchange : (a b c d : A) → op (op a b) (op c d) ≡ op (op a c) (op b d)
      interchange a b c d =
          assoc a b (op c d)
          ∙ ap (op a) (sym (assoc b c d) ∙ ap (λ (t : A). op t d) (comm b c) ∙ assoc c b d)
          ∙ sym (assoc a c (op b d))

      pub total_combine :
          (n : ℕ) (f g : ℕ → A) → total n (λ i. op (f i) (g i)) ≡ op (total n f) (total n g)
      unfolding total
      total_combine zero f g = sym (left_unit e)
      total_combine (suc n) f g =
          ap (λ (t : A). op t (op (f n) (g n))) (total_combine n f g)
          ∙ interchange (total n f) (total n g) (f n) (g n)
