-- ===== src/Gateway/RedisManager/Progress.antt =====
-- What the number of completed slices says of the slices in Redis.
use distributed_softmax.Prelude.{
  ℕ, zero, suc, ◌+◌, ◌≤◌, ◌<◌, ◌≡◌, refl, sym, ◌∙◌, subst, ◌↔◌, List, [], ◌∷◌, length, Bool, true,
  false, arith, if◌then◌else◌, inl, inr, Bool-cases,
}
use native.Mathlib.Decide.{ℕ_discrete}
use distributed_softmax.Text.{Bytes}
use distributed_softmax.Redis.{Redis}
use distributed_softmax.Gateway.Config.{slice_key}
use distributed_softmax.Gateway.RedisManager.{exists, count_loop, get_completed_slice_count}

-- The loop over any test of an index.
abbrev counted : (ℕ → Bool) → (left i n : ℕ) → ℕ
counted p zero i n = n
counted p (suc left) i n = counted p left (i + 1) (if p i then n + 1 else n)

abbrev number : Bool → ℕ
number b = if b then 1 else 0

-- How many of the `left` indices from `i` on pass.
abbrev passing : (ℕ → Bool) → (left i : ℕ) → ℕ
passing p zero i = 0
passing p (suc left) i = number (p i) + passing p left (i + 1)

counted_lem : (p : ℕ → Bool) (left i n : ℕ) → counted p left i n ≡ n + passing p left i
counted_lem p zero i n = omega arith
counted_lem p (suc left) i n = step (p i) (counted_lem p left (i + 1))
  where
    step :
        (b : Bool)
        → ((m : ℕ) → counted p left (i + 1) m ≡ m + passing p left (i + 1))
        → counted p left (i + 1) (if b then n + 1 else n) ≡ n + (number b + passing p left (i + 1))
    step true later = omega (arith, later (n + 1))
    step false later = omega (arith, later n)

-- Those indices, in their order.
abbrev pub those : (ℕ → Bool) → (left i : ℕ) → List ℕ
those p zero i = []
those p (suc left) i = let later = those p left (i + 1) in if p i then i ∷ later else later

length-those : (p : ℕ → Bool) (left i : ℕ) → length (those p left i) ≡ passing p left i
length-those p zero i = refl
length-those p (suc left) i = elim (Bool-cases (p i)) [
  | inl e ↦ rw e (omega (arith, length-those p left (i + 1)))
  | inr e ↦ rw e (omega (arith, length-those p left (i + 1)))
]

abbrev Each : (ℕ → Bool) → Bool → (left i : ℕ) → Type 0
Each p b left i = (j : ℕ) → i ≤ j → j < i + left → p j ≡ b

Each-cons :
    (p : ℕ → Bool) (b : Bool) (left i : ℕ) → p i ≡ b → Each p b left (i + 1) → Each p b (suc left) i
Each-cons p b left i here rest j low high = elim (ℕ_discrete i j) [
  | yes e ↦ subst (λ (t : ℕ). p t ≡ b) e here
  | no ne ↦ rest j (omega arith) (omega arith)
]

Each-tail : (p : ℕ → Bool) (b : Bool) (left i : ℕ) → Each p b (suc left) i → Each p b left (i + 1)
Each-tail p b left i each j low high = each j (omega arith) (omega arith)

passing-le : (p : ℕ → Bool) (left i : ℕ) → passing p left i ≤ left
passing-le p zero i = omega arith
passing-le p (suc left) i = ground (arith, passing-le p left (i + 1))

passing_all : (p : ℕ → Bool) (left i : ℕ) → Each p true left i → passing p left i ≡ left
passing_all p zero i each = refl
passing_all p (suc left) i each =
    rw (each i (omega arith) (omega arith))
      (omega (arith, passing_all p left (i + 1) (Each-tail p true left i each)))

passing_none : (p : ℕ → Bool) (left i : ℕ) → Each p false left i → passing p left i ≡ 0
passing_none p zero i each = refl
passing_none p (suc left) i each =
    rw (each i (omega arith) (omega arith))
      (omega (arith, passing_none p left (i + 1) (Each-tail p false left i each)))

all_of_passing : (p : ℕ → Bool) (left i : ℕ) → passing p left i ≡ left → Each p true left i
all_of_passing p zero i e = λ j low high. absurd (omega arith)
all_of_passing p (suc left) i e = elim (Bool-cases (p i)) [
  | inl here ↦ Each-cons p true left i here (all_of_passing p left (i + 1) (ground arith))
  | inr away ↦ absurd (ground (arith, passing-le p left (i + 1)))
]

none_of_passing : (p : ℕ → Bool) (left i : ℕ) → passing p left i ≡ 0 → Each p false left i
none_of_passing p zero i e = λ j low high. absurd (omega arith)
none_of_passing p (suc left) i e = elim (Bool-cases (p i)) [
  | inl here ↦ absurd (ground arith)
  | inr away ↦ Each-cons p false left i away (none_of_passing p left (i + 1) (ground arith))
]

module _ (R : Redis) (s : R.State) (job_id : Bytes) where
  abbrev here : ℕ → Bool
  here i = exists R s (slice_key job_id i)

  count_loop-counted : (left i n : ℕ) → count_loop R s job_id left i n ≡ counted here left i n
  unfolding count_loop
  count_loop-counted zero i n = refl
  count_loop-counted (suc left) i n = count_loop-counted left (i + 1) (if here i then n + 1 else n)

  from_start : (total : ℕ) → counted here total 0 0 ≡ passing here total 0
  from_start total = omega (arith, counted_lem here total 0 0)

  -- The number of completed slices is at most that of all slices; it is that of all slices exactly when
  -- the server says of each slice's key that it exists, and zero exactly when it says so of none.
  pub get_completed_slice_count_lem :
      (total : ℕ)
      → (get_completed_slice_count R s job_id total ≤ total)
        × ((get_completed_slice_count R s job_id total ≡ total)
            ↔ ((i : ℕ) → i < total → exists R s (slice_key job_id i) ≡ true))
        × ((get_completed_slice_count R s job_id total ≡ 0)
            ↔ ((i : ℕ) → i < total → exists R s (slice_key job_id i) ≡ false))
  unfolding get_completed_slice_count
  get_completed_slice_count_lem total =
      rw (count_loop-counted total 0 0, from_start total)
        (
          passing-le here total 0,
          (
            λ e i lt. all_of_passing here total 0 e i (omega arith) (omega arith),
            λ each. passing_all here total 0 (λ j low high. each j (omega arith)),
          ),
          (
            λ e i lt. none_of_passing here total 0 e i (omega arith) (omega arith),
            λ each. passing_none here total 0 (λ j low high. each j (omega arith)),
          ),
        )

  -- The slices of which the server says that they exist, each once and in their order.
  abbrev pub existing : (total : ℕ) → List ℕ
  existing total = those here total 0

  -- The number of completed slices is the length of the list of those that exist.
  pub get_completed_slice_count-existing :
      (total : ℕ) → get_completed_slice_count R s job_id total ≡ length (existing total)
  unfolding get_completed_slice_count
  get_completed_slice_count-existing total =
      count_loop-counted total 0 0 ∙ from_start total ∙ sym (length-those here total 0)
