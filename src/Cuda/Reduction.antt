-- ===== src/Cuda/Reduction.antt =====
-- The reduction in shared memory: in whatever order the threads run between two barriers, a block's
-- result is that of the operation on all its threads' values.
use distributed_softmax.Prelude.{
  ℕ, zero, suc, ◌+◌, ◌/◌, ◌^◌, ◌≤◌, ◌<◌, ◌≡◌, ◌≢◌, refl, sym, ap, ◌∙◌, some, List, [], ◌∷◌, arith,
  inl, inr, lt→ltb, eq_or_ne, subst, ap₂, IsMonoid,
}
use distributed_softmax.Prelude.Totals.{total, total_congr, total_split, total_combine, total_one}
use distributed_softmax.Cuda.{count, thread_step, round, reduce_loop, reduce_block, block_size}

power_pos : (k : ℕ) → 0 < 2 ^ k
power_pos zero = omega arith
power_pos (suc k) = omega (arith, power_pos k)

module _ {ℓ} {A : Type ℓ} (op : A → A → A) where
  step_other : (s i j : ℕ) (sdata : ℕ → A) → j ≢ i → thread_step op s i sdata j ≡ sdata j
  unfolding thread_step
  step_other s i j sdata h = ground arith

  step_above : (s i j : ℕ) (sdata : ℕ → A) → s ≤ j → thread_step op s i sdata j ≡ sdata j
  unfolding thread_step
  step_above s i j sdata h = ground arith

  step_own :
      (s i : ℕ) (sdata : ℕ → A) → i < s → thread_step op s i sdata i ≡ op (sdata i) (sdata (i + s))
  unfolding thread_step
  step_own s i sdata h = ground arith

  round_above :
      (s : ℕ) (tids : List ℕ) (j : ℕ) (sdata : ℕ → A) → s ≤ j → round op s tids sdata j ≡ sdata j
  unfolding round
  round_above s [] j sdata h = refl
  round_above s (i ∷ is) j sdata h =
      round_above s is j (thread_step op s i sdata) h ∙ step_above s i j sdata h

  round_absent :
      (s : ℕ) (tids : List ℕ) (j : ℕ) (sdata : ℕ → A)
      → count j tids ≡ 0
      → round op s tids sdata j ≡ sdata j
  unfolding round
  round_absent s [] j sdata h = refl
  round_absent s (i ∷ is) j sdata h =
      round_absent s is j (thread_step op s i sdata) (ground arith)
      ∙ step_other s i j sdata (λ e. ground arith)

  -- A thread below the stride that has one turn adds to its own value the one a stride above it.
  round_once :
      (s : ℕ) (tids : List ℕ) (j : ℕ) (sdata : ℕ → A)
      → j < s
      → count j tids ≡ 1
      → round op s tids sdata j ≡ op (sdata j) (sdata (j + s))
  unfolding round
  round_once s [] j sdata h once = absurd (omega arith)
  round_once s (i ∷ is) j sdata h once = elim (eq_or_ne j i) [
    | inl same ↦
        round_absent s is j (thread_step op s i sdata) (ground arith)
        ∙ subst (λ k. thread_step op s k sdata j ≡ op (sdata j) (sdata (j + s))) same
            (step_own s j sdata h)
    | inr other ↦
        round_once s is j (thread_step op s i sdata) h (ground arith)
        ∙ ap₂ op (step_other s i j sdata other) (step_above s i (j + s) sdata (omega arith))
  ]

  module _ (e : A) (laws : IsMonoid op e) (comm : (a b : A) → op a b ≡ op b a) (order : ℕ → List ℕ)
      (once : (s t : ℕ) → t < block_size → count t (order s) ≡ 1) where
    -- One round halves the number of values and keeps their total.
    round-total :
        (s : ℕ) (sdata : ℕ → A)
        → s ≤ block_size
        → total op e s (round op s (order s) sdata) ≡ total op e (s + s) sdata
    round-total s sdata h =
        total_congr op e s (round op s (order s) sdata) (λ j. op (sdata j) (sdata (j + s)))
          (λ j k. round_once s (order s) j sdata k (once s j (omega arith)))
        ∙ total_combine op e laws comm s sdata (λ j. sdata (j + s))
        ∙ ap (op (total op e s sdata)) (
            total_congr op e s (λ j. sdata (j + s)) (λ j. sdata (s + j))
              (λ j k. ap sdata (omega arith)))
        ∙ sym (total_split op e laws s s sdata)

    abbrev Reduced : (fuel s : ℕ) → (ℕ → A) → Type ℓ
    Reduced fuel s sdata =
        (result : ℕ → A) × (reduce_loop op order fuel s sdata ≡ some result)
        × (result 0 ≡ total op e (s + s) sdata)

    reduce_loop-total :
        (k fuel : ℕ) (sdata : ℕ → A)
        → k + 1 < fuel
        → 2 ^ k ≤ block_size
        → Reduced fuel (2 ^ k) sdata
    unfolding reduce_loop
    reduce_loop-total k zero sdata h small = elim h [ ]
    reduce_loop-total zero (suc zero) sdata h small = absurd (omega arith)
    reduce_loop-total zero (suc (suc fuel)) sdata h small = (
      round op 1 (order 1) sdata,
      refl,
      sym (total_one op e laws (round op 1 (order 1) sdata)) ∙ round-total 1 sdata small,
    )
    reduce_loop-total (suc k) (suc fuel) sdata h small =
        let (result, ran, is_total) =
          reduce_loop-total k fuel (round op (2 ^ suc k) (order (2 ^ suc k)) sdata) (omega arith)
            (omega arith) in
        (
          result,
          rw (lt→ltb 0 (2 ^ suc k) (power_pos (suc k)), halved k, reduce_loop) ran,
          is_total
              ∙ ap (λ n. total op e n (round op (2 ^ suc k) (order (2 ^ suc k)) sdata)) (doubled k)
              ∙ round-total (2 ^ suc k) sdata small,
        )
      where
        halved : (k : ℕ) → 2 ^ suc k / 2 ≡ 2 ^ k
        halved k = omega arith

        doubled : (k : ℕ) → 2 ^ k + 2 ^ k ≡ 2 ^ suc k
        doubled k = omega arith

    -- With the kernels' 256 threads the fuel is enough, and thread 0 has the total.
    pub reduce_block-total :
        (sdata : ℕ → A) → reduce_block op order sdata ≡ some (total op e block_size sdata)
    unfolding reduce_block
    reduce_block-total sdata =
        let (result, ran, is_total) = reduce_loop-total 7 9 sdata (omega arith) (omega arith) in
        rw (ran, reduce_block) (ap some is_total)
