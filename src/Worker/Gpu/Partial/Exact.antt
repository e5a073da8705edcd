-- ===== src/Worker/Gpu/Partial/Exact.antt =====
-- In exact arithmetic a GPU worker computes what a CPU worker does, unless the slice's maximum is
-- below the kernels' padding.
use distributed_softmax.Prelude.{
  ℕ, ◌≡◌, refl, sym, ap, ap₂, ◌∙◌, Bool, true, false, some, List, [], ◌∷◌, map, length, IsNonempty,
  inr, subst, fun_ext, ok, ◌%◌, ◌==◌, if◌then◌else◌,
}
use distributed_softmax.Floats.{Floats, IsExact}
use distributed_softmax.Floats.Sums.{sum, maximum}
use distributed_softmax.Floats.Singles.{maximum32, widen_injective, widen-sum32, widen-maximum32}
use distributed_softmax.Cuda.{Kernel, Call, Driver, Schedule, block_size}
use distributed_softmax.Cuda.Grid.{Fits}
use distributed_softmax.Worker.Softmax.{PartialStats, softmax_partial}
use distributed_softmax.Worker.Gpu.Kernels.{device_max}
use distributed_softmax.Worker.Gpu.Device.{
  Completes, device_max-padded, device_exp-map, device_sum-sum,
}
use distributed_softmax.Worker.Gpu.Partial.{GpuWorker, partial_softmax, compute_gpu, global_worker}

-- Every call of the driver succeeds.
abbrev pub Works : Driver → Type 0
Works driver = (c : Call) → driver c ≡ inr tt

abbrev pub calm : Driver
calm c = inr tt

pub same_driver : (driver : Driver) → Works driver → driver ≡ calm
same_driver driver works = fun_ext works

both_branches {ℓ} : {A : Type ℓ} (b : Bool) (x y : A) → y ≡ x → (if b then x else y) ≡ x
both_branches true x y h = refl
both_branches false x y h = h

module _ (F : Floats) (E : IsExact F) where
  open F use {F64, F32, widen, narrow, exp, sub, max, exp32, sub32, max32, pad32}

  stats_eq :
      (m m' s s' : F64) (xs xs' : List F32)
      → m ≡ m'
      → s ≡ s'
      → xs ≡ xs'
      → ◌≡◌ {A = PartialStats F}
          (record { local_max = m; partial_sum = s; exp_values = xs })
          (record { local_max = m'; partial_sum = s'; exp_values = xs' })
  stats_eq m m' s s' xs xs' p q r = cc (p, q, r)

  -- The maximum is not below the padding of the kernels.
  abbrev pub IsAbovePad : List F64 → Type 0
  IsAbovePad xs = max (maximum F xs) (widen pad32) ≡ maximum F xs

  widen-map_narrow : (xs : List F64) → map widen (map narrow xs) ≡ xs
  widen-map_narrow [] = refl
  widen-map_narrow (x ∷ xs) = ap₂ ◌∷◌ (E.widen-narrow x) (widen-map_narrow xs)

  pub widen-weight : (y top : F32) → widen (exp32 (sub32 y top)) ≡ exp (sub (widen y) (widen top))
  widen-weight y top = E.widen-exp32 (sub32 y top) ∙ ap exp (E.widen-sub32 y top)

  pub widen-weights :
      (top : F32) (ys : List F32)
      → map widen (map (λ y. exp32 (sub32 y top)) ys)
        ≡ map (λ x. exp (sub x (widen top))) (map widen ys)
  widen-weights top [] = refl
  widen-weights top (y ∷ ys) = ap₂ ◌∷◌ (widen-weight y top) (widen-weights top ys)

  narrow_weights :
      (top : F32) (ys : List F32)
      → map (λ y. exp32 (sub32 y top)) ys
        ≡ map (λ x. narrow (exp (sub x (widen top)))) (map widen ys)
  narrow_weights top [] = refl
  narrow_weights top (y ∷ ys) =
      ap₂ ◌∷◌ (sym (E.narrow-widen (exp32 (sub32 y top))) ∙ ap narrow (widen-weight y top))
        (narrow_weights top ys)

  module _ (schedule : Kernel → Schedule) (beyond : ℕ → F32) where
    pub widen-device_max :
        (ys : List F32)
        → Fits (length ys)
        → Completes schedule (length ys)
        → IsAbovePad (map widen ys)
        → widen (device_max F schedule beyond ys) ≡ maximum F (map widen ys)
    widen-device_max ys fits completes above =
        ap widen (
          device_max-padded F E schedule beyond ys fits completes
          ∙ both_branches (length ys % block_size == 0) (maximum32 F ys)
              (max32 (maximum32 F ys) pad32)
              (widen_injective F E _ _ (
                E.widen-max32 (maximum32 F ys) pad32
                ∙ ap (λ (t : F64). max t (widen pad32)) (widen-maximum32 F E ys)
                ∙ above
                ∙ sym (widen-maximum32 F E ys))))
        ∙ widen-maximum32 F E ys

    partial_calm :
        (y : F32) (ys : List F32)
        → Fits (length (y ∷ ys))
        → Completes schedule (length (y ∷ ys))
        → IsAbovePad (map widen (y ∷ ys))
        → partial_softmax F calm schedule beyond (y ∷ ys)
          ≡ ok (softmax_partial F (map widen (y ∷ ys)))
    unfolding partial_softmax softmax_partial
    partial_calm y ys fits completes above = ap ok (
        stats_eq _ _ _ _ _ _ at_top
          (ap widen (device_sum-sum F E schedule beyond every fits completes top)
            ∙ widen-sum32 F E (map (λ y. exp32 (sub32 y top)) every)
            ∙ ap (λ (t : List F32). sum F (map widen t)) values)
          (device_exp-map F E schedule beyond every fits completes top ∙ values))
      where
        every : List F32
        every = y ∷ ys

        top : F32
        top = device_max F schedule beyond every

        at_top : widen top ≡ maximum F (map widen every)
        at_top = widen-device_max every fits completes above

        values :
            map (λ y. exp32 (sub32 y top)) every
            ≡ map (λ x. narrow (exp (sub x (maximum F (map widen every))))) (map widen every)
        values =
            narrow_weights top every
            ∙ ap (λ (m : F64). map (λ x. narrow (exp (sub x m))) (map widen every)) at_top

    -- In exact arithmetic, on a device whose calls succeed and whose launches run every thread, in any
    -- order, the GPU worker computes the partial softmax of the CPU worker, for a non-empty slice of at
    -- most 2 ^ 31 - 256 numbers whose maximum is not below the kernels' padding of -1e38.
    pub compute_gpu-softmax_partial :
        (driver : Driver)
        → Works driver
        → (worker : GpuWorker) (xs : List F64) → IsNonempty xs
        → Fits (length (map narrow xs))
        → Completes schedule (length (map narrow xs))
        → IsAbovePad xs
        → compute_gpu F driver schedule beyond (some worker) xs ≡ ok (softmax_partial F xs)
    unfolding compute_gpu global_worker
    compute_gpu-softmax_partial driver works worker [] some_number fits completes above =
        elim some_number [ ]
    compute_gpu-softmax_partial driver works worker (x ∷ xs) some_number fits completes above =
        rw (ran, compute_gpu) refl
      where
        ran :
            partial_softmax F driver schedule beyond (map narrow (x ∷ xs))
            ≡ ok (softmax_partial F (x ∷ xs))
        ran =
            ap (λ (d : Driver). partial_softmax F d schedule beyond (map narrow (x ∷ xs)))
              (same_driver driver works)
            ∙ partial_calm (narrow x) (map narrow xs) fits completes
                (subst IsAbovePad (sym (widen-map_narrow (x ∷ xs))) above)
            ∙ ap (λ (t : List F64). ok (softmax_partial F t)) (widen-map_narrow (x ∷ xs))
