-- ===== src/Worker/Gpu/AllReduce/Sizes.antt =====
-- How many numbers a rank returns.
use distributed_softmax.Prelude.{
  ℕ, ◌≡◌, ◌∙◌, List, length, replicate, length-replicate, ◌⊎◌, Outcome, ok, err, panic, ◌>>=◌,
  from_sum, subst,
}
use distributed_softmax.Errors.{ok_eq, with_context, with_prefix}
use distributed_softmax.Text.{Bytes, bytes}
use distributed_softmax.Floats.{Floats}
use distributed_softmax.Cuda.{
  Kernel, block_max_f32, exp_and_block_sum_f32, normalize_f32, load_module, load_function,
  clone_htod, alloc_zeros, launch, memcpy_dtoh, synchronize, Driver, run, Schedule,
}
use distributed_softmax.Cuda.Writes.{length-write_all}
use distributed_softmax.Worker.Gpu.Kernels.{
  device_normalize, run_normalize_f32, device_exp, device_sum, device_max,
}
use distributed_softmax.Worker.Gpu.AllReduce.{ReduceOp, reduce_max, reduce_sum, all_reduce_softmax}

-- What a computation returns has a property, if it returns.
abbrev Returns {ℓ κ} : {A : Type ℓ} → (A → Type κ) → Outcome Bytes A → Type (ℓ ⊔ κ)
Returns P r = (a : _) → r ≡ ok a → P a

module _ {ℓ υ} {B : Type ℓ} (P : B → Type υ) where
  ok-Returns : (b : B) → P b → Returns P (ok b)
  ok-Returns b p a h = subst P (ok_eq b a h) p

  bind-Returns :
      {A : Type 0} (m : Outcome Bytes A) (k : A → Outcome Bytes B)
      → ((a : A) → Returns P (k a))
      → Returns P (m >>= k)
  bind-Returns (ok a) k h b e = h a b e
  bind-Returns (err x) k h b e = absurd (cc e)
  bind-Returns panic k h b e = absurd (cc e)

module _ (F : Floats) (driver : Driver) (schedule : Kernel → Schedule) (beyond : ℕ → F.F32)
    (comm : ReduceOp → F.F32 → Bytes ⊎ F.F32) where
  open F use {F32}

  length-device_normalize :
      (xs exps : List F32) (norm : F32)
      → length (device_normalize F schedule beyond xs exps norm) ≡ length xs
  unfolding device_normalize run_normalize_f32
  length-device_normalize xs exps norm =
      length-write_all _ (schedule normalize_f32).ids (replicate (length xs) F.zero32)
      ∙ length-replicate (length xs) F.zero32

  abbrev Sized : List F32 → List F32 → Type 0
  Sized xs ps = length ps ≡ length xs

  pub length-all_reduce_softmax :
      (xs ps : List F32)
      → all_reduce_softmax F driver schedule beyond comm xs ≡ ok ps
      → length ps ≡ length xs
  unfolding all_reduce_softmax
  length-all_reduce_softmax xs =
      bind-Returns (Sized xs) (with_context (bytes "load PTX") (run driver load_module)) _ (λ _.
        bind-Returns (Sized xs) (run driver (load_function block_max_f32)) _ (λ _.
          bind-Returns (Sized xs) (run driver (load_function exp_and_block_sum_f32)) _ (λ _.
            bind-Returns (Sized xs) (run driver (load_function normalize_f32)) _ (λ _.
              bind-Returns (Sized xs) (run driver (clone_htod (bytes "d_input"))) _ (λ _.
                bind-Returns (Sized xs) (run driver (alloc_zeros (bytes "d_bmaxes"))) _ (λ _.
                  bind-Returns (Sized xs) (run driver (launch block_max_f32)) _ (λ _.
                    bind-Returns (Sized xs) (run driver (memcpy_dtoh (bytes "d_bmaxes"))) _ (λ _.
                      bind-Returns (Sized xs) (ok (device_max F schedule beyond xs)) _ (λ local_max.
                        bind-Returns (Sized xs) (run driver (clone_htod (bytes "d_lmax"))) _ (λ _.
                          bind-Returns (Sized xs) (run driver (alloc_zeros (bytes "d_gmax"))) _
                            (λ _.
                              bind-Returns (Sized xs)
                                (with_prefix (bytes "AllReduce MAX: ")
                                  (from_sum (comm reduce_max local_max)))
                                _
                                (λ global_max.
                                  bind-Returns (Sized xs)
                                    (with_prefix (bytes "sync: ")
                                      (run driver (synchronize (bytes "d_gmax"))))
                                    _
                                    (λ _.
                                      bind-Returns (Sized xs)
                                        (run driver (memcpy_dtoh (bytes "d_gmax"))) _
                                        (λ _.
                                          bind-Returns (Sized xs)
                                            (run driver (alloc_zeros (bytes "d_exp"))) _
                                            (λ _.
                                              bind-Returns (Sized xs)
                                                (run driver (alloc_zeros (bytes "d_bsums"))) _
                                                (λ _.
                                                  bind-Returns (Sized xs)
                                                    (run driver (launch exp_and_block_sum_f32)) _
                                                    (λ _.
                                                      bind-Returns (Sized xs)
                                                        (run driver (memcpy_dtoh (bytes "d_bsums")))
                                                        _
                                                        (λ _.
                                                          bind-Returns (Sized xs)
                                                            (ok (
                                                            device_sum F schedule beyond xs
                                                            global_max))
                                                            _
                                                            (λ local_sum.
                                                            bind-Returns (Sized xs)
                                                            (run driver
                                                            (clone_htod (bytes "d_lsum")))
                                                            _
                                                            (λ _.
                                                            bind-Returns (Sized xs)
                                                            (run driver
                                                            (alloc_zeros (bytes "d_gsum")))
                                                            _
                                                            (λ _.
                                                            bind-Returns (Sized xs)
                                                            (with_prefix (bytes "AllReduce SUM: ")
                                                            (from_sum (comm reduce_sum local_sum)))
                                                            _
                                                            (λ global_sum.
                                                            bind-Returns (Sized xs)
                                                            (with_prefix (bytes "sync: ") (
                                                            run driver
                                                            (synchronize (bytes "d_gsum"))))
                                                            _
                                                            (λ _.
                                                            bind-Returns (Sized xs)
                                                            (run driver
                                                            (memcpy_dtoh (bytes "d_gsum")))
                                                            _
                                                            (λ _.
                                                            bind-Returns (Sized xs)
                                                            (run driver
                                                            (alloc_zeros (bytes "d_out")))
                                                            _
                                                            (λ _.
                                                            bind-Returns (Sized xs)
                                                            (run driver (launch normalize_f32)) _
                                                            (λ _.
                                                            bind-Returns (Sized xs)
                                                            (run driver
                                                            (memcpy_dtoh (bytes "d_out")))
                                                            _
                                                            (λ _.
                                                            ok-Returns (Sized xs)
                                                            (device_normalize F schedule beyond xs
                                                            (device_exp F schedule beyond xs
                                                            global_max)
                                                            global_sum)
                                                            (length-device_normalize xs
                                                            (device_exp F schedule beyond xs
                                                            global_max)
                                                            global_sum))))))))))))))))))))))))))))
