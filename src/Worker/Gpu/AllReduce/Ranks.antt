-- ===== src/Worker/Gpu/AllReduce/Ranks.antt =====
-- What all ranks together compute: the softmax of the whole vector.
use distributed_softmax.Prelude.{
  ℕ, ◌≡◌, refl, sym, ap, ap₂, ◌∙◌, List, [], ◌∷◌, map, flatten, length, length-map, All, All-imp,
  map_congr, map-map, fun_ext, map-flatten, ◌⊎◌, inr, ok,
}
use distributed_softmax.Text.{Bytes}
use distributed_softmax.Floats.{Floats, IsExact}
use distributed_softmax.Floats.Sums.{sum, maximum, sum-flatten, maximum-flatten}
use distributed_softmax.Floats.Singles.{sum32, maximum32, widen-sum32, widen-maximum32}
use distributed_softmax.Cuda.{Kernel, Driver, Schedule}
use distributed_softmax.Cuda.Grid.{Fits}
use distributed_softmax.Gateway.Aggregator.Cpu.Exact.{softmax, weights}
use distributed_softmax.Worker.Gpu.Kernels.{device_max, device_exp, device_sum}
use distributed_softmax.Worker.Gpu.Device.{
  Completes, device_exp-map, device_sum-sum, device_normalize-map,
}
use distributed_softmax.Worker.Gpu.Partial.Exact.{
  Works, same_driver, IsAbovePad, widen-device_max, widen-weights,
}
use distributed_softmax.Worker.Gpu.AllReduce.{ReduceOp, reduce_max, reduce_sum, all_reduce_softmax}

module _ (F : Floats) (E : IsExact F) (beyond : ℕ → F.F32) where
  open F use {F64, F32, widen, div, exp32, sub32, div32}

  -- A rank's device works, and its slice fits and is not below the kernels' padding.
  abbrev pub Ready : Driver → (Kernel → Schedule) → List F32 → Type 0
  Ready driver schedule ys =
      Works driver
      × Fits (length ys)
      × Completes schedule (length ys)
      × IsAbovePad F E (map widen ys)

  -- A rank's result, from what the communicator told it.
  abbrev share : F32 → F32 → List F32 → List F32
  share top norm ys = map (λ w. div32 w norm) (map (λ y. exp32 (sub32 y top)) ys)

  all_reduce_share :
      (driver : Driver) (schedule : Kernel → Schedule) (comm : ReduceOp → F32 → Bytes ⊎ F32)
      (ys : List F32) (top norm : F32)
      → Ready driver schedule ys
      → comm reduce_max (device_max F schedule beyond ys) ≡ inr top
      → comm reduce_sum (device_sum F schedule beyond ys top) ≡ inr norm
      → all_reduce_softmax F driver schedule beyond comm ys ≡ ok (share top norm ys)
  unfolding all_reduce_softmax
  all_reduce_share driver schedule comm ys top norm (works, fits, completes, above) agreed summed =
      ap (λ (d : Driver). all_reduce_softmax F d schedule beyond comm ys) (same_driver driver works)
      ∙ rw (agreed, summed, all_reduce_softmax)
          (ap ok (
            device_normalize-map F E schedule beyond ys fits completes
              (device_exp F schedule beyond ys top) norm
              (ap length (device_exp-map F E schedule beyond ys fits completes top)
                ∙ length-map (λ y. exp32 (sub32 y top)) ys)
            ∙ ap (map (λ w. div32 w norm))
                (device_exp-map F E schedule beyond ys fits completes top)))

  widen-share :
      (top norm : F32) (ys : List F32)
      → map widen (share top norm ys)
        ≡ map (λ w. div w (widen norm)) (weights F (widen top) (map widen ys))
  widen-share top norm ys =
      widen_quotients (map (λ y. exp32 (sub32 y top)) ys)
      ∙ ap (map (λ w. div w (widen norm))) (widen-weights F E top ys)
    where
      widen_quotients :
          (ws : List F32)
          → map widen (map (λ w. div32 w norm) ws) ≡ map (λ w. div w (widen norm)) (map widen ws)
      widen_quotients [] = refl
      widen_quotients (w ∷ ws) = ap₂ ◌∷◌ (E.widen-div32 w norm) (widen_quotients ws)

  module _ (driver : List F32 → Driver) (schedule : List F32 → Kernel → Schedule)
      (comm : List F32 → ReduceOp → F32 → Bytes ⊎ F32) (ranks : List (List F32)) where
    abbrev whole : List F64
    whole = map widen (flatten ranks)

    -- The maximum and the sum of a rank's device, for the rank that holds a slice.
    abbrev pub rank_max : List F32 → F32
    rank_max ys = device_max F (schedule ys) beyond ys

    abbrev pub rank_sum : F32 → List F32 → F32
    rank_sum top ys = device_sum F (schedule ys) beyond ys top

    abbrev pub top : F32
    top = maximum32 F (map rank_max ranks)

    abbrev pub norm : F32
    norm = sum32 F (map (rank_sum top) ranks)

    -- Both reductions tell every rank the same: what all ranks' values come to.
    abbrev pub Agrees : List F32 → Type 0
    Agrees ys =
        (comm ys reduce_max (rank_max ys) ≡ inr top)
        × (comm ys reduce_sum (rank_sum top ys) ≡ inr norm)

    abbrev pub IsReady : List F32 → Type 0
    IsReady ys = Ready (driver ys) (schedule ys) ys

    module _ (ready : All IsReady ranks) where
      top-maximum : widen top ≡ maximum F whole
      top-maximum =
          widen-maximum32 F E (map rank_max ranks)
          ∙ ap (maximum F) (
              map-map widen rank_max ranks
              ∙ map_congr (λ ys. widen (rank_max ys)) (λ ys. maximum F (map widen ys)) ranks
                  (All-imp IsReady _
                    (λ ys (w, f, c, a). widen-device_max F E (schedule ys) beyond ys f c a) ranks
                    ready)
              ∙ sym (map-map (maximum F) (map widen) ranks))
          ∙ sym (maximum-flatten F E (map (map widen) ranks))
          ∙ ap (maximum F) (sym (map-flatten widen ranks))

      rank_sum-weights :
          (ys : List F32)
          → IsReady ys
          → widen (rank_sum top ys) ≡ sum F (weights F (widen top) (map widen ys))
      rank_sum-weights ys (w, f, c, a) =
          ap widen (device_sum-sum F E (schedule ys) beyond ys f c top)
          ∙ widen-sum32 F E (map (λ y. exp32 (sub32 y top)) ys)
          ∙ ap (sum F) (widen-weights F E top ys)

      weights-whole :
          flatten (map (λ ys. weights F (widen top) (map widen ys)) ranks)
          ≡ weights F (widen top) whole
      weights-whole =
          ap flatten (sym (map-map (weights F (widen top)) (map widen) ranks))
          ∙ sym (map-flatten (λ x. F.exp (F.sub x (widen top))) (map (map widen) ranks))
          ∙ ap (weights F (widen top)) (sym (map-flatten widen ranks))

      norm-sum : widen norm ≡ sum F (weights F (widen top) whole)
      norm-sum =
          widen-sum32 F E (map (rank_sum top) ranks)
          ∙ ap (sum F) (
              map-map widen (rank_sum top) ranks
              ∙ map_congr (λ ys. widen (rank_sum top ys))
                  (λ ys. sum F (weights F (widen top) (map widen ys))) ranks
                  (All-imp IsReady _ rank_sum-weights ranks ready)
              ∙ sym (map-map (sum F) (λ ys. weights F (widen top) (map widen ys)) ranks))
          ∙ sym (sum-flatten F E (map (λ ys. weights F (widen top) (map widen ys)) ranks))
          ∙ ap (sum F) weights-whole

      shares-softmax : map widen (flatten (map (share top norm) ranks)) ≡ softmax F whole
      unfolding softmax
      shares-softmax =
          map-flatten widen (map (share top norm) ranks)
          ∙ ap flatten (
              map-map (map widen) (share top norm) ranks
              ∙ ap (λ (f : List F32 → List F64). map f ranks) (fun_ext (widen-share top norm))
              ∙ sym (
                  map-map (map (λ w. div w (widen norm)))
                    (λ ys. weights F (widen top) (map widen ys)) ranks))
          ∙ sym (
              map-flatten (λ w. div w (widen norm))
                (map (λ ys. weights F (widen top) (map widen ys)) ranks))
          ∙ ap (map (λ w. div w (widen norm))) weights-whole
          ∙ ap₂ (λ (t n : F64). map (λ w. div w n) (weights F t whole)) top-maximum
              (norm-sum ∙ ap (λ (t : F64). sum F (weights F t whole)) top-maximum)

      -- In exact arithmetic: where each rank's device works, its launches run every thread in any order,
      -- its slice has at most 2 ^ 31 - 256 numbers and a maximum that is not below the kernels' padding,
      -- and the reductions of NCCL tell every rank the maximum and the sum of all ranks' values, every
      -- rank succeeds, and the ranks' results, in order, are the softmax of the whole vector.
      pub all_reduce_softmax-softmax :
          All Agrees ranks
          → (results : List (List F32)) × (map
                (λ ys. all_reduce_softmax F (driver ys) (schedule ys) beyond (comm ys) ys)
                ranks
              ≡ map ok results)
            × (map widen (flatten results) ≡ softmax F (map widen (flatten ranks)))
      all_reduce_softmax-softmax agrees = (
        map (share top norm) ranks,
        map_congr (λ ys. all_reduce_softmax F (driver ys) (schedule ys) beyond (comm ys) ys)
              (λ ys. ok (share top norm ys)) ranks (each ranks ready agrees)
            ∙ sym (map-map ok (share top norm) ranks),
        shares-softmax,
      )
        where
          each :
              (rs : List (List F32))
              → All IsReady rs
              → All Agrees rs
              → All
                  (λ ys.
                    all_reduce_softmax F (driver ys) (schedule ys) beyond (comm ys) ys
                    ≡ ok (share top norm ys))
                  rs
          each [] r a = tt
          each (ys ∷ rs) (r, rest) ((m, s), agree) = (
            all_reduce_share (driver ys) (schedule ys) (comm ys) ys top norm r m s,
            each rs rest agree,
          )
