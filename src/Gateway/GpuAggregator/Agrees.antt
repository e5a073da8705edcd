-- ===== src/Gateway/GpuAggregator/Agrees.antt =====
-- In exact arithmetic the aggregation on a device is the one on the CPU.
use distributed_softmax.Prelude.{
  ℕ, ◌<◌, ◌≤◌, ◌^◌, ◌≡◌, refl, sym, ap, ap₂, ◌∙◌, List, [], ◌∷◌, map, flatten, length, arith,
  map-map, map-zip_self, map-flatten, fun_ext, none, some, lt→ltb, replicate, length-replicate, ok,
  if◌then◌else◌,
}
use distributed_softmax.Prelude.Int.{ℤ}
use distributed_softmax.Prelude.Totals.{tabulate, read}
use distributed_softmax.Floats.{Floats, IsExact}
use distributed_softmax.Floats.Sums.{sum}
use distributed_softmax.Floats.Singles.{sum32, widen-sum32}
use distributed_softmax.Cuda.{Driver, Schedule, count}
use distributed_softmax.Cuda.Writes.{write_all-tabulate}
use distributed_softmax.Cuda.Grid.{in_range, in_range-ltb}
use distributed_softmax.Worker.Gpu.Partial.Exact.{Works, calm, same_driver}
use distributed_softmax.Gateway.Aggregator.Cpu.{
  SliceStats, global_max, adjust, global_sum, aggregate_softmax_cpu,
}
use distributed_softmax.Gateway.GpuAggregator.{
  total_elements, adjusts_of, device_global_sum, inv_global_sum, read_at, run_aggregate_normalize,
  gpu_aggregate,
}
use distributed_softmax.Gateway.GpuAggregator.Elements.{
  Element, arrays_of, elements, host_arrays-elements, length-elements, elements-adjusted,
  tabulate-read_pairs,
}

-- The launch runs a thread for each element; the source asks for `for_num_elems` of them.
abbrev pub Covers : ℕ → Schedule → Type 0
Covers n S = (i : ℕ) → i < n → 0 < count i S.ids

module _ (F : Floats) where
  module _ (E : IsExact F) where
    open F use {F64, F32, widen, narrow, exp, sub, mul, div, mul32, div32, one32, zero32}

    adjustment : List (SliceStats F) → SliceStats F → F32
    adjustment stats s = narrow (exp (sub s.local_max (global_max F stats)))

    widen-device_global_sum :
        (stats : List (SliceStats F)) → widen (device_global_sum F stats) ≡ global_sum F stats
    unfolding device_global_sum global_sum adjusts_of adjust adjustment
    widen-device_global_sum stats =
        ap (λ (t : List F32). widen (sum32 F t))
          (map-zip_self (λ (s, a). mul32 (narrow s.partial_sum) a) (adjustment stats) stats)
        ∙ widen-sum32 F E (map (λ s. mul32 (narrow s.partial_sum) (adjustment stats s)) stats)
        ∙ ap (sum F) (
            map-map widen (λ s. mul32 (narrow s.partial_sum) (adjustment stats s)) stats
            ∙ ap (λ (f : SliceStats F → F64). map f stats)
                (fun_ext (λ s.
                  E.widen-mul32 (narrow s.partial_sum) (adjustment stats s)
                  ∙ ap₂ mul (E.widen-narrow s.partial_sum)
                      (E.widen-narrow (exp (sub s.local_max (global_max F stats))))))
            ∙ sym (
                map-zip_self (λ (s, a). mul s.partial_sum a)
                  (λ s. exp (sub s.local_max (global_max F stats))) stats))

    -- An element of the result.
    probability : List (SliceStats F) → F32 → F32 → F32
    probability stats v a = mul32 (mul32 v a) (inv_global_sum F stats)

    widen-probability :
        (stats : List (SliceStats F)) (v a : F64)
        → widen (probability stats (narrow v) (narrow a)) ≡ div (mul v a) (global_sum F stats)
    unfolding probability inv_global_sum
    widen-probability stats v a =
        rw
          (
            E.widen-mul32 (mul32 (narrow v) (narrow a)) (div32 one32 (device_global_sum F stats)),
            E.widen-mul32 (narrow v) (narrow a),
            E.widen-div32 one32 (device_global_sum F stats),
            E.widen-narrow v,
            E.widen-narrow a,
            E.widen-one32,
            widen-device_global_sum stats,
          )
          (E.mul_inverse (mul v a) (global_sum F stats))

    values : List (SliceStats F) → List F32
    values stats =
        flatten (
          map (λ s. map (λ v. probability stats (narrow v) (adjustment stats s)) s.exp_values)
            stats)

    widen-values :
        (s : SliceStats F) (rest : List (SliceStats F))
        → map widen (values (s ∷ rest)) ≡ aggregate_softmax_cpu F (s ∷ rest)
    unfolding values aggregate_softmax_cpu adjust adjustment
    widen-values s rest =
        map-flatten widen (
          map (λ s. map (λ v. probability every (narrow v) (adjustment every s)) s.exp_values)
            every)
        ∙ ap flatten (
            map-map (map widen)
              (λ s. map (λ v. probability every (narrow v) (adjustment every s)) s.exp_values) every
            ∙ ap (λ (f : SliceStats F → List F64). map f every)
                (fun_ext (λ s.
                  map-map widen (λ v. probability every (narrow v) (adjustment every s))
                    s.exp_values
                  ∙ ap (λ (f : F64 → F64). map f s.exp_values)
                      (fun_ext (λ v.
                        widen-probability every v (exp (sub s.local_max (global_max F every)))))))
            ∙ sym (
                map-zip_self
                  (λ (s, a). map (λ ev. div (mul ev a) (global_sum F every)) s.exp_values)
                  (λ s. exp (sub s.local_max (global_max F every))) every))
      where
        every : List (SliceStats F)
        every = s ∷ rest

    module _ (S : Schedule) (beyond : ℕ → F32) (beyond_ids : ℕ → ℤ) where
      launched :
          (stats : List (SliceStats F)) (inv : F32)
          → total_elements F stats < 2 ^ 31
          → length stats ≤ 2 ^ 31
          → Covers (total_elements F stats) S
          → let (exp_vals, slice_ids) = arrays_of F (elements F 0 stats) in
            run_aggregate_normalize F S beyond beyond_ids exp_vals
              (adjusts_of F stats)
              slice_ids
              (replicate (total_elements F stats) zero32)
              inv
              (total_elements F stats)
            ≡ flatten (
                map
                  (λ s. map (λ v. mul32 (mul32 (narrow v) (adjustment stats s)) inv) s.exp_values)
                  stats)
      unfolding run_aggregate_normalize adjusts_of adjustment
      launched stats inv few few_slices covers =
          write_all-tabulate at
            (λ k. if in_range k (total_elements F stats) then some (at k) else none)
            (total_elements F stats)
            (λ i h.
              rw
                (
                  in_range-ltb i (total_elements F stats) (omega arith) (omega arith),
                  lt→ltb i (total_elements F stats) h,
                )
                refl)
            S.ids (replicate (total_elements F stats) zero32)
            (length-replicate (total_elements F stats) zero32) covers
          ∙ ap (λ n. tabulate n at) (length-elements F stats)
          ∙ tabulate-read_pairs (λ v z. mul32 (mul32 v (read_at beyond (adjusts_of F stats) z)) inv)
              beyond beyond_ids (elements F 0 stats)
          ∙ elements-adjusted F beyond (λ v a. mul32 (mul32 v a) inv) (adjustment stats) [] stats
              (omega arith)
        where
          exp_vals : List F32
          exp_vals = map (λ (p : Element F). p.0) (elements F 0 stats)

          slice_ids : List ℤ
          slice_ids = map (λ (p : Element F). p.1) (elements F 0 stats)

          at : ℕ → F32
          at k =
              mul32
                (mul32 (read beyond exp_vals k)
                  (read_at beyond (adjusts_of F stats) (read beyond_ids slice_ids k)))
                inv

      aggregate_calm :
          (s : SliceStats F) (rest : List (SliceStats F))
          → total_elements F (s ∷ rest) < 2 ^ 31
          → length (s ∷ rest) ≤ 2 ^ 31
          → Covers (total_elements F (s ∷ rest)) S
          → gpu_aggregate F S beyond beyond_ids calm (s ∷ rest) ≡ ok (values (s ∷ rest))
      unfolding gpu_aggregate values probability
      aggregate_calm s rest few few_slices covers =
          rw (host_arrays-elements F (s ∷ rest), gpu_aggregate)
            (ap ok (launched (s ∷ rest) (inv_global_sum F (s ∷ rest)) few few_slices covers))

      -- In exact arithmetic, on a device whose calls succeed and whose launch runs a thread for each
      -- element, in any order, the aggregation of slices with fewer than 2 ^ 31 elements, in at most
      -- 2 ^ 31 slices, succeeds, and its numbers are those of the aggregation on the CPU.
      pub gpu_aggregate-cpu :
          (driver : Driver)
          → Works driver
          → (stats : List (SliceStats F)) → total_elements F stats < 2 ^ 31
          → length stats ≤ 2 ^ 31
          → Covers (total_elements F stats) S
          → (result : List F32) × (gpu_aggregate F S beyond beyond_ids driver stats ≡ ok result)
            × (map widen result ≡ aggregate_softmax_cpu F stats)
      unfolding gpu_aggregate aggregate_softmax_cpu
      gpu_aggregate-cpu driver works [] few few_slices covers = ([], refl, refl)
      gpu_aggregate-cpu driver works (s ∷ rest) few few_slices covers = (
        values (s ∷ rest),
        ap (λ (d : Driver). gpu_aggregate F S beyond beyond_ids d (s ∷ rest))
              (same_driver driver works)
            ∙ aggregate_calm s rest few few_slices covers,
        widen-values s rest,
      )
