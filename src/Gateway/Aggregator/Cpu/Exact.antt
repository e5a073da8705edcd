-- ===== src/Gateway/Aggregator/Cpu/Exact.antt =====
-- In exact arithmetic the aggregation of partial softmaxes is the softmax of the whole vector.
use distributed_softmax.Prelude.{
  ◌≡◌, refl, sym, ap, ap₂, ◌∙◌, false, List, [], ◌∷◌, map, flatten, All, All-imp, All-flatten,
  map_congr, length-append, IsNonempty, arith, map-flatten, map-map, map-zip_self, fun_ext,
}
use distributed_softmax.Floats.{Floats, IsExact}
use distributed_softmax.Floats.Sums.{
  sum, maximum, IsFinite, sum-flatten, maximum-flatten, mul-sum, maximum-IsFinite,
}
use distributed_softmax.Worker.Softmax.{PartialStats, softmax_partial}
use distributed_softmax.Gateway.Aggregator.Cpu.{
  SliceStats, global_max, adjust, global_sum, aggregate_softmax_cpu,
}

module _ (F : Floats) where
  open F use {F64, sub, mul, div, exp, widen, narrow}

  -- The softmax of a vector, as it is defined: exp (x - max) over the sum of these.
  abbrev pub weights : F64 → List F64 → List F64
  weights top = map (λ x. exp (sub x top))

  unfoldable pub softmax : List F64 → List F64
  softmax xs = let top = maximum F xs in map (λ w. div w (sum F (weights top xs))) (weights top xs)

  -- What the gateway holds of a slice that a worker computed: `read_slice` after `encode_partial`.
  unfoldable pub received : PartialStats F → SliceStats F
  received s = record {
    exp_values = map widen s.exp_values;
    local_max = s.local_max;
    partial_sum = s.partial_sum;
    is_normalized = false;
  }

  abbrev of_part : List F64 → SliceStats F
  of_part part = received (softmax_partial F part)

  module _ (E : IsExact F) where
    abbrev pub IsPart : List F64 → Type 0
    IsPart part = IsNonempty part × All (IsFinite F E) part

    part_local_max : (part : List F64) → IsNonempty part → (of_part part).local_max ≡ maximum F part
    unfolding received softmax_partial
    part_local_max [] h = elim h [ ]
    part_local_max (x ∷ xs) h = refl

    part_exp_values : (part : List F64) → (of_part part).exp_values ≡ weights (maximum F part) part
    unfolding received softmax_partial
    part_exp_values [] = refl
    part_exp_values (x ∷ xs) =
        map-map widen (λ y. narrow (exp (sub y (maximum F (x ∷ xs))))) (x ∷ xs)
        ∙ ap (λ (f : F64 → F64). map f (x ∷ xs))
            (fun_ext (λ y. E.widen-narrow (exp (sub y (maximum F (x ∷ xs))))))

    part_partial_sum :
        (part : List F64)
        → IsNonempty part
        → (of_part part).partial_sum ≡ sum F ((of_part part).exp_values)
    unfolding received softmax_partial
    part_partial_sum [] h = elim h [ ]
    part_partial_sum (x ∷ xs) h = refl

    -- The adjustment of a slice turns its weights into those at the global maximum.
    shift_weights :
        (top local : F64) (part : List F64)
        → IsFinite F E top
        → IsFinite F E local
        → All (IsFinite F E) part
        → map (λ w. mul w (exp (sub local top))) (weights local part) ≡ weights top part
    shift_weights top local [] t l h = refl
    shift_weights top local (x ∷ xs) t l (p, ps) =
        ap₂ ◌∷◌ (E.exp_shift x local top p l t) (shift_weights top local xs t l ps)

    abbrev scaled_sum : F64 → SliceStats F → F64
    scaled_sum top s = mul s.partial_sum (exp (sub s.local_max top))

    abbrev scaled_values : F64 → F64 → SliceStats F → List F64
    scaled_values top total s =
        map (λ ev. div (mul ev (exp (sub s.local_max top))) total) s.exp_values

    module _ (top : F64) (IsFinite-top : IsFinite F E top) where
      part_values :
          (part : List F64)
          → IsPart part
          → map (λ w. mul w (exp (sub (of_part part).local_max top))) (of_part part).exp_values
            ≡ weights top part
      part_values part (h, hs) =
          rw (part_local_max part h, part_exp_values part)
            (shift_weights top (maximum F part) part IsFinite-top (maximum-IsFinite F E part h hs)
              hs)

      part_sum :
          (part : List F64) → IsPart part → scaled_sum top (of_part part) ≡ sum F (weights top part)
      part_sum part (h, hs) =
          ap (λ (t : F64). mul t (exp (sub (of_part part).local_max top))) (part_partial_sum part h)
          ∙ mul-sum F E (exp (sub (of_part part).local_max top)) (of_part part).exp_values
          ∙ ap (sum F) (part_values part (h, hs))

      part_result :
          (total : F64) (part : List F64)
          → IsPart part
          → scaled_values top total (of_part part) ≡ map (λ w. div w total) (weights top part)
      part_result total part h =
          sym (
            map-map (λ w. div w total) (λ w. mul w (exp (sub (of_part part).local_max top)))
              (of_part part).exp_values)
          ∙ ap (map (λ w. div w total)) (part_values part h)

    abbrev stats_of : List (List F64) → List (SliceStats F)
    stats_of = map of_part

    global_max-parts :
        (parts : List (List F64))
        → All IsPart parts
        → global_max F (stats_of parts) ≡ maximum F (flatten parts)
    unfolding global_max
    global_max-parts parts h =
        ap (maximum F) (
          map-map (λ s. s.local_max) of_part parts
          ∙ map_congr (λ p. (of_part p).local_max) (maximum F) parts
              (All-imp IsPart _ (λ p q. part_local_max p q.0) parts h))
        ∙ sym (maximum-flatten F E parts)

    pub flatten-IsPart :
        (part : List F64) (parts : List (List F64))
        → All IsPart (part ∷ parts)
        → IsPart (flatten (part ∷ parts))
    unfolding flatten
    flatten-IsPart part parts h = (
      omega (arith, length-append part (flatten parts), h.0.0),
      All-flatten (IsFinite F E) (part ∷ parts) (All-imp IsPart _ (λ p q. q.1) (part ∷ parts) h),
    )

    module _ (part : List F64) (parts : List (List F64)) (h : All IsPart (part ∷ parts)) where
      abbrev every : List (List F64)
      every = part ∷ parts

      abbrev top : F64
      top = maximum F (flatten every)

      IsFinite-top : IsFinite F E top
      IsFinite-top =
          let whole = flatten-IsPart part parts h in
          maximum-IsFinite F E (flatten every) whole.0 whole.1

      weights-flatten : flatten (map (weights top) every) ≡ weights top (flatten every)
      weights-flatten = sym (map-flatten (λ x. exp (sub x top)) every)

      global_sum-parts : global_sum F (stats_of every) ≡ sum F (weights top (flatten every))
      unfolding global_sum adjust
      global_sum-parts =
          ap (sum F) (
            map-zip_self (λ (s, a). mul s.partial_sum a)
              (λ s. exp (sub s.local_max (global_max F (stats_of every)))) (stats_of every)
            ∙ ap (λ (t : F64). map (scaled_sum t) (stats_of every)) (global_max-parts every h)
            ∙ map-map (scaled_sum top) of_part every
            ∙ map_congr _ (λ p. sum F (weights top p)) every
                (All-imp IsPart _ (part_sum top IsFinite-top) every h)
            ∙ sym (map-map (sum F) (weights top) every))
          ∙ sym (sum-flatten F E (map (weights top) every))
          ∙ ap (sum F) weights-flatten

      pub aggregate_parts : aggregate_softmax_cpu F (stats_of every) ≡ softmax (flatten every)
      unfolding aggregate_softmax_cpu adjust softmax
      aggregate_parts =
          ap flatten (
            map-zip_self
              (λ (s, a). map (λ ev. div (mul ev a) (global_sum F (stats_of every))) s.exp_values)
              (λ s. exp (sub s.local_max (global_max F (stats_of every)))) (stats_of every)
            ∙ ap₂ (λ (t g : F64). map (scaled_values t g) (stats_of every))
                (global_max-parts every h) global_sum-parts
            ∙ map-map (scaled_values top total) of_part every
            ∙ map_congr _ (λ p. map (λ w. div w total) (weights top p)) every
                (All-imp IsPart _ (part_result top IsFinite-top total) every h)
            ∙ sym (map-map (map (λ w. div w total)) (weights top) every))
          ∙ sym (map-flatten (λ w. div w total) (map (weights top) every))
          ∙ ap (map (λ w. div w total)) weights-flatten
        where
          total : F64
          total = sum F (weights top (flatten every))
