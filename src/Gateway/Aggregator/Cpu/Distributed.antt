-- ===== src/Gateway/Aggregator/Cpu/Distributed.antt =====
-- What `aggregate_softmax_cpu` makes of the slices of any split of a vector.
use distributed_softmax.Prelude.{
  ◌≡◌, sym, ap, ◌∙◌, true, List, [], ◌∷◌, map, flatten, All, IsNonempty, arith, length-map,
}
use distributed_softmax.Floats.{Floats, IsExact}
use distributed_softmax.Floats.Sums.{
  sum, maximum, IsFinite, div-sum, maximum-IsFinite, sum-positive,
}
use distributed_softmax.Worker.Softmax.{softmax_partial}
use distributed_softmax.Gateway.Aggregator.Cpu.{aggregate_softmax_cpu}
use distributed_softmax.Gateway.Aggregator.Cpu.Exact.{
  softmax, weights, received, IsPart, aggregate_parts, flatten-IsPart,
}

module _ (F : Floats) (E : IsExact F) where
  open F use {F64, sub, exp, div, one64}

  weights-positive :
      (top : F64) (xs : List F64)
      → IsFinite F E top
      → All (IsFinite F E) xs
      → All (λ w. E.is_positive w ≡ true) (weights F top xs)
  weights-positive top [] t h = tt
  weights-positive top (x ∷ xs) t (p, ps) = (E.exp-positive x top p t, weights-positive top xs t ps)

  softmax_sums : (xs : List F64) → IsPart F E xs → sum F (softmax F xs) ≡ one64
  unfolding softmax
  softmax_sums xs (h, hs) =
      sym (div-sum F E total weighted)
      ∙ E.div_self total
          (sum-positive F E weighted some_weight (weights-positive top xs finite_top hs))
    where
      top : F64
      top = maximum F xs

      finite_top : IsFinite F E top
      finite_top = maximum-IsFinite F E xs h hs

      weighted : List F64
      weighted = weights F top xs

      total : F64
      total = sum F weighted

      some_weight : IsNonempty weighted
      some_weight = omega (arith, length-map (λ x. exp (sub x top)) xs)

  -- In exact arithmetic, for any split of a vector of finite numbers into non-empty slices, the
  -- gateway's aggregation of the workers' partial softmaxes is the softmax of the whole vector.
  pub aggregate-softmax_partial :
      (part : List F64) (parts : List (List F64))
      → All (IsPart F E) (part ∷ parts)
      → aggregate_softmax_cpu F (map (λ p. received F (softmax_partial F p)) (part ∷ parts))
        ≡ softmax F (flatten (part ∷ parts))
  aggregate-softmax_partial part parts h = aggregate_parts F E part parts h

  -- Under the same conditions the aggregated probabilities add up to 1.
  sum-aggregate_softmax :
      (part : List F64) (parts : List (List F64))
      → All (IsPart F E) (part ∷ parts)
      → sum F (aggregate_softmax_cpu F (map (λ p. received F (softmax_partial F p)) (part ∷ parts)))
        ≡ one64
  sum-aggregate_softmax part parts h =
      ap (sum F) (aggregate-softmax_partial part parts h)
      ∙ softmax_sums (flatten (part ∷ parts)) (flatten-IsPart F E part parts h)
