-- ===== src/Gateway/Aggregator/Aggregate/Arrived.antt =====
-- What the gateway makes of slices of which it knows what can be read of them.
use distributed_softmax.Prelude.{
  ℕ, zero, suc, ◌+◌, ◌≤◌, ◌<◌, ◌^◌, ◌≡◌, refl, sym, ap, ◌∙◌, Option, none, some, List, [], ◌∷◌, map,
  length, get_elem?, length-map, arith, inl, inr, Outcome, ok, get_elem?_ext, get_elem?_total,
  Bool-cases, ltb,
}
use distributed_softmax.Text.{Bytes}
use distributed_softmax.Floats.{Floats}
use distributed_softmax.Wire.{Endian}
use distributed_softmax.Json.{Parser}
use distributed_softmax.Redis.{Redis}
use distributed_softmax.Gateway.Config.{Env}
use distributed_softmax.Gateway.RedisManager.{Serde, store_final_result}
use distributed_softmax.Gateway.SliceNotifier.{Jobs, register_job, unregister_job}
use distributed_softmax.Gateway.Aggregator.Cpu.{SliceStats, default_stats}
use distributed_softmax.Gateway.Aggregator.ReadSlice.{read_slice, read_slice-ne-panic}
use distributed_softmax.Gateway.Aggregator.Wait.Result.{AllRead, wait_for_all_slices_complete}
use distributed_softmax.Gateway.Aggregator.Aggregate.{
  slice_timeout, final_values, collect, finish, aggregate,
}

get_elem?-map {ℓ κ} :
    {A : Type ℓ} {B : Type κ} (f : A → B) (xs : List A) (i : ℕ) (a : A)
    → get_elem? xs i ≡ some a
    → get_elem? (map f xs) i ≡ some (f a)
get_elem?-map f [] i a e = cc
get_elem?-map f (x ∷ xs) zero a e = cc
get_elem?-map f (x ∷ xs) (suc i) a e = get_elem?-map f xs i a e

get_elem?_beyond {ℓ} : {A : Type ℓ} (xs : List A) (i : ℕ) → length xs ≤ i → get_elem? xs i ≡ none
get_elem?_beyond [] i h = refl
get_elem?_beyond (x ∷ xs) zero h = absurd (omega arith)
get_elem?_beyond (x ∷ xs) (suc i) h = get_elem?_beyond xs i (omega arith)

-- Two lists of one length that agree at every index in range.
list_ext {ℓ} :
    {A : Type ℓ} (xs ys : List A)
    → length xs ≡ length ys
    → ((i : ℕ) → i < length xs → get_elem? xs i ≡ get_elem? ys i)
    → xs ≡ ys
list_ext xs ys e same = get_elem?_ext xs ys (λ i. elim (Bool-cases (ltb i (length xs))) [
  | inl below ↦ same i (ground arith)
  | inr beyond ↦ get_elem?_beyond xs i (ground arith) ∙ sym (get_elem?_beyond ys i (ground arith))
])

-- The slices that are awaited, and what can be read of each.
module _ (F : Floats) (R : Redis) (J : Serde F.F64) (parse : Parser F.F64) (e : Endian) (env : Env)
    (found : ℕ → ℕ → R.State) (now : ℕ → ℕ) (start : ℕ) (clock : Option ℕ) (job_id : Bytes)
    {X : Type 0} (of_part : X → SliceStats F) (every : List X) where
  open F use {F64}

  abbrev pub read : ℕ → ℕ → Outcome Bytes (Option (SliceStats F))
  read k i = read_slice F R parse e (found k i) job_id i

  abbrev pub ReadsOnly : Type 0
  ReadsOnly =
      (k i : ℕ) (p : X) (s : SliceStats F)
      → get_elem? every i ≡ some p
      → read k i ≡ ok (some s)
      → s ≡ of_part p

  -- Every slice can be read in some round up to `k`, and the deadline has not passed before that.
  abbrev pub AllArrive : ℕ → Type 0
  AllArrive k =
      ((j : ℕ) → j < k → now j < start + slice_timeout env)
      × ((i : ℕ)
          → i < length every
          → (j : ℕ) × (s : SliceStats F) × (j ≤ k) × (read j i ≡ ok (some s)))

  module _ (reads : ReadsOnly)
      (gpu : Option (List (SliceStats F) → Outcome Bytes (List F.F32))) where
    collected :
        (stats : List (SliceStats F))
        → AllRead read now job_id (length every) (start + slice_timeout env) stats
        → stats ≡ map of_part every
    collected stats (same_length, each) =
        list_ext stats (map of_part every) (same_length ∙ sym (length-map of_part every))
          (λ i below.
            let (s, j, held, was_read) = each i (omega arith) in
            let (p, own) = get_elem?_total every i (omega arith) in
            held
            ∙ ap (λ (t : SliceStats F). some t) (reads j i p s own was_read)
            ∙ sym (get_elem?-map of_part every i p own))

    collected_ok :
        length every < 2 ^ 64
        → (k last fuel : ℕ) → AllArrive k
        → start + slice_timeout env ≤ now last
        → last < fuel
        → collect F R J parse e env gpu found now start clock job_id fuel (length every)
          ≡ some (ok (map of_part every))
    unfolding collect
    collected_ok small k last fuel (early, arrived) ends enough =
        let (stats, waited, all) =
          wait_for_all_slices_complete read now job_id (length every) (start + slice_timeout env)
            small (λ j i. read_slice-ne-panic F R parse e (found j i) job_id i) last ends fuel
            (default_stats F) k enough early arrived in
        waited ∙ ap (λ (t : List (SliceStats F)). some (ok t)) (collected stats all)

    finish_ok :
        (values : List F64)
        → final_values F R J parse e env gpu (map of_part every) ≡ ok values
        → (json : Bytes) (s s' : R.State) → J.numbers_to_string values ≡ inr json
        → store_final_result R J env clock job_id json s ≡ (ok tt, s')
        → finish F R J parse e env gpu found now start clock job_id (map of_part every) s
          ≡ (ok json, s')
    unfolding finish
    finish_ok values made json s s' printed stored = rw (made, printed, stored) refl

    -- Where all slices arrive before the deadline, the gateway stores and returns the text of the
    -- values that it makes of them, and no longer waits for the job.
    pub aggregate_arrived :
        (values : List F64)
        → final_values F R J parse e env gpu (map of_part every) ≡ ok values
        → length every < 2 ^ 64
        → (k last fuel : ℕ) → AllArrive k
        → start + slice_timeout env ≤ now last
        → last < fuel
        → (json : Bytes) (s s' : R.State) (jobs : Jobs) → J.numbers_to_string values ≡ inr json
        → store_final_result R J env clock job_id json s ≡ (ok tt, s')
        → aggregate F R J parse e env gpu found now start clock job_id fuel (length every) (s, jobs)
          ≡ some (ok json, (s', unregister_job (register_job jobs job_id) job_id))
    unfolding aggregate
    aggregate_arrived values made small k last fuel (early, arrived) ends enough json s s' jobs
          printed stored =
        rw
          (
            collected_ok small k last fuel (early, arrived) ends enough,
            finish_ok values made json s s' printed stored,
            aggregate,
          )
          refl
