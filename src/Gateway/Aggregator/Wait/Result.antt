-- ===== src/Gateway/Aggregator/Wait/Result.antt =====
-- What `wait_for_all_slices` returns, and that it returns.
use distributed_softmax.Prelude.{
  ℕ, zero, suc, ◌+◌, ◌≤◌, ◌<◌, ◌^◌, ◌≡◌, ◌≢◌, refl, sym, ◌∙◌, subst, ◌⊎◌, inl, inr, true, false,
  Bool, Bool-cases, leb, leb→le, ◌==◌, ltb, Option, some, List, length, get_elem?, get_elem?_total,
  get_elem?-lt, arith, Outcome, ok, err, panic,
}
use native.Mathlib.Decide.{ℕ_discrete}
use distributed_softmax.Text.{Bytes}
use distributed_softmax.Gateway.Aggregator.Wait.{
  Held, timeout_message, wait_loop, wait_for_all_slices,
}
use distributed_softmax.Gateway.Aggregator.Wait.Invariant.{
  missing-zero, missing_index, Entry, reads, Inv, none_held-Inv,
}
use distributed_softmax.Gateway.Aggregator.Wait.Pass.{read_pass-Inv, next_round-Inv}

module _ {S : Type 0} (read : ℕ → ℕ → Outcome Bytes (Option S)) (now : ℕ → ℕ) (job_id : Bytes)
    (total deadline : ℕ) where
  -- All slices, each as some round read it, in their order.
  abbrev pub AllRead : List S → Type 0
  AllRead stats =
      (length stats ≡ total)
      × ((i : ℕ)
          → i < total
          → (s : S) × (j : ℕ) × (get_elem? stats i ≡ some s) × (read j i ≡ ok (some s)))

  -- A slice that no round up to `k` could read, with the deadline passed in round `k` and not before.
  abbrev pub TimedOut : ℕ → Type 0
  TimedOut k =
      (deadline ≤ now k)
      × ((j : ℕ) → j < k → now j < deadline)
      × ((i : ℕ) × (i < total) × ((j : ℕ) → j ≤ k → (s : S) → read j i ≢ ok (some s)))

  abbrev pub Answer : Option (Outcome Bytes (List S)) → Type 0
  Answer r =
      ((stats : List S) × (r ≡ some (ok stats)) × AllRead stats)
      ⊎ ((k : ℕ) × (r ≡ some (err (timeout_message job_id))) × TimedOut k)

  all_read : (k : ℕ) (h : Held S) → Inv read total k total h → h.remaining ≡ 0 → AllRead h.stats
  all_read k h inv none_left = (
    inv.length_stats,
    λ i below.
        let (b, here) = get_elem?_total h.have i (omega (arith, inv.length_have)) in
        let held : b ≡ true = missing-zero h.have i b (sym inv.counted ∙ none_left) here in
        let entry =
          subst (λ (c : Bool). Entry read i (reads read k total i) c (get_elem? h.stats i)) held
            (inv.entry i b here) in
        (entry.0, entry.1, entry.3, entry.4),
  )

  not_read :
      (k : ℕ) (h : Held S)
      → Inv read total k total h
      → 0 < h.remaining
      → (i : ℕ) × (i < total) × ((j : ℕ) → j ≤ k → (s : S) → read j i ≢ ok (some s))
  not_read k h inv some_left =
      let (i, here) = missing_index h.have (omega (arith, inv.counted)) in
      let below : i < total = omega (arith, get_elem?-lt h.have i false here, inv.length_have) in
      let count : k + 1 ≡ reads read k total i = ground arith in
      (i, below, λ j le. inv.entry i false here j (subst (λ (n : ℕ). j < n) count (omega arith)))

  early_next :
      (k : ℕ)
      → ((j : ℕ) → j < k → now j < deadline)
      → now k < deadline
      → (j : ℕ) → j < k + 1
      → now j < deadline
  early_next k early here j lt = elim (ℕ_discrete j k) [
    | yes e ↦ subst (λ (t : ℕ). now t < deadline) (sym e) here
    | no ne ↦ early j (omega arith)
  ]

  module _ (small : total < 2 ^ 64) (calm : (j i : ℕ) → read j i ≢ panic) (last : ℕ)
      (ends : deadline ≤ now last) where
    later : (k : ℕ) → k ≤ last → now k < deadline → k + 1 ≤ last
    later k le early = elim (ℕ_discrete k last) [
      | yes e ↦ absurd (omega (arith, subst (λ (t : ℕ). now t < deadline) e early))
      | no ne ↦ omega arith
    ]

    wait_loop-Answer :
        (fuel k : ℕ) (h : Held S)
        → last < fuel + k
        → k ≤ last
        → ((j : ℕ) → j < k → now j < deadline)
        → Inv read total k 0 h
        → Answer (wait_loop read now job_id total deadline fuel k h)
    unfolding wait_loop
    wait_loop-Answer zero k h enough le early inv = absurd (omega arith)
    wait_loop-Answer (suc fuel) k h enough le early inv =
        let (h', run, inv') = read_pass-Inv read total k total 0 h small calm (omega arith) inv in
        elim (Bool-cases (h'.remaining == 0)) [
          | inl done ↦
              let none_left : h'.remaining ≡ 0 = ground arith in
              rw (run, done, wait_loop) (inl (h'.stats, refl, all_read k h' inv' none_left))
          | inr more ↦
              let some_left : 0 < h'.remaining = ground arith in
              elim (Bool-cases (leb deadline (now k))) [
                | inl late ↦
                    rw (run, more, late, wait_loop)
                      (inr (
                        k,
                        refl,
                        (leb→le deadline (now k) late, early, not_read k h' inv' some_left),
                      ))
                | inr in_time ↦
                    let now_early : now k < deadline = ground arith in
                    let before = early_next k early now_early in
                    rw (run, more, in_time, wait_loop)
                      (wait_loop-Answer fuel (k + 1) h' (omega arith) (later k le now_early) before
                        (next_round-Inv read total k h' inv'))
              ]
        ]

    -- Where the clock reaches the deadline by round `last`, where fewer than 2^64 slices are awaited and
    -- where no read panics, `last + 1` rounds are enough, and they return all slices, each as one of the
    -- reads found it, or the timeout error: then the deadline has passed in the last round and not
    -- before it, and there is a slice that no round could read.
    pub wait_for_all_slices-Answer :
        (fuel : ℕ) (d : S)
        → last < fuel
        → Answer (wait_for_all_slices read now job_id total deadline fuel d)
    unfolding wait_for_all_slices
    wait_for_all_slices-Answer fuel d enough =
        wait_loop-Answer fuel 0 _ (omega arith) (omega arith) (λ j lt. absurd (omega arith))
          (none_held-Inv read d total)

    -- Where, moreover, every slice can be read in some round up to `k`, and the clock has not reached
    -- the deadline in any round before `k`, all slices are returned, not the timeout error.
    pub wait_for_all_slices_complete :
        (fuel : ℕ) (d : S) (k : ℕ)
        → last < fuel
        → ((j : ℕ) → j < k → now j < deadline)
        → ((i : ℕ) → i < total → (j : ℕ) × (s : S) × (j ≤ k) × (read j i ≡ ok (some s)))
        → (stats : List S) × (wait_for_all_slices read now job_id total deadline fuel d
            ≡ some (ok stats))
          × AllRead stats
    wait_for_all_slices_complete fuel d k enough early readable =
        elim (wait_for_all_slices-Answer fuel d enough) [
          | inl done ↦ done
          | inr (k', e, (late, early', (i, below, unread))) ↦
              let (j, s, le, q) = readable i below in
              absurd (unread j (ordered k k' early late j le) s q)
        ]
      where
        ordered :
            (k k' : ℕ)
            → ((j : ℕ) → j < k → now j < deadline)
            → deadline ≤ now k'
            → (j : ℕ) → j ≤ k
            → j ≤ k'
        ordered k k' early late j le = elim (Bool-cases (ltb k' k)) [
          | inl lt ↦ absurd (omega (arith, early k' (ground arith)))
          | inr ge ↦ ground arith
        ]
