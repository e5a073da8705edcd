-- ===== src/Worker/Gpu/Rendezvous/Barrier.antt =====
-- What a rank knows whose rendezvous succeeds.
use distributed_softmax.Prelude.{
  ℕ, zero, suc, ◌+◌, ◌≤◌, ◌<◌, ◌≡◌, ◌≢◌, refl, ap, ◌∙◌, Option, none, some, ◌⊎◌, inl, inr, Outcome,
  ok, err, panic, arith, eq_or_ne, subst, ne→==_false, ==_of_eq,
}
use distributed_softmax.Text.{Bytes}
use distributed_softmax.Redis.{Redis}
use distributed_softmax.Worker.Gpu.Rendezvous.{
  nccl_uid_key, ready_key, wait_uid, count_ready, wait_ready,
}

abbrev pub done {ℓ} : {A : Type ℓ} → A → Outcome Bytes A
done a = ok a

pub ok_eq : (m n : ℕ) → done m ≡ done n → m ≡ n
ok_eq m n h = cc h

answer_cases :
    (r : Bytes ⊎ Option Bytes)
    → ((x : Bytes) × (r ≡ inl x)) ⊎ ((r ≡ inr none) ⊎ ((raw : Bytes) × (r ≡ inr (some raw))))
answer_cases (inl x) = inl (x, refl)
answer_cases (inr none) = inr (inl refl)
answer_cases (inr (some raw)) = inr (inr (raw, refl))

outcome_cases :
    (r : Outcome Bytes ℕ) → (((x : Bytes) × (r ≡ err x)) ⊎ (r ≡ panic)) ⊎ ((n : ℕ) × (r ≡ ok n))
outcome_cases (ok n) = inr (n, refl)
outcome_cases (err x) = inl (inl (x, refl))
outcome_cases panic = inl (inr refl)

module _ (R : Redis) where
  open R use {State}

  -- A rank other than 0 found the id at the first attempt that found any.
  abbrev pub FirstFound : (ℕ → State) → (from attempt : ℕ) → Bytes → Type 0
  FirstFound found from attempt id =
      (from ≤ attempt)
      × (attempt < 200)
      × (R.get (found attempt) nccl_uid_key ≡ inr (some id))
      × ((k : ℕ) → from ≤ k → k < attempt → R.get (found k) nccl_uid_key ≡ inr none)

  pub wait_uid_ok :
      (found : ℕ → State) (left attempt : ℕ) (id : Bytes)
      → attempt + left ≡ 200
      → wait_uid R found left attempt ≡ ok (some id)
      → (k : ℕ) × FirstFound found attempt k id
  unfolding wait_uid
  wait_uid_ok found zero attempt id e h = absurd (cc h)
  wait_uid_ok found (suc left) attempt id e h =
      elim (answer_cases (R.get (found attempt) nccl_uid_key)) [
        | inl (x, p) ↦ absurd (cc (rw (p, wait_uid) at h))
        | inr (inl p) ↦
            let (k, (after, below, here, before)) =
              wait_uid_ok found left (suc attempt) id (omega arith) (rw (p, wait_uid) at h) in
            (
              k,
              (
                omega arith,
                below,
                here,
                λ j low high. elim (eq_or_ne attempt j) [
                  | inl same ↦ subst (λ i. R.get (found i) nccl_uid_key ≡ inr none) same p
                  | inr other ↦ before j (omega arith) high
                ],
              ),
            )
        | inr (inr (raw, p)) ↦
            let same : done (some raw) ≡ done (some id) = rw (p, wait_uid) at h in
            (attempt, (omega arith, omega arith, cc (p, same), λ k low high. absurd (omega arith)))
      ]

  count_ready_le :
      (found : ℕ → State) (left r ready n : ℕ)
      → count_ready R found left r ready ≡ ok n
      → n ≤ ready + left
  unfolding count_ready
  count_ready_le found zero r ready n h = omega (arith, ok_eq ready n h)
  count_ready_le found (suc left) r ready n h =
      elim (answer_cases (R.get_string (found r) (ready_key r))) [
        | inl (x, p) ↦ absurd (cc (rw (p, count_ready) at h))
        | inr (inl p) ↦
            omega (arith, count_ready_le found left (suc r) ready n (rw (p, count_ready) at h))
        | inr (inr (flag, p)) ↦
            omega
              (arith, count_ready_le found left (suc r) (suc ready) n (rw (p, count_ready) at h))
      ]

  -- The mark of a rank is there.
  abbrev pub IsMarked : (ℕ → State) → ℕ → Type 0
  IsMarked found r = (flag : Bytes) × (R.get_string (found r) (ready_key r) ≡ inr (some flag))

  count_ready_all :
      (found : ℕ → State) (left r ready : ℕ)
      → count_ready R found left r ready ≡ ok (ready + left)
      → (i : ℕ) → r ≤ i
      → i < r + left
      → IsMarked found i
  unfolding count_ready
  count_ready_all found zero r ready h i low high = absurd (omega arith)
  count_ready_all found (suc left) r ready h i low high =
      elim (answer_cases (R.get_string (found r) (ready_key r))) [
        | inl (x, p) ↦ absurd (cc (rw (p, count_ready) at h))
        | inr (inl p) ↦ absurd (
            omega (
              arith,
              count_ready_le found left (suc r) ready (ready + suc left) (rw (p, count_ready) at h),
            ))
        | inr (inr (flag, p)) ↦ elim (eq_or_ne r i) [
          | inl same ↦ subst (IsMarked found) same (flag, p)
          | inr other ↦
              count_ready_all found left (suc r) (suc ready)
                (let rest : count_ready R found left (suc r) (suc ready) ≡ ok (ready + suc left) =
                    rw (p, count_ready) at h in
                  rest ∙ ap (λ k. ok k) (omega arith))
                i (omega arith) (omega arith)
        ]
      ]

  module _ (world_size rank : ℕ) where
    -- Some attempt found the marks of all ranks.
    abbrev pub AllMarked : (ℕ → ℕ → State) → Type 0
    AllMarked found =
        (attempt : ℕ) × (attempt < 200) × ((r : ℕ) → r < world_size → IsMarked (found attempt) r)

    -- An attempt that found too few marks is followed by another one, or fails.
    not_yet :
        (found : ℕ → ℕ → State) (left attempt n : ℕ)
        → count_ready R (found attempt) world_size 0 0 ≡ ok n
        → n ≢ world_size
        → wait_ready R world_size rank found (suc left) attempt ≡ ok tt
        → (attempt ≢ 199) × (wait_ready R world_size rank found left (suc attempt) ≡ ok tt)
    unfolding wait_ready
    not_yet found left attempt n p other h = elim (eq_or_ne attempt 199) [
      | inl last ↦
          absurd (
            cc (rw (p, ne→==_false n world_size other, ==_of_eq attempt 199 last, wait_ready) at h))
      | inr more ↦ (
        more,
        rw (p, ne→==_false n world_size other, ne→==_false attempt 199 more, wait_ready) at h,
      )
    ]

    pub wait_ready_ok :
        (found : ℕ → ℕ → State) (left attempt : ℕ)
        → attempt + left ≡ 200
        → 0 < left
        → wait_ready R world_size rank found left attempt ≡ ok tt
        → AllMarked found
    unfolding wait_ready
    wait_ready_ok found zero attempt e some_left h = elim some_left [ ]
    wait_ready_ok found (suc left) attempt e some_left h =
        elim (outcome_cases (count_ready R (found attempt) world_size 0 0)) [
          | inl (inl (x, p)) ↦ absurd (cc (rw (p, wait_ready) at h))
          | inl (inr p) ↦ absurd (cc (rw (p, wait_ready) at h))
          | inr (n, p) ↦ elim (eq_or_ne n world_size) [
            | inl same ↦ (
              attempt,
              omega arith,
              λ r below.
                  count_ready_all (found attempt) world_size 0 0 (p ∙ ap (λ k. ok k) (omega arith))
                    r (omega arith) (omega arith),
            )
            | inr other ↦
                let (more, rest) = not_yet found left attempt n p other h in
                wait_ready_ok found left (suc attempt) (omega arith) (omega arith) rest
          ]
        ]
