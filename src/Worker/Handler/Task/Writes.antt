-- ===== src/Worker/Handler/Task/Writes.antt =====
-- What a task that is done has left in Redis.
use distributed_softmax.Prelude.{
  Bool, ℕ, ◌≡◌, ◌≢◌, refl, ap, ◌∙◌, some, List, ◌⊎◌, inl, inr, ◌++◌, Outcome, ok, err, panic, arith,
}
use distributed_softmax.Prelude.Effects.{Effect, ◌>>=◌, pure, call, call_ok, bind_ok, pure_ok}
use distributed_softmax.Errors.{in_context}
use distributed_softmax.Text.{Bytes, bytes, to_decimal}
use distributed_softmax.Text.Separator.{beq_iff, beq_apart}
use distributed_softmax.Floats.{Floats}
use distributed_softmax.Redis.{Redis, IsStore}
use distributed_softmax.Worker.Softmax.{PartialStats}
use distributed_softmax.Worker.Handler.Encode.{encode_partial}
use distributed_softmax.Worker.Handler.Task.{
  TaskMessage, worker_key, pub_channel, logged_id, write_result, check_task, handle_task,
}

module _ {S : Type 0} {A : Type 0} where
  with_context_ok :
      (text : Bytes) (p : Outcome Bytes A × S) (a : A) (s' : S)
      → in_context text (λ s. p) s' ≡ (ok a, s')
      → p ≡ (ok a, s')
  with_context_ok text (ok b, t) a s' h = h
  with_context_ok text (err e, t) a s' h = absurd (cc (ap (λ (p : Outcome Bytes A × S). p.0) h))
  with_context_ok text (panic, t) a s' h = absurd (cc (ap (λ (p : Outcome Bytes A × S). p.0) h))

  pub in_context_ok :
      (text : Bytes) (m : Effect S Bytes A) (a : A) (s s' : S)
      → in_context text m s ≡ (ok a, s')
      → m s ≡ (ok a, s')
  in_context_ok text m a s s' h = with_context_ok text (m s) a s' h

pub check_task-ne-panic : (F : Floats) (msg : TaskMessage F.F64) → check_task F msg ≢ panic
unfolding check_task
check_task-ne-panic F msg = ground arith

module _ (F : Floats) (R : Redis) (store : IsStore R) where
  open R use {State}

  abbrev pub Written : Bytes → ℕ → Bytes → State → State → Type 0
  Written job_id slice_id payload s s' =
      (R.get s' (worker_key job_id slice_id) ≡ inr (some payload))
      × ((j : Bytes) → j ≢ worker_key job_id slice_id → R.get s' j ≡ R.get s j)

  module _ (job_id : Bytes) (slice_id : ℕ) (payload : Bytes) (s s' : State)
      (done : write_result F R job_id slice_id payload s ≡ (ok tt, s')) where
    pub write_result_ok : Written job_id slice_id payload s s'
    unfolding write_result
    write_result_ok =
        let (u, t, stored, told) =
          bind_ok
            (in_context (bytes "Redis SET " ++ worker_key job_id slice_id)
              (call (R.set (worker_key job_id slice_id) payload)))
            (λ u.
              in_context (bytes "Redis PUBLISH " ++ pub_channel job_id)
                (call (R.publish (pub_channel job_id) (to_decimal slice_id))))
            s s' tt done in
        let set_done : R.set (worker_key job_id slice_id) payload s ≡ (inr tt, t) =
          call_ok (R.set (worker_key job_id slice_id) payload) s t tt
            (in_context_ok _ (call (R.set (worker_key job_id slice_id) payload)) tt s t stored) in
        let publish_done : R.publish (pub_channel job_id) (to_decimal slice_id) t ≡ (inr tt, s') =
          call_ok (R.publish (pub_channel job_id) (to_decimal slice_id)) t s' tt (
            in_context_ok _ (call (R.publish (pub_channel job_id) (to_decimal slice_id))) tt t s'
              told) in
        (
          store.get-publish t s' _ _ _ publish_done
              ∙ rw
                  (
                    store.get-set s t _ payload (worker_key job_id slice_id) set_done,
                    (beq_iff (worker_key job_id slice_id) (worker_key job_id slice_id)).1 refl,
                  )
                  refl,
          λ j ne.
              store.get-publish t s' _ _ _ publish_done
              ∙ rw
                  (
                    store.get-set s t _ payload j set_done,
                    beq_apart j (worker_key job_id slice_id) ne,
                  )
                  refl,
        )

  module _ (info_enabled : Bool) (parse : Bytes → Bytes ⊎ TaskMessage F.F64)
      (compute : List F.F64 → Outcome Bytes (PartialStats F)) where
    abbrev after_write : TaskMessage F.F64 → Effect State Bytes (Unit {0})
    after_write msg = pure (logged_id info_enabled msg.job_id) >>= λ shown. pure (ok tt)

    abbrev after_stats : TaskMessage F.F64 → PartialStats F → Effect State Bytes (Unit {0})
    after_stats msg stats =
        write_result F R msg.job_id msg.slice_id (encode_partial F stats) >>= λ written.
        after_write msg

    abbrev after_check : TaskMessage F.F64 → Effect State Bytes (Unit {0})
    after_check msg = pure (compute msg.«data») >>= after_stats msg

    after_write_ok :
        (msg : TaskMessage F.F64) (s s' : State) → after_write msg s ≡ (ok tt, s') → s ≡ s'
    after_write_ok msg s s' h =
        let (u, t, shown, rest) =
          bind_ok (pure (logged_id info_enabled msg.job_id)) (λ shown. pure (ok tt)) s s' tt h in
        (pure_ok (logged_id info_enabled msg.job_id) s t u shown).1
        ∙ (pure_ok (ok tt) t s' tt rest).1

    written_lem :
        (msg : TaskMessage F.F64) (stats : PartialStats F) (s t s' : State)
        → s ≡ t
        → write_result F R msg.job_id msg.slice_id (encode_partial F stats) t ≡ (ok tt, s')
        → Written msg.job_id msg.slice_id (encode_partial F stats) s s'
    written_lem msg stats s t s' start done =
        write_result_ok msg.job_id msg.slice_id (encode_partial F stats) s s'
          (ap (write_result F R msg.job_id msg.slice_id (encode_partial F stats)) start ∙ done)

    pub handle_task_lem :
        (raw : Bytes) (msg : TaskMessage F.F64) (s s' : State)
        → parse raw ≡ inr msg
        → handle_task F R info_enabled parse compute raw s ≡ (ok tt, s')
        → (check_task F msg ≡ ok tt)
          × ((stats : PartialStats F) × (compute msg.«data» ≡ ok stats)
              × Written msg.job_id msg.slice_id (encode_partial F stats) s s')
    unfolding handle_task
    handle_task_lem raw msg s s' parsed done =
        let done' = rw parsed at done in
        let (c, t, checked, rest) =
          bind_ok (pure (check_task F msg)) (λ c. after_check msg) s s' tt done' in
        let (stats, t', computed, rest') =
          bind_ok (pure (compute msg.«data»)) (after_stats msg) t s' tt rest in
        let (w, t'', written, rest'') =
          bind_ok (write_result F R msg.job_id msg.slice_id (encode_partial F stats))
            (λ w. after_write msg) t' s' tt rest' in
        let start : s ≡ t' =
          (pure_ok (check_task F msg) s t c checked).1
          ∙ (pure_ok (compute msg.«data») t t' stats computed).1 in
        (
          (pure_ok (check_task F msg) s t c checked).0,
          (
            stats,
            (pure_ok (compute msg.«data») t t' stats computed).0,
            written_lem msg stats s t' s' start
                (written ∙ ap (λ (x : State). (ok w, x)) (after_write_ok msg t'' s' rest'')),
          ),
        )

    -- What is no message, or fails a check, is answered by an error, and Redis is left as it was.
    handle_task_refused :
        (raw : Bytes) (s : State)
        → ((msg : TaskMessage F.F64) → parse raw ≡ inr msg → check_task F msg ≢ ok tt)
        → (e : Bytes) × (handle_task F R info_enabled parse compute raw s ≡ (err e, s))
    unfolding handle_task
    handle_task_refused raw s bad = refused (parse raw) refl
      where
        refused_check :
            (msg : TaskMessage F.F64) (c : Outcome Bytes (Unit {0}))
            → parse raw ≡ inr msg
            → check_task F msg ≡ c
            → (e : Bytes) × (handle_task F R info_enabled parse compute raw s ≡ (err e, s))
        refused_check msg (ok tt) parsed checked = absurd (bad msg parsed checked)
        refused_check msg (err e) parsed checked = (e, rw (parsed, checked) refl)
        refused_check msg panic parsed checked = absurd (check_task-ne-panic F msg checked)

        refused :
            (r : Bytes ⊎ TaskMessage F.F64)
            → parse raw ≡ r
            → (e : Bytes) × (handle_task F R info_enabled parse compute raw s ≡ (err e, s))
        refused (inl e) parsed = (bytes "deserialize task message", rw parsed refl)
        refused (inr msg) parsed = refused_check msg (check_task F msg) parsed refl
