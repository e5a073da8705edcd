-- ===== src/Worker/Handler/Task/Panics.antt =====
-- When a task panics, and what it has left in Redis by then.
use distributed_softmax.Prelude.{
  ℕ, ◌≤◌, ◌<◌, ◌≡◌, ◌≢◌, ◌↔◌, refl, ap, ◌∙◌, Bool, true, false, Bool-cases, none, some, List, ◌⊎◌,
  inl, inr, length, get_elem?, get_elem?-lt, get_elem?_total, Option-cases, min, ==_of_eq, ltb,
  ◌++◌, Outcome, ok, err, panic, from_sum, arith, subst,
}
use distributed_softmax.Prelude.Effects.{Effect, ◌>>=◌, pure, call, bind_panic, pure_ok, pure_panic}
use distributed_softmax.Errors.{in_context, with_context, context_ok, sum_ok}
use distributed_softmax.Text.{Bytes, bytes, to_decimal}
use distributed_softmax.Floats.{Floats}
use distributed_softmax.Redis.{Redis, IsStore}
use distributed_softmax.Worker.Softmax.{PartialStats}
use distributed_softmax.Worker.Handler.Encode.{encode_partial}
use distributed_softmax.Worker.Handler.Task.{
  TaskMessage, worker_key, pub_channel, is_char_boundary, logged_id, write_result, check_task,
  handle_task,
}
use distributed_softmax.Worker.Handler.Task.Writes.{Written, write_result_ok, check_task-ne-panic}

-- The byte at index 8 continues a character of UTF-8.
abbrev pub CutsCharacter : Bytes → Type 0
CutsCharacter job_id = (b : ℕ) × (get_elem? job_id 8 ≡ some b) × (128 ≤ b) × (b < 192)

get_elem?-none {ℓ} : {A : Type ℓ} (xs : List A) (i : ℕ) → get_elem? xs i ≡ none → length xs ≤ i
get_elem?-none xs i e = elim (Bool-cases (ltb i (length xs))) [
  | inl below ↦ let (a, there) = get_elem?_total xs i (ground arith) in absurd (cc (e, there))
  | inr beyond ↦ ground arith
]

inside_character :
    (job_id : Bytes)
    → is_char_boundary job_id (min (length job_id) 8) ≡ false
    → CutsCharacter job_id
unfolding is_char_boundary
inside_character job_id h = elim (Option-cases (get_elem? job_id (min (length job_id) 8))) [
  | inl e ↦
      let at_end = rw (e, is_char_boundary) at h in
      let beyond = get_elem?-none job_id (min (length job_id) 8) e in
      absurd (cc (at_end, ==_of_eq (min (length job_id) 8) (length job_id) (omega (arith, beyond))))
  | inr (b, e) ↦
      let byte = rw (e, is_char_boundary) at h in
      let below = get_elem?-lt job_id (min (length job_id) 8) b e in
      let eight : min (length job_id) 8 ≡ 8 = omega (arith, below) in
      (b, subst (λ i. get_elem? job_id i ≡ some b) eight e, ground arith, ground arith)
]

cut_inside :
    (job_id : Bytes)
    → CutsCharacter job_id
    → is_char_boundary job_id (min (length job_id) 8) ≡ false
unfolding is_char_boundary
cut_inside job_id (b, there, low, high) =
    let below = get_elem?-lt job_id 8 b there in
    let eight : 8 ≡ min (length job_id) 8 = omega (arith, below) in
    rw (subst (λ i. get_elem? job_id i ≡ some b) eight there, is_char_boundary) (ground arith)

logged_id-panic :
    (info_enabled : Bool) (job_id : Bytes)
    → (logged_id info_enabled job_id ≡ panic) ↔ ((info_enabled ≡ true) × CutsCharacter job_id)
unfolding logged_id
logged_id-panic false job_id = ((λ h. absurd (cc h)), λ (on, cut). absurd (cc on))
logged_id-panic true job_id = (stops, λ (on, cut). rw (cut_inside job_id cut, logged_id) refl)
  where
    stops : logged_id true job_id ≡ panic → (true ≡ true) × CutsCharacter job_id
    stops h = elim (Bool-cases (is_char_boundary job_id (min (length job_id) 8))) [
      | inl whole ↦ absurd (cc (rw (whole, logged_id) at h))
      | inr inside ↦ (refl, inside_character job_id inside)
    ]

-- A call of Redis does not panic, whatever text its error is shown with.
call_calm :
    {S A : Type 0} (text : Bytes) (f : S → (Bytes ⊎ A) × S) (s t : S)
    → in_context text (call f) s ≢ (panic, t)
call_calm {S} {A} text f s t = answered (f s)
  where
    answered :
        (r : (Bytes ⊎ A) × S)
        → ¬ (◌≡◌ {A = Outcome Bytes A × S} (with_context text (from_sum r.0), r.1) (panic, t))
    answered (inl e, u) h = absurd (cc (ap (λ (p : Outcome Bytes A × S). p.0) h))
    answered (inr a, u) h = absurd (cc (ap (λ (p : Outcome Bytes A × S). p.0) h))

parse_calm :
    {A : Type 0} (text : Bytes) (r : Bytes ⊎ A)
    → ¬ (◌≡◌ {A = Outcome Bytes A} (with_context text (from_sum r)) panic)
parse_calm text (inl e) h = absurd (cc h)
parse_calm text (inr a) h = absurd (cc h)

from_to :
    {S : Type 0} (m : Effect S Bytes (Unit {0})) (s s0 s1 s2 s3 s' : S)
    → s ≡ s0
    → s0 ≡ s1
    → s1 ≡ s2
    → m s2 ≡ (ok tt, s3)
    → s3 ≡ s'
    → m s ≡ (ok tt, s')
from_to {S} m s s0 s1 s2 s3 s' e0 e1 e2 done e3 =
    ap m (e0 ∙ e1 ∙ e2) ∙ done ∙ ap (λ (t : S). (ok tt, t)) e3

after_log :
    {S A : Type 0} (r : Outcome Bytes A) (s s' : S)
    → ◌≡◌ {A = Outcome Bytes (Unit {0}) × S} ((pure r >>= λ shown. pure (ok tt)) s) (panic, s')
    → (r ≡ panic) × (s ≡ s')
after_log {S} (ok a) s s' h = absurd (cc (ap (λ (p : Outcome Bytes (Unit {0}) × S). p.0) h))
after_log {S} (err e) s s' h = absurd (cc (ap (λ (p : Outcome Bytes (Unit {0}) × S). p.0) h))
after_log {S} panic s s' h = (refl, ap (λ (p : Outcome Bytes (Unit {0}) × S). p.1) h)

module _ (F : Floats) (R : Redis) (store : IsStore R) where
  open R use {State}

  write_result-ne-panic :
      (job_id : Bytes) (slice_id : ℕ) (payload : Bytes) (s t : State)
      → write_result F R job_id slice_id payload s ≢ (panic, t)
  unfolding write_result
  write_result-ne-panic job_id slice_id payload s t h =
      let (u, s1, stored, told) =
        bind_panic
          (in_context (bytes "Redis SET " ++ worker_key job_id slice_id)
            (call (R.set (worker_key job_id slice_id) payload)))
          (λ u.
            in_context (bytes "Redis PUBLISH " ++ pub_channel job_id)
              (call (R.publish (pub_channel job_id) (to_decimal slice_id))))
          s t h
          (λ t.
            call_calm (bytes "Redis SET " ++ worker_key job_id slice_id)
              (R.set (worker_key job_id slice_id) payload) s t) in
      call_calm (bytes "Redis PUBLISH " ++ pub_channel job_id)
        (R.publish (pub_channel job_id) (to_decimal slice_id)) s1 t told

  module _ (info_enabled : Bool) (parse : Bytes → Bytes ⊎ TaskMessage F.F64)
      (compute : List F.F64 → Outcome Bytes (PartialStats F)) where
    -- The task was a message that passes the checks, its slice has been computed and written, the level
    -- info is logged, and the first eight bytes of the job's id end inside a character.
    abbrev pub PanicsLate : Bytes → State → State → Type 0
    PanicsLate raw s s' =
        (msg : TaskMessage F.F64) × (stats : PartialStats F) × (parse raw ≡ inr msg)
        × (check_task F msg ≡ ok tt)
        × (compute msg.«data» ≡ ok stats)
        × (write_result F R msg.job_id msg.slice_id (encode_partial F stats) s ≡ (ok tt, s'))
        × Written F R store msg.job_id msg.slice_id (encode_partial F stats) s s'
        × (info_enabled ≡ true)
        × CutsCharacter msg.job_id

    abbrev logs : TaskMessage F.F64 → Effect State Bytes (Unit {0})
    logs msg = pure (logged_id info_enabled msg.job_id) >>= λ shown. pure (ok tt)

    abbrev writes : TaskMessage F.F64 → PartialStats F → Effect State Bytes (Unit {0})
    writes msg stats =
        write_result F R msg.job_id msg.slice_id (encode_partial F stats) >>= λ written. logs msg

    abbrev computes : TaskMessage F.F64 → Effect State Bytes (Unit {0})
    computes msg = pure (compute msg.«data») >>= writes msg

    panics_late :
        ((xs : List F.F64) → compute xs ≢ panic)
        → (raw : Bytes) (s s' : State)
        → handle_task F R info_enabled parse compute raw s ≡ (panic, s')
        → PanicsLate raw s s'
    unfolding handle_task
    panics_late calm raw s s' h =
        let text = bytes "deserialize task message" in
        let (msg, t0, read, h0) =
          bind_panic (pure (with_context text (from_sum (parse raw))))
            (λ msg. pure (check_task F msg) >>= λ c. computes msg) s s' h
            (λ t e. parse_calm text (parse raw) (pure_panic _ s t e).0) in
        let (parsed, same0) = pure_ok (with_context text (from_sum (parse raw))) s t0 msg read in
        let (c, t1, passed, h1) =
          bind_panic (pure (check_task F msg)) (λ c. computes msg) t0 s' h0
            (λ t e. check_task-ne-panic F msg (pure_panic _ t0 t e).0) in
        let (checked, same1) = pure_ok (check_task F msg) t0 t1 c passed in
        let (stats, t2, made, h2) =
          bind_panic (pure (compute msg.«data»)) (writes msg) t1 s' h1
            (λ t e. calm msg.«data» (pure_panic _ t1 t e).0) in
        let (computed, same2) = pure_ok (compute msg.«data») t1 t2 stats made in
        let payload = encode_partial F stats in
        let (w, t3, written, h3) =
          bind_panic (write_result F R msg.job_id msg.slice_id payload) (λ w. logs msg) t2 s' h2
            (write_result-ne-panic msg.job_id msg.slice_id payload t2) in
        let (stopped, same3) = after_log (logged_id info_enabled msg.job_id) t3 s' h3 in
        let done : write_result F R msg.job_id msg.slice_id payload s ≡ (ok tt, s') =
          from_to (write_result F R msg.job_id msg.slice_id payload) s t0 t1 t2 t3 s' same0 same1
            same2 written same3 in
        let (on, cut) = (logged_id-panic info_enabled msg.job_id).0 stopped in
        (
          msg,
          stats,
          sum_ok (parse raw) msg (context_ok text (from_sum (parse raw)) msg parsed),
          checked,
          computed,
          done,
          write_result_ok F R store msg.job_id msg.slice_id payload s s' done,
          on,
          cut,
        )

    late_panics :
        (raw : Bytes) (s s' : State)
        → PanicsLate raw s s'
        → handle_task F R info_enabled parse compute raw s ≡ (panic, s')
    unfolding handle_task
    late_panics raw s s' (msg, stats, parsed, checked, computed, done, written, on, cut) =
        let stopped = (logged_id-panic info_enabled msg.job_id).1 (on, cut) in
        rw (parsed, checked, computed, done, stopped) refl

    -- Where the computing does not panic, a task panics just when it was a message that passes the checks,
    -- its partial softmax has been computed and written, the level info is logged, and the byte at index
    -- 8 of the job's id continues a character of UTF-8. The slice is then under its key, and nothing else
    -- in Redis has changed: no panic loses a slice.
    pub handle_task-panic :
        ((xs : List F.F64) → compute xs ≢ panic)
        → (raw : Bytes) (s s' : State)
        → (handle_task F R info_enabled parse compute raw s ≡ (panic, s')) ↔ PanicsLate raw s s'
    handle_task-panic calm raw s s' = (panics_late calm raw s s', late_panics raw s s')
