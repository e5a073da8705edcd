-- ===== src/Gateway/SliceNotifier/Subscriber/Counts.antt =====
-- The notifier's map of jobs is one counter for each job.
use distributed_softmax.Prelude.{
  ◌+◌, ◌≡◌, ◌≢◌, refl, sym, ap, ◌∙◌, Bool, true, false, ◌&&◌, inl, inr, Bool-cases, Option,
  Option-cases, none, some, List, [], ◌∷◌, ℕ, if◌then◌else◌, subst,
}
use mathlib.Core.Option
use distributed_softmax.Text.{Bytes, bytes, beq, strip_prefix}
use distributed_softmax.Text.Separator.{
  beq_iff, beq_apart, append_cancel, strip_prefix-append, strip_prefix_sound,
}
use distributed_softmax.Worker.Handler.Task.{pub_channel}
use distributed_softmax.Gateway.SliceNotifier.{
  Jobs, get_job, register_job, unregister_job, on_message,
}
use distributed_softmax.Gateway.SliceNotifier.Wakeups.{on_message_lem, register_unregister_lem}
use distributed_softmax.Gateway.SliceNotifier.Subscriber.{
  Event, connect_fails, subscribe_fails, subscribes, published, stream_ends, registers, unregisters,
  on_event, subscriber_loop,
}

-- The counter of one job, on its own: whether the loop is subscribed, and the count, if the job waits.
abbrev pub counter : (job_id : Bytes) → List Event → Bool → Option ℕ → Option ℕ
counter j [] subscribed n = n
counter j (connect_fails ∷ es) subscribed n = counter j es false n
counter j (subscribe_fails ∷ es) subscribed n = counter j es false n
counter j (subscribes ∷ es) subscribed n = counter j es true n
counter j (published channel ∷ es) subscribed n =
    counter j es subscribed
      (if subscribed && beq channel (pub_channel j) then Option.map (λ k. k + 1) n else n)
counter j (stream_ends ∷ es) subscribed n = counter j es false n
counter j (registers i ∷ es) subscribed n = counter j es subscribed (if beq i j then some 0 else n)
counter j (unregisters i ∷ es) subscribed n = counter j es subscribed (if beq i j then none else n)

same_job : (a : Bytes) → beq a a ≡ true
same_job a = (beq_iff a a).1 refl

get_job-on_message :
    (jobs : Jobs) (channel j : Bytes)
    → get_job (on_message jobs channel) j ≡ (
        if beq channel (pub_channel j)
        then Option.map (λ k. k + 1) (get_job jobs j)
        else get_job jobs j)
unfolding on_message pub_channel
get_job-on_message jobs channel j =
    elim (Option-cases (strip_prefix (bytes "slice_done:") channel)) [
      | inl p ↦
          rw
            (
              p,
              beq_apart channel (pub_channel j) (λ e. cc (
                p,
                ap (strip_prefix (bytes "slice_done:")) e,
                strip_prefix-append (bytes "slice_done:") j,
              )),
              on_message,
            )
            refl
      | inr (i, p) ↦
          let names : channel ≡ pub_channel i =
            strip_prefix_sound (bytes "slice_done:") channel i p in
          rw names (own_or_other i)
    ]
  where
    own_or_other :
        (i : Bytes)
        → get_job (on_message jobs (pub_channel i)) j ≡ (
            if beq (pub_channel i) (pub_channel j)
            then Option.map (λ k. k + 1) (get_job jobs j)
            else get_job jobs j)
    own_or_other i = elim (Bool-cases (beq i j)) [
      | inl same ↦
          subst
            (λ t. get_job (on_message jobs (pub_channel t)) j ≡ (
              if beq (pub_channel t) (pub_channel j)
              then Option.map (λ k. k + 1) (get_job jobs j)
              else get_job jobs j))
            (sym ((beq_iff i j).0 same)) (rw (same_job (pub_channel j)) (on_message_lem jobs j).0)
      | inr other ↦
          let apart : i ≢ j = λ e. cc (other, same_job j, ap (λ (t : Bytes). beq t j) e) in
          rw
            (beq_apart (pub_channel i) (pub_channel j)
              (λ e. apart (append_cancel (bytes "slice_done:") i j e)))
            ((on_message_lem jobs i).1 j apart)
    ]

get_job-register :
    (jobs : Jobs) (i j : Bytes)
    → get_job (register_job jobs i) j ≡ (if beq i j then some 0 else get_job jobs j)
get_job-register jobs i j = elim (Bool-cases (beq i j)) [
  | inl same ↦ rw same (
      subst (λ t. get_job (register_job jobs t) j ≡ some 0) (sym ((beq_iff i j).0 same))
        (register_unregister_lem jobs j).0)
  | inr other ↦ rw other (
      ((register_unregister_lem jobs i).2 j
        (λ e. cc (other, same_job j, ap (λ (t : Bytes). beq t j) e))).0)
]

get_job-unregister :
    (jobs : Jobs) (i j : Bytes)
    → get_job (unregister_job jobs i) j ≡ (if beq i j then none else get_job jobs j)
get_job-unregister jobs i j = elim (Bool-cases (beq i j)) [
  | inl same ↦ rw same (
      subst (λ t. get_job (unregister_job jobs t) j ≡ none) (sym ((beq_iff i j).0 same))
        (register_unregister_lem jobs j).1)
  | inr other ↦ rw other (
      ((register_unregister_lem jobs i).2 j
        (λ e. cc (other, same_job j, ap (λ (t : Bytes). beq t j) e))).1)
]

-- Whatever happens, in whatever order, the count of each job is that of a counter of its own: registering
-- sets it to zero, unregistering ends it, and a message on the channel that a worker publishes on for the
-- job adds one to it while the loop is subscribed. What is published while it is not is lost.
pub subscriber_loop-counter :
    (events : List Event) (subscribed : Bool) (jobs : Jobs) (j : Bytes)
    → get_job (subscriber_loop events (subscribed, jobs)).1 j
      ≡ counter j events subscribed (get_job jobs j)
unfolding subscriber_loop on_event
subscriber_loop-counter [] subscribed jobs j = refl
subscriber_loop-counter (connect_fails ∷ es) subscribed jobs j =
    subscriber_loop-counter es false jobs j
subscriber_loop-counter (subscribe_fails ∷ es) subscribed jobs j =
    subscriber_loop-counter es false jobs j
subscriber_loop-counter (subscribes ∷ es) subscribed jobs j = subscriber_loop-counter es true jobs j
subscriber_loop-counter (published channel ∷ es) false jobs j =
    subscriber_loop-counter es false jobs j
subscriber_loop-counter (published channel ∷ es) true jobs j =
    subscriber_loop-counter es true (on_message jobs channel) j
    ∙ ap (counter j es true) (get_job-on_message jobs channel j)
subscriber_loop-counter (stream_ends ∷ es) subscribed jobs j =
    subscriber_loop-counter es false jobs j
subscriber_loop-counter (registers i ∷ es) subscribed jobs j =
    subscriber_loop-counter es subscribed (register_job jobs i) j
    ∙ ap (counter j es subscribed) (get_job-register jobs i j)
subscriber_loop-counter (unregisters i ∷ es) subscribed jobs j =
    subscriber_loop-counter es subscribed (unregister_job jobs i) j
    ∙ ap (counter j es subscribed) (get_job-unregister jobs i j)
