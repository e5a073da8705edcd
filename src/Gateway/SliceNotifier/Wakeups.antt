-- ===== src/Gateway/SliceNotifier/Wakeups.antt =====
-- Which jobs a worker's message wakes.
use distributed_softmax.Prelude.{
  ◌+◌, ◌≡◌, ◌≢◌, refl, sym, ◌∙◌, Bool-cases, inl, inr, true, none, some, [], ◌∷◌,
}
use mathlib.Core.Option
use distributed_softmax.Text.{Bytes, beq, strip_prefix}
use distributed_softmax.Text.Separator.{beq_iff, beq_apart}
use distributed_softmax.Worker.Handler.Task.{pub_channel}
use distributed_softmax.Gateway.SliceNotifier.{
  Jobs, get_job, register_job, unregister_job, bump, on_message,
}

same_key : (a : Bytes) → beq a a ≡ true
same_key a = (beq_iff a a).1 refl

get_job-bump_self :
    (jobs : Jobs) (a : Bytes) → get_job (bump jobs a) a ≡ Option.map (λ n. n + 1) (get_job jobs a)
unfolding get_job bump
get_job-bump_self [] a = refl
get_job-bump_self ((j, n) ∷ jobs) a = elim (Bool-cases (beq j a)) [
  | inl e ↦ rw (e, e) refl
  | inr e ↦ rw (e, e) (get_job-bump_self jobs a)
]

get_job-bump_ne : (jobs : Jobs) (a b : Bytes) → a ≢ b → get_job (bump jobs a) b ≡ get_job jobs b
unfolding get_job bump
get_job-bump_ne [] a b ne = refl
get_job-bump_ne ((j, n) ∷ jobs) a b ne = elim (Bool-cases (beq j a)) [
  | inl e ↦ rw (e, beq_apart j b (λ p. ne (sym ((beq_iff j a).0 e) ∙ p))) refl
  | inr e ↦ rw (e, get_job-bump_ne jobs a b ne) refl
]

get_job-unregister_self : (jobs : Jobs) (a : Bytes) → get_job (unregister_job jobs a) a ≡ none
unfolding get_job unregister_job
get_job-unregister_self [] a = refl
get_job-unregister_self ((j, n) ∷ jobs) a = elim (Bool-cases (beq j a)) [
  | inl e ↦ rw e (get_job-unregister_self jobs a)
  | inr e ↦ rw (e, e) (get_job-unregister_self jobs a)
]

get_job-unregister_ne :
    (jobs : Jobs) (a b : Bytes) → a ≢ b → get_job (unregister_job jobs a) b ≡ get_job jobs b
unfolding get_job unregister_job
get_job-unregister_ne [] a b ne = refl
get_job-unregister_ne ((j, n) ∷ jobs) a b ne = elim (Bool-cases (beq j a)) [
  | inl e ↦
      rw (e, beq_apart j b (λ p. ne (sym ((beq_iff j a).0 e) ∙ p)))
        (get_job-unregister_ne jobs a b ne)
  | inr e ↦ rw (e, get_job-unregister_ne jobs a b ne) refl
]

on_message-pub_channel : (jobs : Jobs) (a : Bytes) → on_message jobs (pub_channel a) ≡ bump jobs a
unfolding on_message pub_channel strip_prefix
on_message-pub_channel jobs a = refl

-- A message on the channel that a worker publishes on for job `a` counts once for that job if it is
-- registered, and changes the count of no other job.
pub on_message_lem :
    (jobs : Jobs) (a : Bytes)
    → (get_job (on_message jobs (pub_channel a)) a ≡ Option.map (λ n. n + 1) (get_job jobs a))
      × ((b : Bytes) → a ≢ b → get_job (on_message jobs (pub_channel a)) b ≡ get_job jobs b)
on_message_lem jobs a =
    rw (on_message-pub_channel jobs a)
      (get_job-bump_self jobs a, λ b ne. get_job-bump_ne jobs a b ne)

-- A job that is registered starts at zero and a job that is unregistered is gone, whatever was there
-- under its id before; the other jobs keep their counts in both cases.
pub register_unregister_lem :
    (jobs : Jobs) (a : Bytes)
    → (get_job (register_job jobs a) a ≡ some 0)
      × (get_job (unregister_job jobs a) a ≡ none)
      × ((b : Bytes)
          → a ≢ b
          → (get_job (register_job jobs a) b ≡ get_job jobs b)
            × (get_job (unregister_job jobs a) b ≡ get_job jobs b))
unfolding register_job get_job
register_unregister_lem jobs a = (
  rw (same_key a) refl,
  get_job-unregister_self jobs a,
  λ b ne. (
    rw (beq_apart a b ne) (get_job-unregister_ne jobs a b ne),
    get_job-unregister_ne jobs a b ne,
  ),
)
