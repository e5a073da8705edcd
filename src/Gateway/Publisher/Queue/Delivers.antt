-- ===== src/Gateway/Publisher/Queue/Delivers.antt =====
-- The channels of both publishers and their threads, against a channel that only collects.
use distributed_softmax.Prelude.{
  ℕ, ◌≤◌, ◌≡◌, refl, sym, ap, ◌∙◌, Bool, true, false, not, ◌&&◌, leb, ltb, Bool-cases, ◌⊎◌, inl,
  inr, Option, none, some, List, [], ◌∷◌, ◌++◌, map, length, append_assoc, append-nil, arith,
}
use distributed_softmax.Text.{Bytes, bytes, to_decimal}
use distributed_softmax.Gateway.Publisher.{Channel, single_publish}
use distributed_softmax.Gateway.Publisher.Queue.{
  Push, single_push, rank_push, Pipe, pipe, Action, answers, opened, send, run_push,
}
use distributed_softmax.Gateway.Publisher.Queue.Fifo.{
  payloads_of, errors_of, survives, pending, runs, left_after, InOrder, run_push-Ordered,
  runs-run_push, pending-run_push,
}

-- `publish` with one payload after the other, into any channel: the last answer, and the channel.
abbrev pub publish_all : List Bytes → Channel → (Bytes ⊎ Unit {0}) × Channel
publish_all [] c = (inr tt, c)
publish_all (payload ∷ payloads) c = publish_all payloads (single_publish [] payload c).1

publish_all-append :
    (payloads sent : List Bytes)
    → publish_all payloads (some sent) ≡ (inr tt, some (sent ++ payloads))
unfolding single_publish
publish_all-append [] sent = ap (λ (t : List Bytes). (inr tt, some t)) (sym (append-nil sent))
publish_all-append (payload ∷ payloads) sent =
    publish_all-append payloads (sent ++ (payload ∷ []))
    ∙ ap (λ (t : List Bytes). (inr tt, some t)) (append_assoc sent (payload ∷ []) payloads)

-- A channel that only collects holds, after the accepted payloads were published into it, those that
-- the socket was given and then those that wait, which are no more than there is room for; what is
-- logged is the socket's errors.
abbrev pub Keeps : ℕ → Bytes → List Bytes × Pipe → Type 0
Keeps capacity text (accepted, pipe channel handled logged running) =
    (publish_all accepted (some []) ≡ (inr tt, some (payloads_of handled ++ channel)))
    × (length channel ≤ capacity)
    × (logged ≡ errors_of text handled)

-- Whether `publish` returns an error, and whether its caller waits.
abbrev pub is_refused : Option ((Bytes ⊎ Unit {0}) × Pipe) → Bool
is_refused none = false
is_refused (some (inl e, q)) = true
is_refused (some (inr u, q)) = false

abbrev pub is_waiting : Option ((Bytes ⊎ Unit {0}) × Pipe) → Bool
is_waiting none = true
is_waiting (some answer) = false

-- Moreover the thread runs unless it has died, and while it runs each further answer of the socket takes
-- one more payload out of the channel. A further `publish` is refused just when the thread has died, and
-- waits just while the channel of a running thread is full.
abbrev pub Delivers :
    Push → ℕ → Bytes → List Action → List (Bytes ⊎ Unit {0}) → (payload : Bytes) → Type 0
Delivers push capacity text actions replies payload =
    Keeps capacity text (run_push push actions opened)
    × (runs (run_push push actions opened) ≡ survives actions true)
    × (pending (run_push push (map answers replies) (run_push push actions opened))
        ≡ left_after (survives actions true) (pending (run_push push actions opened))
            (length replies))
    × (is_refused (send push payload (run_push push actions opened).1)
        ≡ not (survives actions true))
    × (is_waiting (send push payload (run_push push actions opened).1)
        ≡ (survives actions true && leb capacity (pending (run_push push actions opened))))

is_refused-send :
    (push : Push) (payload : Bytes) (accepted : List Bytes) (q : Pipe)
    → is_refused (send push payload q) ≡ not (runs (accepted, q))
unfolding send
is_refused-send push payload accepted (pipe channel handled logged false) = refl
is_refused-send push payload accepted (pipe channel handled logged true) =
    elim (Bool-cases (ltb (length channel) push.capacity)) [
      | inl room ↦ rw (room, send) refl
      | inr full ↦ rw (full, send) refl
    ]

is_waiting-send :
    (push : Push) (payload : Bytes) (accepted : List Bytes) (q : Pipe)
    → is_waiting (send push payload q)
      ≡ (runs (accepted, q) && leb push.capacity (pending (accepted, q)))
unfolding send
is_waiting-send push payload accepted (pipe channel handled logged false) = refl
is_waiting-send push payload accepted (pipe channel handled logged true) =
    elim (Bool-cases (ltb (length channel) push.capacity)) [
      | inl room ↦ rw (room, send) (ground arith)
      | inr full ↦ rw (full, send) (ground arith)
    ]

InOrder-Keeps :
    (capacity : ℕ) (text : Bytes) (accepted : List Bytes) (q : Pipe)
    → InOrder capacity text (accepted, q)
    → Keeps capacity text (accepted, q)
InOrder-Keeps capacity text accepted (pipe channel handled logged running) (order, bound, errors) =
    (
      publish_all-append accepted [] ∙ ap (λ (t : List Bytes). (inr tt, some t)) (sym order),
      bound,
      errors,
    )

drains :
    (push : Push) (replies : List (Bytes ⊎ Unit {0})) (accepted : List Bytes) (q : Pipe)
    → pending (run_push push (map answers replies) (accepted, q))
      ≡ left_after (runs (accepted, q)) (pending (accepted, q)) (length replies)
drains push replies accepted (pipe channel handled logged running) =
    pending-run_push push replies accepted channel handled logged running

delivers :
    (push : Push) (actions : List Action) (replies : List (Bytes ⊎ Unit {0})) (payload : Bytes)
    → Delivers push push.capacity push.error_text actions replies payload
delivers push actions replies payload =
    let state = run_push push actions opened in
    let alive = runs-run_push push actions [] (pipe [] [] [] true) in
    (
      InOrder-Keeps push.capacity push.error_text state.0 state.1
          (run_push-Ordered push actions [] (pipe [] [] [] true) (refl, omega arith, refl)),
      alive,
      drains push replies state.0 state.1
          ∙ ap (λ b. left_after b (pending state) (length replies)) alive,
      is_refused-send push payload state.0 state.1 ∙ ap not alive,
      is_waiting-send push payload state.0 state.1
          ∙ ap (λ b. b && leb push.capacity (pending state)) alive,
    )

-- Whatever the callers do and the socket answers, in whatever order, with both publishers: the payloads
-- for which `publish` returned Ok are, in their order, those that the thread has given to its socket and
-- then those in the channel, at most 50,000 for the single socket and 100,000 for a rank, as in a
-- channel that only collects; each error of the socket is logged, and none ends the thread, which runs
-- unless it has died by itself; and while it runs, each further answer of the socket takes one more
-- payload out of the channel, until that is empty. A further publish returns an error just when the
-- thread has died, and waits just while the channel of a running thread is full.
pub run_push-Delivers :
    (actions : List Action) (replies : List (Bytes ⊎ Unit {0})) (payload : Bytes) (rank : ℕ)
    → Delivers single_push 50000 (bytes "ZMQ send error: ") actions replies payload
      × Delivers
          (rank_push rank)
          100000
          (bytes "ZMQ rank " ++ (to_decimal rank ++ bytes " send error: "))
          actions
          replies
          payload
run_push-Delivers actions replies payload rank = (
  delivers single_push actions replies payload,
  delivers (rank_push rank) actions replies payload,
)
