-- ===== src/Gateway/Publisher/Queue/Fifo.antt =====
-- What becomes of the payloads that are published: their order, the bound of the channel, and that an
-- error of the socket ends nothing.
use distributed_softmax.Prelude.{
  ℕ, ◌≤◌, ◌≡◌, refl, sym, ap, ◌∙◌, Bool, true, false, Bool-cases, ◌⊎◌, inl, inr, List, [], ◌∷◌,
  ◌++◌, ◌-◌, if◌then◌else◌, map, length, length-append, append_assoc, append-nil, ltb, arith,
}
use distributed_softmax.Text.{Bytes}
use distributed_softmax.Gateway.Publisher.Queue.{
  Push, Pipe, pipe, send, send_round, Action, publishes, answers, dies, on_action, run_push,
}

abbrev pub Handled : Type 0
Handled = List (Bytes × (Bytes ⊎ Unit {0}))

abbrev pub payloads_of : Handled → List Bytes
payloads_of handled = map (λ h. h.0) handled

-- The lines that should be logged: one for each payload that the socket did not send.
abbrev pub errors_of : Bytes → Handled → List Bytes
errors_of text [] = []
errors_of text ((payload, inl e) ∷ handled) = (text ++ e) ∷ errors_of text handled
errors_of text ((payload, inr u) ∷ handled) = errors_of text handled

-- Whether the thread still runs, from what has happened alone.
abbrev pub survives : List Action → Bool → Bool
survives [] b = b
survives (publishes payload ∷ actions) b = survives actions b
survives (answers answer ∷ actions) b = survives actions b
survives (dies ∷ actions) b = survives actions false

payloads_of-append : (xs ys : Handled) → payloads_of (xs ++ ys) ≡ payloads_of xs ++ payloads_of ys
payloads_of-append [] ys = refl
payloads_of-append (x ∷ xs) ys = ap (λ (t : List Bytes). x.0 ∷ t) (payloads_of-append xs ys)

errors_of-append :
    (text : Bytes) (xs ys : Handled)
    → errors_of text (xs ++ ys) ≡ errors_of text xs ++ errors_of text ys
errors_of-append text [] ys = refl
errors_of-append text ((payload, inl e) ∷ xs) ys =
    ap (λ (t : List Bytes). (text ++ e) ∷ t) (errors_of-append text xs ys)
errors_of-append text ((payload, inr u) ∷ xs) ys = errors_of-append text xs ys

-- What is accepted is handled or in the channel, in its order; the channel keeps its bound; and what the
-- log holds is the errors.
abbrev pub InOrder : ℕ → Bytes → List Bytes × Pipe → Type 0
InOrder capacity text (accepted, pipe channel handled logged running) =
    (payloads_of handled ++ channel ≡ accepted)
    × (length channel ≤ capacity)
    × (logged ≡ errors_of text handled)

abbrev pub pending : List Bytes × Pipe → ℕ
pending (accepted, pipe channel handled logged running) = length channel

abbrev pub runs : List Bytes × Pipe → Bool
runs (accepted, pipe channel handled logged running) = running

-- What is left in the channel after rounds of the thread, whatever the socket answers.
abbrev pub left_after : Bool → (waiting rounds : ℕ) → ℕ
left_after running waiting rounds = if running then waiting - rounds else waiting

module _ (push : Push) where
  abbrev Ordered : List Bytes × Pipe → Type 0
  Ordered = InOrder push.capacity push.error_text

  handled_one :
      (accepted channel : List Bytes) (payload : Bytes) (handled : Handled)
      (answer : Bytes ⊎ Unit {0})
      → payloads_of handled ++ (payload ∷ channel) ≡ accepted
      → payloads_of (handled ++ ((payload, answer) ∷ [])) ++ channel ≡ accepted
  handled_one accepted channel payload handled answer order =
      ap (λ (t : List Bytes). t ++ channel) (payloads_of-append handled ((payload, answer) ∷ []))
      ∙ append_assoc (payloads_of handled) (payload ∷ []) channel
      ∙ order

  on_action-Ordered :
      (action : Action) (accepted channel : List Bytes) (handled : Handled) (logged : List Bytes)
      (running : Bool)
      → Ordered (accepted, pipe channel handled logged running)
      → Ordered (on_action push action (accepted, pipe channel handled logged running))
  unfolding on_action send send_round
  on_action-Ordered (publishes payload) accepted channel handled logged false h = h
  on_action-Ordered (publishes payload) accepted channel handled logged true
        (order, bound, errors) =
      elim (Bool-cases (ltb (length channel) push.capacity)) [
        | inl room ↦
            rw (room, on_action, send)
              (
                sym (append_assoc (payloads_of handled) channel (payload ∷ []))
                    ∙ ap (λ (t : List Bytes). t ++ (payload ∷ [])) order,
                ground (arith, length-append channel (payload ∷ [])),
                errors,
              )
        | inr full ↦ rw (full, on_action, send) (order, bound, errors)
      ]
  on_action-Ordered (answers answer) accepted channel handled logged false h = h
  on_action-Ordered (answers answer) accepted [] handled logged true h = h
  on_action-Ordered (answers (inl e)) accepted (payload ∷ channel) handled logged true
        (order, bound, errors) =
      (
        handled_one accepted channel payload handled (inl e) order,
        omega arith,
        ap (λ (t : List Bytes). t ++ ((push.error_text ++ e) ∷ [])) errors
            ∙ sym (errors_of-append push.error_text handled ((payload, inl e) ∷ [])),
      )
  on_action-Ordered (answers (inr u)) accepted (payload ∷ channel) handled logged true
        (order, bound, errors) =
      (
        handled_one accepted channel payload handled (inr u) order,
        omega arith,
        errors
            ∙ sym (
                errors_of-append push.error_text handled ((payload, inr u) ∷ [])
                ∙ append-nil (errors_of push.error_text handled)),
      )
  on_action-Ordered dies accepted channel handled logged running h = h

  pub run_push-Ordered :
      (actions : List Action) (accepted : List Bytes) (q : Pipe)
      → Ordered (accepted, q)
      → Ordered (run_push push actions (accepted, q))
  unfolding run_push
  run_push-Ordered [] accepted q h = h
  run_push-Ordered (action ∷ actions) accepted (pipe channel handled logged running) h =
      run_push-Ordered actions
        (on_action push action (accepted, pipe channel handled logged running)).0
        (on_action push action (accepted, pipe channel handled logged running)).1
        (on_action-Ordered action accepted channel handled logged running h)

  survives_one :
      (action : Action) (actions : List Action) (b : Bool)
      → survives (action ∷ actions) b ≡ survives actions (survives (action ∷ []) b)
  survives_one (publishes payload) actions b = refl
  survives_one (answers answer) actions b = refl
  survives_one dies actions b = refl

  runs-on_action :
      (action : Action) (accepted channel : List Bytes) (handled : Handled) (logged : List Bytes)
      (running : Bool)
      → runs (on_action push action (accepted, pipe channel handled logged running))
        ≡ survives (action ∷ []) running
  unfolding on_action send send_round
  runs-on_action (publishes payload) accepted channel handled logged false = refl
  runs-on_action (publishes payload) accepted channel handled logged true =
      elim (Bool-cases (ltb (length channel) push.capacity)) [
        | inl room ↦ rw (room, on_action, send) refl
        | inr full ↦ rw (full, on_action, send) refl
      ]
  runs-on_action (answers answer) accepted channel handled logged false = refl
  runs-on_action (answers answer) accepted [] handled logged true = refl
  runs-on_action (answers (inl e)) accepted (payload ∷ channel) handled logged true = refl
  runs-on_action (answers (inr u)) accepted (payload ∷ channel) handled logged true = refl
  runs-on_action dies accepted channel handled logged running = refl

  pub runs-run_push :
      (actions : List Action) (accepted : List Bytes) (q : Pipe)
      → runs (run_push push actions (accepted, q)) ≡ survives actions (runs (accepted, q))
  unfolding run_push
  runs-run_push [] accepted (pipe channel handled logged running) = refl
  runs-run_push (action ∷ actions) accepted (pipe channel handled logged running) =
      let next = on_action push action (accepted, pipe channel handled logged running) in
      runs-run_push actions next.0 next.1
      ∙ ap (survives actions) (runs-on_action action accepted channel handled logged running)
      ∙ sym (survives_one action actions running)

  pub pending-run_push :
      (replies : List (Bytes ⊎ Unit {0})) (accepted channel : List Bytes) (handled : Handled)
      (logged : List Bytes) (running : Bool)
      → pending
          (run_push push (map answers replies) (accepted, pipe channel handled logged running))
        ≡ left_after running (length channel) (length replies)
  unfolding run_push on_action send_round
  pending-run_push [] accepted channel handled logged false = refl
  pending-run_push [] accepted channel handled logged true = omega arith
  pending-run_push (reply ∷ replies) accepted channel handled logged false =
      pending-run_push replies accepted channel handled logged false
  pending-run_push (reply ∷ replies) accepted [] handled logged true =
      pending-run_push replies accepted [] handled logged true ∙ omega arith
  pending-run_push (inl e ∷ replies) accepted (payload ∷ channel) handled logged true =
      pending-run_push replies accepted channel _ _ true ∙ omega arith
  pending-run_push (inr u ∷ replies) accepted (payload ∷ channel) handled logged true =
      pending-run_push replies accepted channel _ logged true ∙ omega arith
