-- ===== src/Gateway/Publisher/Examples.antt =====
-- Three ranks, of which the last one's thread has gone.
use distributed_softmax.Prelude.{◌≡◌, refl, none, some, List, [], ◌∷◌, inr}
use distributed_softmax.Text.{bytes, parse_uint, parse_some_digits, parse_digits}
use distributed_softmax.Gateway.Publisher.{Channel, multi_publish, rank_send}

abbrev senders : List Channel
senders = some [] ∷ some (bytes "a" ∷ []) ∷ none ∷ []

sent_to_one :
    multi_publish (bytes "1") (bytes "b") senders
    ≡ (inr tt, some [] ∷ some (bytes "a" ∷ bytes "b" ∷ []) ∷ none ∷ [])
unfolding multi_publish rank_send parse_uint parse_some_digits parse_digits
sent_to_one = refl
