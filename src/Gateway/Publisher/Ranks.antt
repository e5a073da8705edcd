-- ===== src/Gateway/Publisher/Ranks.antt =====
-- Which rank a payload reaches.
use distributed_softmax.Prelude.{
  ℕ, ◌≤◌, ◌≡◌, ◌≢◌, refl, ap, some, List, [], ◌∷◌, ◌++◌, inr, get_elem?, set, length,
  get_elem?-set_self, get_elem?-set_ne, get_elem?-lt,
}
use distributed_softmax.Text.{Bytes, to_decimal, usize_max}
use distributed_softmax.Text.Decimal.{parse_uint-to_decimal}
use distributed_softmax.Gateway.Publisher.{Channel, multi_publish, rank_send}

pub multi_publish-to_decimal :
    (senders : List Channel) (rank : ℕ) (payload : Bytes) (sent : List Bytes)
    → rank ≤ usize_max
    → get_elem? senders rank ≡ some (some sent)
    → multi_publish (to_decimal rank) payload senders
      ≡ (inr tt, set senders rank (some (sent ++ (payload ∷ []))))
unfolding multi_publish rank_send
multi_publish-to_decimal senders rank payload sent small alive =
    rw (parse_uint-to_decimal usize_max rank small, alive, multi_publish) refl

-- A payload that is published to the decimal text of a rank whose thread runs is accepted, is the last
-- in that rank's channel, and is in no other rank's.
multi_publish_lem :
    (senders : List Channel) (rank : ℕ) (payload : Bytes) (sent : List Bytes)
    → rank ≤ usize_max
    → get_elem? senders rank ≡ some (some sent)
    → (after : List Channel) × (multi_publish (to_decimal rank) payload senders ≡ (inr tt, after))
      × (get_elem? after rank ≡ some (some (sent ++ (payload ∷ []))))
      × ((other : ℕ) → rank ≢ other → get_elem? after other ≡ get_elem? senders other)
multi_publish_lem senders rank payload sent small alive = (
  set senders rank (some (sent ++ (payload ∷ []))),
  multi_publish-to_decimal senders rank payload sent small alive,
  get_elem?-set_self senders rank _ (get_elem?-lt senders rank (some sent) alive),
  λ other ne. get_elem?-set_ne senders rank other _ ne,
)

module _ {ℓ} {A : Type ℓ} where
  pub get_elem?_front :
      (front back : List A) (x : A) → get_elem? (front ++ (x ∷ back)) (length front) ≡ some x
  get_elem?_front [] back x = refl
  get_elem?_front (y ∷ front) back x = get_elem?_front front back x

  pub set_front :
      (front back : List A) (x y : A)
      → set (front ++ (x ∷ back)) (length front) y ≡ front ++ (y ∷ back)
  set_front [] back x y = refl
  set_front (z ∷ front) back x y = ap (◌∷◌ z) (set_front front back x y)
