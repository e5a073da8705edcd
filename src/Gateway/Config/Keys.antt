-- ===== src/Gateway/Config/Keys.antt =====
-- Which Redis keys of gateway-rs/src/config.rs can be equal.
use distributed_softmax.Prelude.{ℕ, ◌≡◌, ◌≢◌, ◌↔◌, ◌∷◌, ◌++◌, ap, arith}
use distributed_softmax.Text.{Bytes, bytes, to_decimal}
use distributed_softmax.Text.Decimal.{to_decimal-IsDigit, to_decimal_injective}
use distributed_softmax.Text.Separator.{IsDigit→IsNot, split_at_last, append_cancel}
use distributed_softmax.Gateway.Config.{result_key, slice_key, metadata_key, progress_key}

first_differs : (c d : ℕ) (s t : Bytes) → c ≢ d → c ∷ s ≢ d ∷ t
first_differs c d s t h e = h (cc)

tail_injective :
    (a b : Bytes) (i j : ℕ)
    → a ++ (b':' ∷ to_decimal i) ≡ b ++ (b':' ∷ to_decimal j)
    → (a ≡ b) × (i ≡ j)
tail_injective a b i j e =
    let (jobs, ids) =
      split_at_last b':' a b (to_decimal i) (to_decimal j)
        (IsDigit→IsNot (to_decimal i) (to_decimal-IsDigit i))
        (IsDigit→IsNot (to_decimal j) (to_decimal-IsDigit j)) e in
    (jobs, to_decimal_injective i j ids)

-- Slice keys are shared by no two slices, of one job or of two, whatever the job ids hold.
pub slice_key_injective :
    (a b : Bytes) (i j : ℕ) → slice_key a i ≡ slice_key b j → (a ≡ b) × (i ≡ j)
unfolding slice_key
slice_key_injective a b i j e = tail_injective a b i j (append_cancel (bytes "result:") _ _ e)

-- The key of a job's final result is the key of slice `i` of job `b` exactly when the job's id is
-- `b`, a colon and the decimal text of `i`.
pub result_key-eq-slice_key :
    (a b : Bytes) (i : ℕ) → (result_key a ≡ slice_key b i) ↔ (a ≡ b ++ (b':' ∷ to_decimal i))
unfolding result_key slice_key
result_key-eq-slice_key a b i =
    (append_cancel (bytes "result:") a _, λ e. ap (λ (t : Bytes). bytes "result:" ++ t) e)

pub result_key_injective : (a b : Bytes) → result_key a ≡ result_key b → a ≡ b
unfolding result_key
result_key_injective a b e = append_cancel (bytes "result:") a b e

-- The four kinds of keys are apart but for that one case: a metadata key is no progress key, and
-- neither is a result key or a slice key.
pub key_kinds_apart :
    (a b : Bytes) (i : ℕ)
    → (metadata_key a ≢ progress_key b)
      × (metadata_key a ≢ result_key b)
      × (metadata_key a ≢ slice_key b i)
      × (progress_key a ≢ result_key b)
      × (progress_key a ≢ slice_key b i)
unfolding metadata_key progress_key result_key slice_key
key_kinds_apart a b i = (
  first_differs b'm' b'p' _ _ (omega arith),
  first_differs b'm' b'r' _ _ (omega arith),
  first_differs b'm' b'r' _ _ (omega arith),
  first_differs b'p' b'r' _ _ (omega arith),
  first_differs b'p' b'r' _ _ (omega arith),
)
