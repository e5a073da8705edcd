-- ===== src/Gateway/Service/Slices/Even.antt =====
-- The slices of `submit_task` in NCCL mode: `even_chunks`.
use distributed_softmax.Prelude.{
  ℕ, zero, suc, ◌+◌, ◌-◌, ◌*◌, ◌/◌, ◌%◌, ◌≤◌, ◌<◌, ◌≡◌, refl, sym, ap, ◌∙◌, true, some, List, [],
  ◌∷◌, ◌++◌, arith, flatten, length, range, take, drop, flatten-cons, take-append-drop, length-take,
  length-drop, append-nil, append_assoc, ok, err, ltb, if◌then◌else◌, pos→==_zero, le→ltb_false,
  lt→ltb, le→leb,
}
use distributed_softmax.Gateway.Service.Slices.Chunks.{ceiling_bounds}
use distributed_softmax.Gateway.Config.{Env}
use distributed_softmax.Gateway.Service.Slices.{
  invalid_argument, even_loop, even_chunks, split_vector, too_short,
}

-- The length of slice `i`: the first `rem` slices have one element more.
abbrev pub even_size : (base rem i : ℕ) → ℕ
even_size base rem i = base + (if ltb i rem then 1 else 0)

-- The slices from the `i`-th on have these lengths.
abbrev pub HasSizes {ℓ} : {A : Type ℓ} → (base rem i : ℕ) → List (List A) → Type 0
HasSizes base rem i [] = Unit
HasSizes base rem i (s ∷ ss) = (length s ≡ even_size base rem i) × HasSizes base rem (i + 1) ss

even_size_step :
    (base rem left i start n : ℕ)
    → rem ≤ i + suc left
    → start + (suc left * base + (rem - i)) ≡ n
    → (start + even_size base rem i ≤ n)
      × (start + even_size base rem i + (left * base + (rem - (i + 1))) ≡ n)
even_size_step base rem left i start n r e = ground arith

module _ {ℓ} {A : Type ℓ} where
  length-chunk :
      (xs : List A) (start size : ℕ)
      → start + size ≤ length xs
      → length (take size (drop start xs)) ≡ size
  length-chunk xs start size h =
      omega (arith, length-take size (drop start xs), length-drop start xs)

  drop-nil : (n : ℕ) → ◌≡◌ {A = List A} (drop n []) []
  drop-nil zero = refl
  drop-nil (suc n) = refl

  drop-length : (xs : List A) → drop (length xs) xs ≡ []
  drop-length [] = refl
  drop-length (x ∷ xs) = drop-length xs

  drop-add : (a b : ℕ) (xs : List A) → drop (a + b) xs ≡ drop b (drop a xs)
  drop-add zero b xs = ap (λ (n : ℕ). drop n xs) (omega arith)
  drop-add (suc a) b [] = drop-nil (suc a + b) ∙ sym (drop-nil b)
  drop-add (suc a) b (x ∷ xs) =
      let e : suc a + b ≡ suc (a + b) = omega arith in
      ap (λ (n : ℕ). drop n (x ∷ xs)) e ∙ drop-add a b xs

  range_ok :
      (xs : List A) (start size : ℕ)
      → start + size ≤ length xs
      → range xs start (start + size) ≡ some (take size (drop start xs))
  unfolding range
  range_ok xs start size h =
      rw (le→leb start (start + size) (omega arith), le→leb (start + size) (length xs) h)
        (ap (λ (n : ℕ). some (take n (drop start xs))) (omega arith))

  even_loop_step :
      (base rem : ℕ) (xs : List A) (left i start : ℕ) (out made : List (List A))
      → let size = even_size base rem i in
        let chunk = take size (drop start xs) in
        start + size ≤ length xs
        → even_loop base rem xs left (i + 1) (start + size) (out ++ (chunk ∷ []))
          ≡ ok ((out ++ (chunk ∷ [])) ++ made)
        → even_loop base rem xs (suc left) i start out ≡ ok (out ++ (chunk ∷ made))
  unfolding even_loop
  even_loop_step base rem xs left i start out made fits run =
      rw (range_ok xs start (even_size base rem i) fits) (run ∙ ap ok (append_assoc out _ made))

  -- What the loop adds to `out`, where the rounds left use up the vector exactly.
  even_loop_lem :
      (base rem : ℕ) (xs : List A) (left i start : ℕ) (out : List (List A))
      → rem ≤ i + left
      → start + (left * base + (rem - i)) ≡ length xs
      → (made : List (List A)) × (even_loop base rem xs left i start out ≡ ok (out ++ made))
        × (flatten made ≡ drop start xs)
        × (length made ≡ left)
        × HasSizes base rem i made
  even_loop_lem base rem xs zero i start out r e = (
    [],
    unfold even_loop in ap ok (sym (append-nil out)),
    unfold flatten in sym (ap (λ (n : ℕ). drop n xs) (omega arith) ∙ drop-length xs),
    refl,
    tt,
  )
  even_loop_lem base rem xs (suc left) i start out r e =
      let size = even_size base rem i in
      let chunk = take size (drop start xs) in
      let (fits, rest) = even_size_step base rem left i start (length xs) r e in
      let (made, run, whole, count, sizes) =
        even_loop_lem base rem xs left (i + 1) (start + size) (out ++ (chunk ∷ [])) (omega arith)
          rest in
      (
        chunk ∷ made,
        even_loop_step base rem xs left i start out made fits run,
        flatten-cons chunk made
            ∙ ap (λ (t : List A). chunk ++ t) (whole ∙ drop-add start size xs)
            ∙ take-append-drop size (drop start xs),
        ap suc count,
        (length-chunk xs start size fits, sizes),
      )

-- In NCCL mode a vector with at least as many elements as there are ranks is accepted, and falls into
-- exactly one slice for each rank. The slices follow one another in the vector and make it up; none
-- is empty, and their lengths are the rounded-down quotient, the first ones being one longer.
pub split_vector-even {ℓ} :
    {A : Type ℓ} (world_size : ℕ) (env : Env) (xs : List A)
    → 0 < world_size
    → world_size ≤ length xs
    → (out : List (List A)) × (split_vector true world_size env xs ≡ ok out)
      × (flatten out ≡ xs)
      × (length out ≡ world_size)
      × HasSizes (length xs / world_size) (length xs % world_size) 0 out
      × (0 < length xs / world_size)
unfolding split_vector even_chunks
split_vector-even n env xs h enough =
    let (made, run, whole, count, sizes) =
      even_loop_lem (length xs / n) (length xs % n) xs n 0 0 [] (omega arith) (omega arith) in
    (
      made,
      rw (le→ltb_false (length xs) n enough, pos→==_zero n h) run,
      whole,
      count,
      sizes,
      ceiling_bounds (length xs) n h enough,
    )

-- A vector too short for the ranks is refused with a message that names both numbers.
pub split_vector_short {ℓ} :
    {A : Type ℓ} (world_size : ℕ) (env : Env) (xs : List A)
    → length xs < world_size
    → split_vector true world_size env xs
      ≡ err (invalid_argument (too_short (length xs) world_size))
unfolding split_vector
split_vector_short n env xs h = rw (lt→ltb (length xs) n h)
