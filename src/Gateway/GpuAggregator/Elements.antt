-- ===== src/Gateway/GpuAggregator/Elements.antt =====
-- The arrays that the host makes for the device: an element with the index of its slice, for each.
use distributed_softmax.Prelude.{
  foldl, ℕ, suc, ◌+◌, ◌<◌, ◌≤◌, ◌^◌, ◌≡◌, refl, sym, ap, ap₂, ◌∙◌, List, [], ◌∷◌, ◌++◌, map,
  flatten, length, arith, append-nil, append_assoc, map-append, length-append, length-map, map-map,
}
use distributed_softmax.Prelude.Int.{ℤ, pos, as_i32}
use distributed_softmax.Prelude.Totals.{tabulate, read}
use distributed_softmax.Floats.{Floats}
use distributed_softmax.Gateway.Aggregator.Cpu.{SliceStats}
use distributed_softmax.Gateway.GpuAggregator.{
  HostArrays, total_elements, push_values, push_slices, host_arrays, read_at,
}

pub as_i32_small : (i : ℕ) → i < 2 ^ 31 → as_i32 i ≡ pos i
as_i32_small i h = ground arith

read-append {ℓ} :
    {A : Type ℓ} (beyond : ℕ → A) (pre : List A) (x : A) (post : List A)
    → read beyond (pre ++ x ∷ post) (length pre) ≡ x
read-append beyond [] x post = refl
read-append beyond (y ∷ pre) x post = read-append (λ j. beyond (suc j)) pre x post

-- Two arrays of the same pairs, read together.
pub tabulate-read_pairs {ℓ} :
    {A : Type 0} {B : Type 0} {C : Type ℓ} (g : A → B → C) (beyond : ℕ → A) (past : ℕ → B)
    (ps : List (A × B))
    → tabulate
        (length ps)
        (λ k. g (read beyond (map (λ p. p.0) ps) k) (read past (map (λ p. p.1) ps) k))
      ≡ map (λ p. g p.0 p.1) ps
tabulate-read_pairs g beyond past [] = refl
tabulate-read_pairs g beyond past (p ∷ ps) =
    ap (◌∷◌ (g p.0 p.1)) (tabulate-read_pairs g (λ j. beyond (suc j)) (λ j. past (suc j)) ps)

module _ (F : Floats) where
  open F use {F64, F32, narrow}

  abbrev pub Element : Type 0
  Element = F32 × ℤ

  -- The arrays of a list of elements.
  abbrev pub arrays_of : List Element → HostArrays F
  arrays_of ps = (map (λ p. p.0) ps, map (λ p. p.1) ps)

  abbrev pub element : ℕ → F64 → Element
  element i v = (narrow v, as_i32 i)

  unfoldable pub elements : ℕ → List (SliceStats F) → List Element
  elements i [] = []
  elements i (s ∷ rest) = map (element i) s.exp_values ++ elements (suc i) rest

  length-elements_from :
      (i a : ℕ) (stats : List (SliceStats F))
      → foldl ◌+◌ a (map (λ s. length s.exp_values) stats) ≡ a + length (elements i stats)
  unfolding elements
  length-elements_from i a [] = omega arith
  length-elements_from i a (s ∷ rest) =
      length-elements_from (suc i) (a + length s.exp_values) rest
      ∙ omega (
        arith,
        length-append (map (element i) s.exp_values) (elements (suc i) rest),
        length-map (element i) s.exp_values,
      )

  pub length-elements :
      (stats : List (SliceStats F)) → total_elements F stats ≡ length (elements 0 stats)
  unfolding total_elements
  length-elements stats = length-elements_from 0 0 stats ∙ omega arith

  push_one :
      (p : Element) (ps : List Element)
      → ((arrays_of ps).0 ++ (p.0 ∷ []), (arrays_of ps).1 ++ (p.1 ∷ [])) ≡ arrays_of (ps ++ p ∷ [])
  push_one p ps = sym (
      ap₂ (λ (x : List F32) (y : List ℤ). (x, y)) (map-append (λ p. p.0) ps (p ∷ []))
        (map-append (λ p. p.1) ps (p ∷ [])))

  push_values-elements :
      (i : ℕ) (vs : List F64) (ps : List Element)
      → push_values F i vs (arrays_of ps) ≡ arrays_of (ps ++ map (element i) vs)
  unfolding push_values
  push_values-elements i [] ps = ap arrays_of (sym (append-nil ps))
  push_values-elements i (v ∷ vs) ps =
      ap (push_values F i vs) (push_one (element i v) ps)
      ∙ push_values-elements i vs (ps ++ element i v ∷ [])
      ∙ ap arrays_of (append_assoc ps (element i v ∷ []) (map (element i) vs))

  push_slices-elements :
      (i : ℕ) (stats : List (SliceStats F)) (ps : List Element)
      → push_slices F i stats (arrays_of ps) ≡ arrays_of (ps ++ elements i stats)
  unfolding push_slices elements
  push_slices-elements i [] ps = ap arrays_of (sym (append-nil ps))
  push_slices-elements i (s ∷ rest) ps =
      ap (push_slices F (suc i) rest) (push_values-elements i s.exp_values ps)
      ∙ push_slices-elements (suc i) rest (ps ++ map (element i) s.exp_values)
      ∙ ap arrays_of (append_assoc ps (map (element i) s.exp_values) (elements (suc i) rest))

  pub host_arrays-elements :
      (stats : List (SliceStats F)) → host_arrays F stats ≡ arrays_of (elements 0 stats)
  unfolding host_arrays
  host_arrays-elements stats = push_slices-elements 0 stats []

  -- What the kernel reads as an element's adjustment is that of its slice.
  pub elements-adjusted :
      {C : Type 0} (beyond : ℕ → F32) (g : F32 → F32 → C) (adj : SliceStats F → F32)
      (pre : List F32) (stats : List (SliceStats F))
      → length pre + length stats ≤ 2 ^ 31
      → map
          (λ (p : Element). g p.0 (read_at beyond (pre ++ map adj stats) p.1))
          (elements (length pre) stats)
        ≡ flatten (map (λ s. map (λ v. g (narrow v) (adj s)) s.exp_values) stats)
  unfolding elements flatten
  elements-adjusted beyond g adj pre [] h = refl
  elements-adjusted beyond g adj pre (s ∷ rest) h =
      map-append (λ (p : Element). g p.0 (read_at beyond every p.1))
        (map (element (length pre)) s.exp_values) (elements (suc (length pre)) rest)
      ∙ ap₂ ◌++◌
          (map-map (λ (p : Element). g p.0 (read_at beyond every p.1)) (element (length pre))
              s.exp_values
            ∙ ap (λ a. map (λ v. g (narrow v) a) s.exp_values) own)
          (ap₂
              (λ (xs : List F32) (k : ℕ).
                map (λ (p : Element). g p.0 (read_at beyond xs p.1)) (elements k rest))
              (sym (append_assoc pre (adj s ∷ []) (map adj rest))) (omega (arith, next_length))
            ∙ elements-adjusted beyond g adj (pre ++ adj s ∷ []) rest (omega (arith, next_length)))
    where
      every : List F32
      every = pre ++ adj s ∷ map adj rest

      next_length : length (pre ++ adj s ∷ []) ≡ length pre + 1
      next_length = length-append pre (adj s ∷ [])

      own : read_at beyond every (as_i32 (length pre)) ≡ adj s
      own =
          ap (read_at beyond every) (as_i32_small (length pre) (omega arith))
          ∙ read-append beyond pre (adj s) (map adj rest)
