-- ===== src/Gateway/Aggregator/Wait/Invariant.antt =====
-- What the gateway holds after some reads: each slice with its latest success, or none so far.
use distributed_softmax.Prelude.{
  ℕ, zero, suc, ◌+◌, ◌≤◌, ◌<◌, ◌≡◌, ◌≢◌, refl, ap, sym, Bool, true, false, Option, some, List, [],
  ◌∷◌, arith, ltb, if◌then◌else◌, length, get_elem?, set, replicate, Outcome, ok, length-replicate,
  get_elem?-replicate,
}
use distributed_softmax.Text.{Bytes}
use distributed_softmax.Gateway.Aggregator.Wait.{Held, none_held}

-- How many of the slices are not held.
abbrev pub missing : List Bool → ℕ
missing [] = 0
missing (true ∷ have) = missing have
missing (false ∷ have) = suc (missing have)

pub missing-set :
    (have : List Bool) (i : ℕ)
    → get_elem? have i ≡ some false
    → missing (set have i true) + 1 ≡ missing have
missing-set [] i e = cc
missing-set (false ∷ have) zero e = omega arith
missing-set (true ∷ have) zero e = cc
missing-set (false ∷ have) (suc i) e = omega (arith, missing-set have i e)
missing-set (true ∷ have) (suc i) e = missing-set have i e

pub missing-le-length : (have : List Bool) → missing have ≤ length have
missing-le-length [] = omega arith
missing-le-length (true ∷ have) = omega (arith, missing-le-length have)
missing-le-length (false ∷ have) = omega (arith, missing-le-length have)

-- If none is missing, all are held; if one is, its index can be named.
pub missing-zero :
    (have : List Bool) (i : ℕ) (b : Bool) → missing have ≡ 0 → get_elem? have i ≡ some b → b ≡ true
missing-zero [] i b m e = cc
missing-zero (true ∷ have) zero b m e = cc
missing-zero (false ∷ have) zero b m e = absurd (omega arith)
missing-zero (true ∷ have) (suc i) b m e = missing-zero have i b m e
missing-zero (false ∷ have) (suc i) b m e = absurd (omega arith)

pub missing_index :
    (have : List Bool) → 0 < missing have → (i : ℕ) × (get_elem? have i ≡ some false)
missing_index [] h = absurd (omega arith)
missing_index (false ∷ have) h = (0, refl)
missing_index (true ∷ have) h = let (i, e) = missing_index have h in (suc i, e)

pub missing-replicate : (n : ℕ) → missing (replicate n false) ≡ n
missing-replicate zero = refl
missing-replicate (suc n) = ap suc (missing-replicate n)

module _ {S : Type 0} (read : ℕ → ℕ → Outcome Bytes (Option S)) where
  -- Slice `i` was read in the first `n` rounds: where it is held, one of these reads returned it, and
  -- where it is not, none returned any.
  abbrev pub Entry : (i n : ℕ) → Bool → Option S → Type 0
  Entry i n true held = (s : S) × (j : ℕ) × (j < n) × (held ≡ some s) × (read j i ≡ ok (some s))
  Entry i n false held = (j : ℕ) → j < n → (s : S) → read j i ≢ ok (some s)

  -- In round `k`, before slice `pos` is read, the slices below `pos` were read once more.
  abbrev pub reads : (k pos i : ℕ) → ℕ
  reads k pos i = if ltb i pos then k + 1 else k

  pub record Inv (total k pos : ℕ) (h : Held S) : Type 0 where
    pub length_stats : length h.stats ≡ total
    pub length_have : length h.have ≡ total
    pub counted : h.remaining ≡ missing h.have
    pub entry :
        (i : ℕ) (b : Bool)
        → get_elem? h.have i ≡ some b
        → Entry i (reads k pos i) b (get_elem? h.stats i)

  pub none_held-Inv : (d : S) (total : ℕ) → Inv total 0 0 (none_held d total)
  unfolding none_held
  none_held-Inv d total = record {
    length_stats = length-replicate total d;
    length_have = length-replicate total false;
    counted = sym (missing-replicate total);
    entry = λ i b e. rw (get_elem?-replicate total i false b e) (λ j lt s q. absurd (ground arith));
  }
