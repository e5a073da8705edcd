-- ===== src/Gateway/Aggregator/Wait/Pass.antt =====
-- A pass over the slices keeps the invariant.
use distributed_softmax.Prelude.{
  ℕ, zero, suc, ◌+◌, ◌<◌, ◌^◌, ◌≡◌, ◌≢◌, refl, ◌∙◌, sym, Bool, true, false, Option, none, some,
  arith, if◌then◌else◌, length, get_elem?, set, length-set, Outcome, ok, err, panic,
  get_elem?-set_self, get_elem?-set_ne, get_elem?_total, get_elem?-lt, subst,
}
use mathlib.Core.Option.{some-injective}
use mathlib.Core.List.{List}
use native.Mathlib.Decide.{ℕ_discrete}
use distributed_softmax.Text.{Bytes}
use distributed_softmax.Gateway.Aggregator.Wait.{Held, sub_usize, keep_slice, read_pass}
use distributed_softmax.Gateway.Aggregator.Wait.Invariant.{
  missing-set, missing-le-length, Entry, reads, Inv,
}

module _ {S : Type 0} (read : ℕ → ℕ → Outcome Bytes (Option S)) where
  reads_other : (k pos i : ℕ) → pos ≢ i → reads read k (pos + 1) i ≡ reads read k pos i
  reads_other k pos i h = ground arith

  reads_here : (k pos : ℕ) → (reads read k pos pos ≡ k) × (reads read k (pos + 1) pos ≡ k + 1)
  reads_here k pos = ground arith

  -- One more read of a slice that is held changes nothing, and so does a read that fails.
  held_again :
      (i n : ℕ) (held : Option S) → Entry read i n true held → Entry read i (n + 1) true held
  held_again i n held (s, j, lt, e, q) = (s, j, omega arith, e, q)

  failed_again :
      (i n : ℕ) (held : Option S)
      → ((s : S) → read n i ≢ ok (some s))
      → Entry read i n false held
      → Entry read i (n + 1) false held
  failed_again i n held fails h j lt s q = elim (ℕ_discrete j n) [
    | yes e ↦ fails s (subst (λ (t : ℕ). read t i ≡ ok (some s)) e q)
    | no ne ↦ h j (omega arith) s q
  ]

  -- The entry of slice `pos` itself, once its new state is known.
  at_pos :
      (k pos : ℕ) (have : List Bool) (stats : List S) (b : Bool)
      → get_elem? have pos ≡ some b
      → Entry read pos (k + 1) b (get_elem? stats pos)
      → (i : ℕ) (c : Bool) → pos ≡ i
      → get_elem? have i ≡ some c
      → Entry read i (reads read k (pos + 1) i) c (get_elem? stats i)
  at_pos k pos have stats b here new i c p e =
      subst
        (λ (t : ℕ).
          get_elem? have t ≡ some c → Entry read t (reads read k (pos + 1) t) c (get_elem? stats t))
        p
        (λ e'.
          subst (λ (d : Bool). Entry read pos (reads read k (pos + 1) pos) d (get_elem? stats pos))
            (some-injective b c (sym here ∙ e'))
            (subst (λ (n : ℕ). Entry read pos n b (get_elem? stats pos)) (sym (reads_here k pos).1)
              new))
        e

  module _ (total k pos : ℕ) (h : Held S) (inv : Inv read total k pos h) where
    -- The entries of the other slices do not change.
    other_slots :
        (i : ℕ) (b : Bool)
        → pos ≢ i
        → get_elem? h.have i ≡ some b
        → Entry read i (reads read k (pos + 1) i) b (get_elem? h.stats i)
    other_slots i b ne e =
        subst (λ (n : ℕ). Entry read i n b (get_elem? h.stats i)) (sym (reads_other k pos i ne))
          (inv.entry i b e)

    own_slot :
        (b : Bool) → get_elem? h.have pos ≡ some b → Entry read pos k b (get_elem? h.stats pos)
    own_slot b e =
        subst (λ (n : ℕ). Entry read pos n b (get_elem? h.stats pos)) (reads_here k pos).0
          (inv.entry pos b e)

    unchanged-Inv :
        (b : Bool)
        → get_elem? h.have pos ≡ some b
        → Entry read pos (k + 1) b (get_elem? h.stats pos)
        → Inv read total k (pos + 1) h
    unchanged-Inv b here new = record {
      length_stats = inv.length_stats;
      length_have = inv.length_have;
      counted = inv.counted;
      entry = λ i c e. elim (ℕ_discrete pos i) [
        | yes p ↦ at_pos k pos h.have h.stats b here new i c p e
        | no ne ↦ other_slots i c ne e
      ];
    }

    in_stats : (b : Bool) → get_elem? h.have pos ≡ some b → pos < length h.stats
    in_stats b here =
        omega (arith, get_elem?-lt h.have pos b here, inv.length_have, inv.length_stats)

    abbrev kept : S → Held S
    kept s = record {
      stats = set h.stats pos s;
      have = set h.have pos true;
      remaining = sub_usize h.remaining 1;
    }

    kept-Inv :
        (s : S)
        → total < 2 ^ 64
        → get_elem? h.have pos ≡ some false
        → read k pos ≡ ok (some s)
        → Inv read total k (pos + 1) (kept s)
    kept-Inv s small here success = record {
      length_stats = length-set h.stats pos s ∙ inv.length_stats;
      length_have = length-set h.have pos true ∙ inv.length_have;
      counted = omega (
        arith,
        inv.counted,
        inv.length_have,
        missing-set h.have pos here,
        missing-le-length h.have,
      );
      entry = λ i c e. elim (ℕ_discrete pos i) [
        | yes p ↦
            at_pos k pos (set h.have pos true) (set h.stats pos s) true
              (get_elem?-set_self h.have pos true in_have)
              (s, k, omega arith, get_elem?-set_self h.stats pos s (in_stats false here), success) i
              c p e
        | no ne ↦
            subst (Entry read i (reads read k (pos + 1) i) c)
              (sym (get_elem?-set_ne h.stats pos i s ne))
              (other_slots i c ne (sym (get_elem?-set_ne h.have pos i true ne) ∙ e))
      ];
    }
      where
        in_have : pos < length h.have
        in_have = get_elem?-lt h.have pos false here

    -- What the body of the loop does with slice `pos`.
    read_slot :
        total < 2 ^ 64
        → ((j i : ℕ) → read j i ≢ panic)
        → (b : Bool) → get_elem? h.have pos ≡ some b
        → (h' : Held S) × ((if b then ok h else keep_slice h pos (read k pos)) ≡ ok h')
          × Inv read total k (pos + 1) h'
    unfolding keep_slice
    read_slot small calm true here = (
      h,
      refl,
      unchanged-Inv true here (held_again pos k (get_elem? h.stats pos) (own_slot true here)),
    )
    read_slot small calm false here = slot (read k pos) refl
      where
        failed : ((s : S) → read k pos ≢ ok (some s)) → Inv read total k (pos + 1) h
        failed fails =
            unchanged-Inv false here
              (failed_again pos k (get_elem? h.stats pos) fails (own_slot false here))

        slot :
            (r : Outcome Bytes (Option S))
            → read k pos ≡ r
            → (h' : Held S) × (keep_slice h pos r ≡ ok h') × Inv read total k (pos + 1) h'
        slot (ok (some s)) e =
            let (old, q) = get_elem?_total h.stats pos (in_stats false here) in
            (kept s, rw q, kept-Inv s small here e)
        slot (ok none) e = (h, refl, failed (λ s q. cc))
        slot (err x) e = (h, refl, failed (λ s q. cc))
        slot panic e = absurd (calm k pos e)

  -- A pass over the slices from `pos` on neither fails nor panics, and keeps the invariant.
  pub read_pass-Inv :
      (total k left pos : ℕ) (h : Held S)
      → total < 2 ^ 64
      → ((j i : ℕ) → read j i ≢ panic)
      → pos + left ≡ total
      → Inv read total k pos h
      → (h' : Held S) × (read_pass read k left pos h ≡ ok h') × Inv read total k total h'
  unfolding read_pass
  read_pass-Inv total k zero pos h small calm e inv =
      let here : pos ≡ total = omega arith in
      (h, refl, subst (λ (p : ℕ). Inv read total k p h) here inv)
  read_pass-Inv total k (suc left) pos h small calm e inv =
      let (b, here) = get_elem?_total h.have pos (omega (arith, inv.length_have)) in
      let (h', q, inv') = read_slot total k pos h inv small calm b here in
      let (h'', run, inv'') =
        read_pass-Inv total k left (pos + 1) h' small calm (omega arith) inv' in
      (h'', rw (here, q) run, inv'')

  -- At the end of a pass the next round begins.
  pub next_round-Inv :
      (total k : ℕ) (h : Held S) → Inv read total k total h → Inv read total (k + 1) 0 h
  next_round-Inv total k h inv = record {
    length_stats = inv.length_stats;
    length_have = inv.length_have;
    counted = inv.counted;
    entry = λ i b e.
        let below : i < total = omega (arith, get_elem?-lt h.have i b e, inv.length_have) in
        let same : reads read k total i ≡ reads read (k + 1) 0 i = ground arith in
        subst (λ (n : ℕ). Entry read i n b (get_elem? h.stats i)) same (inv.entry i b e);
  }
