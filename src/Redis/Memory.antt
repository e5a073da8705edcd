-- ===== src/Redis/Memory.antt =====
-- A server that holds its entries in a list, the latest first, with the messages published on it.
use distributed_softmax.Prelude.{
  ℕ, ◌≡◌, refl, ap, sym, subst, ◌∙◌, Bool, true, false, Option, none, some, List, [], ◌∷◌, ◌⊎◌, inl,
  inr, map, if◌then◌else◌,
}
use distributed_softmax.Prelude.Int.{ℤ, pos, negsuc}
use distributed_softmax.Text.{Bytes, bytes, beq}
use distributed_softmax.Text.Separator.{beq_iff}
use distributed_softmax.Text.Utf8.{is_utf8}
use distributed_softmax.Redis.{Redis, IsStore}

-- A key with its value and its lifetime.
abbrev pub Entries : Type 0
Entries = List (Bytes × Bytes × Option ℕ)

abbrev pub Server : Type 0
Server = Entries × List (Bytes × Bytes)

abbrev pub lookup : Entries → Bytes → Option Bytes
lookup [] j = none
lookup ((k, v, t) ∷ es) j = if beq j k then some v else lookup es j

abbrev pub lifetime : Entries → Bytes → ℤ
lifetime [] j = negsuc 1
lifetime ((k, v, none) ∷ es) j = if beq j k then negsuc 0 else lifetime es j
lifetime ((k, v, some t) ∷ es) j = if beq j k then pos t else lifetime es j

abbrev pub present : Option Bytes → Bool
present none = false
present (some v) = true

abbrev pub text_of : Option Bytes → Bytes ⊎ Option Bytes
text_of none = inr none
text_of (some v) = if is_utf8 v then inr (some v) else inl (bytes "Invalid UTF-8")

abbrev pub memory : Redis
memory = record {
  State = Server;
  get = λ (s : Server) k. inr (lookup s.0 k);
  get_string = λ (s : Server) k. text_of (lookup s.0 k);
  exists = λ (s : Server) k. inr (present (lookup s.0 k));
  ttl = λ (s : Server) k. inr (lifetime s.0 k);
  keys = λ (s : Server) p. inr (map (λ (e : Bytes × Bytes × Option ℕ). e.0) s.0);
  set = λ k v (s : Server). (inr tt, ((k, v, none) ∷ s.0, s.1));
  set_ex = λ k v t (s : Server). (inr tt, ((k, v, some t) ∷ s.0, s.1));
  publish = λ c m (s : Server). (inr tt, (s.0, (c, m) ∷ s.1));
}

abbrev answer : Option Bytes → Bytes ⊎ Option Bytes
answer o = inr o

answer_eq : (o p : Option Bytes) → answer o ≡ answer p → o ≡ p
answer_eq o p e = cc

if_present :
    (b : Bool) (v : Bytes) (o : Option Bytes)
    → answer (if b then some v else o) ≡ (if b then answer (some v) else answer o)
if_present true v o = refl
if_present false v o = refl

abbrev entries_after : (Bytes ⊎ Unit {0}) × Server → Entries
entries_after p = p.1.0

pub memory-IsStore : IsStore memory
memory-IsStore = record {
  get-set = λ s s' k v j e.
      subst
        (λ (es : Entries).
          answer (lookup es j) ≡ (if beq j k then answer (some v) else answer (lookup s.0 j)))
        (ap entries_after e) (if_present (beq j k) v (lookup s.0 j));
  get-set_ex = λ s s' k v j t e.
      subst
        (λ (es : Entries).
          answer (lookup es j) ≡ (if beq j k then answer (some v) else answer (lookup s.0 j)))
        (ap entries_after e) (if_present (beq j k) v (lookup s.0 j));
  get-publish =
      λ s s' c m j e. ap (λ (es : Entries). answer (lookup es j)) (sym (ap entries_after e));
  get_string_text = λ s k v e u. rw (answer_eq (lookup s.0 k) (some v) e, u) refl;
  get_string_missing = λ s k e. rw (answer_eq (lookup s.0 k) none e) refl;
  exists_present = λ s k v e. rw (answer_eq (lookup s.0 k) (some v) e) refl;
  exists_missing = λ s k e. rw (answer_eq (lookup s.0 k) none e) refl;
  ttl-set_ex = λ s s' k v t e.
      ap (λ (n : ℤ). inr n)
        (ap (λ (es : Entries). lifetime es k) (sym (ap entries_after e)) ∙ own_lifetime k v t s.0);
}
  where
    own_key : (k : Bytes) → beq k k ≡ true
    own_key k = (beq_iff k k).1 refl

    own_lifetime : (k v : Bytes) (t : ℕ) (es : Entries) → lifetime ((k, v, some t) ∷ es) k ≡ pos t
    own_lifetime k v t es = rw (own_key k) refl
