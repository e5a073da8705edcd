-- ===== src/Gateway/Aggregator/Slice/Total.antt =====
-- `decode_slice` on any bytes, well formed or not.
use distributed_softmax.Prelude.{
  ℕ, zero, suc, ◌+◌, ◌*◌, ◌≤◌, ◌≡◌, refl, ◌≢◌, ◌⊎◌, inl, inr, false, true, Bool-cases, Option, none,
  some, List, [], ◌∷◌, ◌++◌, arith, length, length-append, range_total, ok, panic, ltb, ◌==◌,
}
use distributed_softmax.Text.{Bytes}
use distributed_softmax.Floats.{Floats}
use distributed_softmax.Wire.{Endian, from_ne_bytes}
use distributed_softmax.Json.{Parser}
use distributed_softmax.Gateway.Aggregator.Cpu.{SliceStats}
use distributed_softmax.Gateway.Aggregator.Slice.{
  Result, hdr, hdr2, field, value_loop, read_partial, read_normalized, read_json, decode_slice,
}

pub field_total :
    (e : Endian) (raw : Bytes) (start end : ℕ)
    → start ≤ end
    → end ≤ length raw
    → (n : ℕ) × (field e raw start end ≡ ok n)
unfolding field
field_total e raw start end h k =
    let (part, q) = range_total raw start end h k in (from_ne_bytes e part, rw q)

-- What the 0x01 and 0x02 branches return: nothing, or a slice whose values fill the bytes exactly.
abbrev pub Fits : (F : Floats) → ℕ → Bytes → Result (Option (SliceStats F)) → Type 0
Fits F header raw r =
    (r ≡ ok none)
    ⊎ ((s : SliceStats F) × (r ≡ ok (some s)) × (length raw ≡ header + length s.exp_values * 4))

module _ (F : Floats) (e : Endian) where
  open F use {F64, zero64, one64, widen, from_bits64, from_bits32}

  value_loop_total :
      (raw : Bytes) (header left i : ℕ) (out : List F64)
      → header + (i + left) * 4 ≤ length raw
      → (vs : List F64) × (value_loop F e raw header left i out ≡ ok vs)
        × (length vs ≡ length out + left)
  unfolding value_loop
  value_loop_total raw header zero i out h = (out, refl, omega arith)
  value_loop_total raw header (suc left) i out h =
      let (bits, q) =
        field_total e raw (header + i * 4) (header + i * 4 + 4) (omega arith) (omega arith) in
      let v = widen (from_bits32 bits) in
      let (vs, run, count) =
        value_loop_total raw header left (i + 1) (out ++ (v ∷ [])) (omega arith) in
      (vs, rw q run, omega (arith, count, length-append out (v ∷ [])))

  read_partial-Fits : (raw : Bytes) → Fits F hdr raw (read_partial F e raw)
  unfolding read_partial
  read_partial-Fits raw = elim (Bool-cases (ltb (length raw) hdr)) [
    | inl short ↦ inl (rw short)
    | inr long ↦
        let enough : hdr ≤ length raw = ground arith in
        let (top, q1) = field_total e raw 1 9 (omega arith) (omega arith) in
        let (total, q2) = field_total e raw 9 17 (omega arith) (omega arith) in
        let (n, q3) = field_total e raw 17 21 (omega arith) (omega arith) in
        elim (Bool-cases (length raw == hdr + n * 4)) [
          | inr differ ↦ inl (rw (long, q1, q2, q3, differ))
          | inl same ↦
              let size : length raw ≡ hdr + n * 4 = ground arith in
              let (vs, run, count) = value_loop_total raw hdr n 0 [] (omega arith) in
              let s : SliceStats F = record {
                exp_values = vs;
                local_max = from_bits64 top;
                partial_sum = from_bits64 total;
                is_normalized = false;
              } in
              inr (s, rw (long, q1, q2, q3, same, run), omega arith)
        ]
  ]

  read_normalized-Fits : (raw : Bytes) → Fits F hdr2 raw (read_normalized F e raw)
  unfolding read_normalized
  read_normalized-Fits raw = elim (Bool-cases (ltb (length raw) hdr2)) [
    | inl short ↦ inl (rw short)
    | inr long ↦
        let enough : hdr2 ≤ length raw = ground arith in
        let (n, q) = field_total e raw 1 5 (omega arith) (omega arith) in
        elim (Bool-cases (length raw == hdr2 + n * 4)) [
          | inr differ ↦ inl (rw (long, q, differ))
          | inl same ↦
              let size : length raw ≡ hdr2 + n * 4 = ground arith in
              let (vs, run, count) = value_loop_total raw hdr2 n 0 [] (omega arith) in
              let s : SliceStats F = record {
                exp_values = vs;
                local_max = zero64;
                partial_sum = one64;
                is_normalized = true;
              } in
              inr (s, rw (long, q, same, run), omega arith)
        ]
  ]

  -- What begins with 0x01 or 0x02 is never an error: it is either taken for a slice that is not there,
  -- or read as a slice whose values, at four bytes each, fill the bytes after the header exactly.
  pub decode_slice-Fits :
      (parse : Parser F64) (idx : ℕ) (rest : Bytes)
      → Fits F hdr (0x01 ∷ rest) (decode_slice F e parse idx (0x01 ∷ rest))
        × Fits F hdr2 (0x02 ∷ rest) (decode_slice F e parse idx (0x02 ∷ rest))
  unfolding decode_slice
  decode_slice-Fits parse idx rest =
      (read_partial-Fits (0x01 ∷ rest), read_normalized-Fits (0x02 ∷ rest))

  Fits-ne-panic :
      (header : ℕ) (raw : Bytes) (r : Result (Option (SliceStats F)))
      → Fits F header raw r
      → r ≢ panic
  Fits-ne-panic header raw r (inl q) = λ p. cc
  Fits-ne-panic header raw r (inr (s, q, n)) = λ p. cc

  read_json-ne-panic :
      (parse : Parser F64) (idx : ℕ) (raw : Bytes) → read_json F e parse idx raw ≢ panic
  unfolding read_json
  read_json-ne-panic parse idx raw = ground arith

  -- No bytes make `read_slice` panic: every slice index of it is in range.
  pub decode_slice-ne-panic :
      (parse : Parser F64) (idx : ℕ) (raw : Bytes) → decode_slice F e parse idx raw ≢ panic
  unfolding decode_slice
  decode_slice-ne-panic parse idx [] = λ p. cc
  decode_slice-ne-panic parse idx (magic ∷ rest) = ground (
    arith,
    Fits-ne-panic hdr (magic ∷ rest) _ (read_partial-Fits (magic ∷ rest)),
    Fits-ne-panic hdr2 (magic ∷ rest) _ (read_normalized-Fits (magic ∷ rest)),
    read_json-ne-panic parse idx (magic ∷ rest),
  )
