-- ===== src/Gateway/Aggregator/Slice/Values.antt =====
-- The fields and the values of a slice, read back one by one.
use distributed_softmax.Prelude.{
  ℕ, ◌+◌, ◌*◌, ◌^◌, ◌<◌, ◌≡◌, refl, sym, ap, ◌∙◌, List, [], ◌∷◌, ◌++◌, map, arith, length,
  length-append, append-nil, append_assoc, range_middle, ok,
}
use distributed_softmax.Text.{Bytes}
use distributed_softmax.Floats.{Floats, IsBitExact}
use distributed_softmax.Wire.{little, to_le_bytes}
use distributed_softmax.Wire.Words.{length-to_le_bytes, from_ne_bytes-to_le_bytes}
use distributed_softmax.Worker.Handler.Encode.{encode_values}
use distributed_softmax.Gateway.Aggregator.Slice.{field, value_loop}

pub field_word :
    (raw front back : Bytes) (w n start end : ℕ)
    → raw ≡ front ++ (to_le_bytes w n ++ back)
    → n < 256 ^ w
    → start ≡ length front
    → end ≡ start + w
    → field little raw start end ≡ ok n
unfolding field
field_word raw front back w n start end e fits p q =
    rw
      (
        e,
        range_middle front (to_le_bytes w n) back start end p
            (omega (arith, length-to_le_bytes w n)),
      )
      (ap ok (from_ne_bytes-to_le_bytes w n fits))

module _ (F : Floats) where
  open F use {F64, F32, zero64, one64, widen, from_bits64, to_bits64, from_bits32, to_bits32}

  pub length-encode_values : (vs : List F32) → length (encode_values F vs) ≡ length vs * 4
  unfolding encode_values
  length-encode_values [] = refl
  length-encode_values (v ∷ vs) = omega (
    arith,
    length-append (to_le_bytes 4 (to_bits32 v)) (encode_values F vs),
    length-to_le_bytes 4 (to_bits32 v),
    length-encode_values vs,
  )

  module _ (B : IsBitExact F) where
    pub value_loop-encode_values :
        (vs : List F32) (raw front : Bytes) (header i : ℕ) (out : List F64)
        → raw ≡ front ++ encode_values F vs
        → length front ≡ header + i * 4
        → value_loop F little raw header (length vs) i out ≡ ok (out ++ map widen vs)
    unfolding value_loop encode_values
    value_loop-encode_values [] raw front header i out e p = ap ok (sym (append-nil out))
    value_loop-encode_values (v ∷ vs) raw front header i out e p =
        rw
          (
            field_word raw front (encode_values F vs) 4 (to_bits32 v) (header + i * 4)
                (header + i * 4 + 4) e (B.to_bits32_lt v) (omega arith) refl,
            B.from_bits32-to_bits32 v,
          )
          (value_loop-encode_values vs raw (front ++ to_le_bytes 4 (to_bits32 v)) header (i + 1)
              (out ++ (widen v ∷ [])) (e ∙ sym (append_assoc front _ _))
              (omega (
                arith,
                length-append front (to_le_bytes 4 (to_bits32 v)),
                length-to_le_bytes 4 (to_bits32 v),
              ))
            ∙ ap ok (append_assoc out (widen v ∷ []) (map widen vs)))
