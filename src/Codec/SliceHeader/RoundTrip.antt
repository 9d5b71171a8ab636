-- ===== src/Codec/SliceHeader/RoundTrip.antt =====
-- The slice header through any channel of symbols.
use mffv.Common.{
  ℕ, ◌+◌, ◌-◌, ◌*◌, ◌^◌, ◌≤◌, ◌<◌, ◌≡◌, refl, sym, arith, List, [], ◌∷◌, Bool, true, false, not,
  ◌&&◌, ◌||◌, ltb, leb, ◌==◌, length,
}
use mffv.Common.Status.{Outcome, ◌>>◌, return, >>=-tt}
use mffv.Syntax.Stream.{StreamParameters, quant_table_set_index_count}
use mffv.Codec.Symbols.{SymbolReader, SymbolWriter, Channel}
use mffv.Codec.SliceHeader.{
  SliceHeaderValues, any_index_past, is_refused, is_reserved_picture_structure, max_u32, normal_sar,
  read, read_indexes, refuse_if, write, write_indexes, write_values, write_rest, read_rest,
}
use mffv.Codec.Symbols.Steps.{then_unsigned, last_unsigned}
use mathlib.Core.Path.{subst}

-- What the writer and the types of the code ask of a header.
pub record IsHeader (stream : StreamParameters) (values : SliceHeaderValues) : Type 0 where
  pub accepted : is_refused stream.num_h_slices stream.num_v_slices stream values ≡ false
  pub counted : length values.quant_table_set_indexes ≡ quant_table_set_index_count stream
  pub sar_given : (values.sar_num == 0) ≡ (values.sar_den == 0)
  pub grid : (stream.num_h_slices < 2 ^ 32) × (stream.num_v_slices < 2 ^ 32)
  pub few_sets : length stream.quant_table_sets < 2 ^ 32
  pub encodable : (values.sar_num < 2 ^ 63) × (values.sar_den < 2 ^ 63)

-- What `is_refused` lets through.
pub record IsPlaced (columns rows : ℕ) (stream : StreamParameters) (values : SliceHeaderValues)
    : Type 0 where
  pub wide : 1 ≤ values.width
  pub high : 1 ≤ values.height
  pub right : values.x + values.width ≤ columns
  pub below : values.y + values.height ≤ rows
  pub indexes :
      any_index_past (length stream.quant_table_sets) values.quant_table_set_indexes ≡ false
  pub picture : values.picture_structure ≤ 3

pub is_refused_lem :
    (columns rows : ℕ) (stream : StreamParameters) (values : SliceHeaderValues)
    → is_refused columns rows stream values ≡ false
    → IsPlaced columns rows stream values
unfolding is_refused is_reserved_picture_structure
is_refused_lem columns rows stream values h = record {
  wide = ground (arith, h);
  high = ground (arith, h);
  right = ground (arith, h);
  below = ground (arith, h);
  indexes = ground (arith, h);
  picture = ground (arith, h);
}

module _ {W R : Type 0} {writer : SymbolWriter W} {reader : SymbolReader R}
    (channel : Channel writer reader) where
  -- A test that lets the value pass.
  passed :
      {A B : Type 0} (refused : Bool) {w : W → Outcome W A} {k : R → Outcome R B} {a : A} {b : B}
      {m : ℕ}
      → refused ≡ false
      → channel.Codes w a k b m
      → channel.Codes w a (refuse_if reader refused >> k) b m
  unfolding refuse_if
  passed refused h rest = rw h (channel.respects (omega arith) (λ e. refl) (λ c. refl) rest)

  read_indexes-Codes :
      (count : ℕ) (indexes : List ℕ)
      → count < 2 ^ 32
      → any_index_past count indexes ≡ false
      → channel.Codes
          (write_indexes writer indexes)
          tt
          (read_indexes reader count (length indexes))
          indexes
          (127 * length indexes)
  unfolding write_indexes read_indexes any_index_past
  read_indexes-Codes count [] small h = channel.returns tt []
  read_indexes-Codes count (index ∷ indexes) small h =
      let inside : index < count = ground (arith, h) in
      let more : any_index_past count indexes ≡ false = ground (arith, h) in
      channel.respects (omega arith) (λ e. refl) (λ c. refl)
        (then_unsigned channel index _ (127 * length indexes + 0) (omega (arith, inside)) (
          passed (ltb max_u32 index) (ground (arith, inside)) (
            passed (leb count index) (ground (arith, inside)) (
              channel.respects (omega arith) (λ e. >>=-tt (write_indexes writer indexes) e)
                (λ c. refl)
                (channel.composes (write_indexes writer indexes) (λ _. return tt)
                  (read_indexes reader count (length indexes)) (λ rest. return (index ∷ rest))
                  (127 * length indexes) 0 (read_indexes-Codes count indexes small more)
                  (channel.returns tt (index ∷ indexes)))))))

  kept_sar : (part other : ℕ) → (part == 0) ≡ (other == 0) → normal_sar reader part other ≡ part
  unfolding normal_sar
  kept_sar part other h = ground (arith, h)

  rest_coded :
      (stream : StreamParameters) (values : SliceHeaderValues)
      → IsHeader stream values
      → IsPlaced stream.num_h_slices stream.num_v_slices stream values
      → channel.Codes
          (write_rest writer values)
          tt
          (read_rest reader stream values.x values.y (values.width - 1 + 1) (values.height - 1 + 1))
          values
          (127 * length values.quant_table_set_indexes + 381)
  unfolding write_rest read_rest is_reserved_picture_structure
  rest_coded stream values h placed =
      let indexes = values.quant_table_set_indexes in
      channel.composes (write_indexes writer indexes) _
        (read_indexes reader (length stream.quant_table_sets) (quant_table_set_index_count stream))
        _ (127 * length indexes) 381
        (rw (← h.counted)
          (read_indexes-Codes (length stream.quant_table_sets) indexes h.few_sets placed.indexes))
        (then_unsigned channel values.picture_structure _ 254 (omega (arith, placed.picture)) (
          passed _ (ground (arith, placed.picture)) (
            then_unsigned channel values.sar_num _ 127 h.encodable.0 (
              last_unsigned channel values.sar_den _ h.encodable.1 (
                subst (λ (b : SliceHeaderValues). channel.Codes (return tt) tt (return same) b 0)
                  restored (channel.returns tt same))))))
    where
      same : SliceHeaderValues
      same = record values {
        width = values.width - 1 + 1;
        height = values.height - 1 + 1;
        sar_num = normal_sar reader values.sar_num values.sar_den;
        sar_den = normal_sar reader values.sar_den values.sar_num;
      }

      wide : values.width - 1 + 1 ≡ values.width
      wide = omega (arith, placed.wide)

      high : values.height - 1 + 1 ≡ values.height
      high = omega (arith, placed.high)

      restored : same ≡ values
      restored = λ i. record values {
        width = wide i;
        height = high i;
        sar_num = kept_sar values.sar_num values.sar_den h.sar_given i;
        sar_den = kept_sar values.sar_den values.sar_num (sym h.sar_given) i;
      }

  values_coded :
      (stream : StreamParameters) (values : SliceHeaderValues)
      → IsHeader stream values
      → IsPlaced stream.num_h_slices stream.num_v_slices stream values
      → channel.Codes
          (write_values writer values)
          tt
          (read reader stream)
          values
          (127 * (7 + length values.quant_table_set_indexes))
  unfolding write_values read
  values_coded stream values h placed =
      let n = 127 * length values.quant_table_set_indexes in
      let wide = placed.wide in
      let high = placed.high in
      let right = placed.right in
      let below = placed.below in
      channel.respects {n = 127 + (127 + (127 + (127 + (n + 381))))} (omega arith) (λ e. refl)
        (λ c. refl)
        (then_unsigned channel values.x _ (127 + (127 + (127 + (n + 381))))
          (omega (arith, right, wide, h.grid.0))
          (passed _ (ground (arith, right, wide, h.grid.0)) (
            then_unsigned channel values.y _ (127 + (127 + (n + 381)))
              (omega (arith, below, high, h.grid.1))
              (passed _ (ground (arith, below, high, h.grid.1)) (
                then_unsigned channel (values.width - 1) _ (127 + (n + 381))
                  (omega (arith, right, wide, h.grid.0))
                  (passed _ (ground (arith, right, wide, h.grid.0)) (
                    then_unsigned channel (values.height - 1) _ (n + 381)
                      (omega (arith, below, high, h.grid.1))
                      (passed _ (ground (arith, below, high, h.grid.1)) (
                        passed _ (ground (arith, right, below, wide, high))
                          (rest_coded stream values h placed))))))))))

  -- Over every channel of symbols, a header that the checks accept, with one index for each slot,
  -- with both parts of the aspect ratio 0 or neither, on a grid and a number of table sets below
  -- 2^32 and with an aspect ratio below 2^63, is written with room for 127 bytes for each of its
  -- values, and read back.
  pub read-write-Codes :
      (stream : StreamParameters) (values : SliceHeaderValues)
      → IsHeader stream values
      → channel.Codes
          (write writer stream values)
          tt
          (read reader stream)
          values
          (127 * (7 + length values.quant_table_set_indexes))
  unfolding write
  read-write-Codes stream values h =
      let placed =
        is_refused_lem stream.num_h_slices stream.num_v_slices stream values h.accepted in
      let same_count : (length values.quant_table_set_indexes == quant_table_set_index_count stream)
          ≡ true =
        ground (arith, h.counted) in
      let sar_fits : (not (values.sar_num == 0) && values.sar_den == 0
            || values.sar_num == 0 && not (values.sar_den == 0))
          ≡ false =
        ground (arith, h.sar_given) in
      channel.respects (omega arith) (λ e. rw (h.accepted, same_count, sar_fits) refl) (λ c. refl)
        (values_coded stream values h placed)
