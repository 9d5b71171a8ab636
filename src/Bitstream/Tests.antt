-- ===== src/Bitstream/Tests.antt =====
-- The theorems on the bit reader and the bit writer at concrete inputs.
use mffv.Common.{ℕ, ◌≡◌, arith, false, List, [], ◌∷◌}
use mffv.Common.Status.{ok}
use mffv.Bitstream.Reader.{BitReader, open_reader}
use mffv.Bitstream.Writer.{BitWriter, reset}
use mffv.Bitstream.RoundTrip.{Field, pack, read_fields, values, read_fields-pack}

abbrev blank : BitWriter
blank = record { bytes = []; bit_position = 0; finalized = false; max_size = 1000 }

abbrev fields : List Field
fields = (3, 5) ∷ (10, 1000) ∷ (1, 0) ∷ []

read_fields-pack_example :
    (bytes : List ℕ) × (w' : BitWriter) × (r : BitReader) × (pack fields (reset blank)
      ≡ ok bytes w')
    × (read_fields fields (open_reader bytes) ≡ ok (values fields) r)
read_fields-pack_example =
    read_fields-pack fields blank
      (omega arith, omega arith, (omega arith, omega arith, (omega arith, omega arith, tt)))
      (unfold reset in (omega arith, omega arith))
