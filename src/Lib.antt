-- ===== src/Lib.antt =====
-- The core of the FFV1 codec mffv1: its bit streams and its two entropy coders.
--
-- A frame is cut into slices; a slice has a header, its samples and a footer. The samples are
-- predicted, and the differences are coded either with an adaptive Golomb-Rice code over a bit stream
-- or with an adaptive binary range coder. A configuration record, with a CRC of its own, carries the
-- parameters of the stream. This library models the coders, the syntax elements, the configuration
-- records and the framing of slices, up to the planes of range-coded samples:
--
--   Common     shared lists, integers, the machine's 32-bit integers (Int32), bit operations,
--              congruences, and Common/Status, the status values of include/mffv1/result.hpp and
--              src/util/status.{hpp,cpp}
--   Bitstream  src/bitstream: Bitstream/Reader is the class BitReader, Bitstream/Writer the class
--              BitWriter; Content gives both as lists of bits, and Put, Writes, Reads and RoundTrip
--              prove the methods against it
--   Golomb     src/entropy/golomb_rice_{reader,writer,context,run}.cpp: Reader, Writer, Context and
--              Run; Code and Signed prove the code words, SignExtend, Valid and Symbols the adaptive
--              symbols, Run/Bounds the run segments
--   Range      src/entropy/range_coder.cpp (Coder, Read), src/entropy/range_encoder.cpp (Encoder,
--              Write, Finish), their scalar contexts (Contexts) and src/mffv1/state_transition.hpp
--              (Transition); Prefix, Steps and Live prove the encoder's interval, Follow and Decide
--              the decoder's registers, Codes, Symbols, Decisions, Trial and RoundTrip the symbols,
--              Closing, Start, Reset and Session a whole payload
--   Util       src/util/rfc_math.cpp (RfcMath) and src/util/crc32.cpp (Crc32)
--   Syntax     src/mffv1: Predictor, ColorTransform, ContextModel (Folding and Quantized are about
--              its sum), and Stream, the parameters of a stream with the grid of its slices
--              (Stream/Geometry), its planes (Stream/Planes) and the comparison of two streams
--              (Stream/Equivalence)
--   Codec      src/codec: Descriptor is src/mffv1/slice_descriptor.hpp; Symbols the interfaces of
--              src/entropy/symbol_{reader,writer}.hpp with the contract `Channel`, which
--              Symbols/RangeChannel fulfils with the range coder; SliceFooter, SliceHeader and
--              PayloadLocator the files slice_footer_*.cpp, slice_header_*.cpp and
--              slice_payload_locator.cpp; Plane the class LineState and the range-coded rows of a
--              plane in slice_decoder.cpp and slice_encoder.cpp; Configuration the files
--              configuration_record_{parser,writer}.cpp with src/mffv1/configuration_parser.cpp:
--              Tables (both sides of the quantization tables), Parser, Writer and Record; Runs
--              describes a table by the lengths of its runs, Contexts and RangeContexts the
--              independent contexts, the RoundTrip modules are about the parts and the parameters,
--              RecordParity, RecordVersion and RecordRoundTrip about the bytes
--   Syntax/Profile is src/mffv1/profile_constraints.hpp and src/mffv1/sample_format.hpp
--
-- A class is a record of its fields; a method is a function from the record to an `Outcome`, the
-- value of the out parameter or a status, with the record as the call leaves it. Out parameters and
-- references (the state of a context in `read_rac` and `write_rac`) are returned. Numbers are
-- natural numbers with the machine's wrap-around written out, `% 2 ^ 32` for the registers of the
-- range coder and `% 2 ^ 64` for the bit reader's value. Signed values are integers; the 32-bit ones
-- of the predictor, which a malformed stream can make overflow, wrap around in two's complement,
-- where the source leaves the result undefined. A byte string is a list of numbers. `max_size` of a
-- vector is a field, since the code asks for it.
--
-- Loops are structural: over the bits left, over the bytes from the last, over the decisions of a
-- symbol. `log2` halves a 64-bit magnitude at most 64 times; `align_loop` steps by 256 below the
-- range, at most `range / 256` times; `derive_k_loop` and `read_exponent` count down to the bounds 31
-- and 62 of the code; the loops over the slices of a frame have a round for each byte, and every slice
-- takes at least the 3 bytes of a footer; `parse_runs` counts down to the value 2^31 that its overflow
-- test refuses whatever the scale is, and `write_runs` has a round for each of the 128 entries. A live
-- state is one from 8 to 248.
--
-- Not modelled: the text of statuses, which a build may switch off; the rows coded with the
-- Golomb-Rice run mode; the RGB rows, the planes of a slice together, and the buffers that rows are
-- read from and stored to; the frame parser and validators; the legacy bitstreams before version 3
-- outside the range coder; threads and vector instructions, which change no result; the public entry
-- points.
pub mod Common
pub mod Bitstream
pub mod Golomb
pub mod Util
pub mod Syntax
pub mod Codec
pub mod Range
