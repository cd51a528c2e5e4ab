-- ===== src/Lib.antt =====
-- ALICE-Text: a compressor for logs and other text with regular parts. A text is split by pattern
-- matches into a skeleton with numbered placeholders and columns of typed values; skeleton and
-- columns are serialised and compressed. Beside it stand a Unicode normaliser, a dialogue store,
-- an arithmetic coder and a query engine over the column file format.
--
-- Files and the code they are about:
--
-- Unicode (src/unicode_norm.rs). A text is the list of its code points. Table holds
-- `DECOMPOSITION_TABLE`; the parent the functions, under the names of the source. The bubble sort
-- of `canonical_order` keeps the characters before its index reversed, so that a swap with the
-- left neighbour is a step of `sift`. Facts reads off the table what every entry satisfies;
-- Ordering is about `canonical_order`, Normal about the normal forms, Strip about `strip_accents`,
-- Runs has runs.
--
-- Columnar (src/columnar_encoder.rs, and of src/tuned_pattern_learner.rs `find_matches` and
-- `extract_skeleton`). A text is the list of its bytes. Skeleton is `parse_skeleton` and the loop
-- of `restore` over the tokens; the loop over the characters is a fold of `scan_char` over a state
-- that says whether a brace is open. Timestamps is `TimestampColumn`; LogLevel, Uuid and Text
-- convert single values. Payload is `ColumnarPayload`: `place` is the `match` of `add_match`,
-- `arms` are the sixteen arms of `get_value_fast`. Matches is `find_matches`, and Encoder composes
-- them: `extract_skeleton`, then `add_match` for each match, then `restore`. What the code takes
-- from elsewhere is the record Foreign (`f64`, network addresses, chrono, `to_uppercase`), and for
-- the fused regular expression the function `captures_iter`; nothing is assumed of them but that a
-- captured group is a non-empty stretch of the text. An `i64` of milliseconds is an integer
-- without bound; an index of 32 bits is taken modulo 2^32.
--
-- Container (src/tuned_compressor.rs, src/lib.rs) puts the encoded columns behind a header:
-- `frame` is the layout of the file, `compress` passes the compressor along with its statistics,
-- and Entry is `ALICEText`, which sends a file of version 2 or later to it. Bincode and Zstd are
-- the record Codecs; that they read back what they wrote is the hypothesis IsCodecs. The decoder
-- of version 1 is an argument. Facade has the functions for one call and those with a writer or a
-- reader; there a panic of `unwrap` is a result without statistics.
--
-- Learner (src/pattern_learner.rs): `learn` and the database it fills; the map from types to
-- patterns is a list of pairs. What each regular expression finds is an argument. Counts is about
-- the numbers, Examples about the examples, and Top has `top_patterns` and the conversions to
-- JSON.
--
-- TunedLearner (src/tuned_pattern_learner.rs) is what Columnar/Matches leaves: the table of
-- patterns, `restore_text` and `get_stats`, which Stats is about.
--
-- Entropy (src/entropy_estimator.rs): the formulas over a parameter Floats, and the counts of
-- bytes, which Counts is about.
--
-- Coder (src/arithmetic_coder.rs). Model is `FrequencyModel`, its maps as lists; Interval has what
-- both sides do to the bounds, Encoder and Decoder are the two sides under the names of the
-- source. The rounds of `normalize` are told apart by Branch. Stream says what the two sides
-- share: a run, the rounds and narrowings over some symbols, and the bits it emits.
-- Encoder/Packing and Encoder/Writes relate the bytes written to those bits, Decoder/Reads and
-- Decoder/Sees the bytes read; RoundTrip puts the sides together. Decoder/Code and Decoder/Total
-- are about inputs that no encoder wrote, Fuel about the loops. Sums of counts (`u64`) are numbers
-- without bound: they count symbols of one text. The pending bits (`u32`) wrap around; a symbol
-- adds at most 32 of them. The products are `u128` in the source, and exact.
--
-- Dialogue (src/dialogue.rs). A text is the list of its code points, a map a list of pairs.
-- Speakers is `SpeakerDictionary`, Table `DialogueTable` with the binary search of the standard
-- library written out, Locales the two tables of other languages, Archive `DialogueCompressor`,
-- for which Bincode and Zstd are the record Codecs. Search and Lookup are about finding an entry,
-- Speakers/Index and Speakers/Rebuild about the index that is not serialised, Locales/Overrides
-- about the fallback.
--
-- FormatV3 (src/format_v3.rs) is the file of separate columns. The parent reads the header and the
-- directory; a reader that can seek is a Cursor, the bytes and a position. Values says which type
-- of data each of the eighteen columns holds, `Value`, and takes Bincode for each type and Zstd as
-- the record Codecs. The writer's eighteen calls of `add_column` are a recursion on `write_order`,
-- and the arms of the two readers are `take_partial` and `assign`. IsCodecs is what the codecs
-- promise. Layout is about the bytes before the data, Written about the columns that are written,
-- Assembled about the file, Success about codecs that do not fail, RoundTrip about reading all
-- columns, Requested and Selective about reading some, Accepted about files in general. Sizes of
-- 32 bits and offsets of 64 bits wrap around.
--
-- Query (src/query_engine.rs) answers from such a file. The parent has the operators, the scans
-- and the names of columns; Text has the tests on strings, byte by byte, and `HashMap` as a list
-- of pairs; Values shows values as strings and has the dispatch of `filter_op`; Results, Engine
-- and Builder have the types of these names. The tests on `f64` and the parsers of moments are the
-- record Services. Scan, Names and Strings are about the parent, Agree about the two ways to show
-- a value, and Answers, Wording, Cells and Rows about an engine on a compressed text. A mapped
-- file is its bytes; columns that the source reads in parallel are read one after the other, and
-- of several that fail the first gives the error.
--
-- Search (src/search_bridge.rs) is the search in compressed bytes, which it decompresses with
-- Container; the FM index of the crate alice_search is the record FmIndex, and Hits has what is
-- taken of it. Sums of `usize` wrap around at 2^64.
--
-- Wire (src/exception_encoder.rs, src/exception_decoder.rs, src/tuned_compressor.rs,
-- src/format_v3.rs): the headers of the three file formats and the entries of the column
-- directory, as bytes, with the errors of a short or invalid input. Exception/Payload is the
-- binary payload of matches, Exception/Files the files of the exception encoding and
-- Exception/Encode its encoder, with `find_matches`, `replace_patterns` and `restore_patterns` of
-- src/pattern_learner.rs; the position in the data is the bytes left behind it. LZMA and the
-- conversions of bytes to a `String` are arguments.
--
-- Decimal and Bytes model what the standard library does for `to_string`, `parse::<u32>` and the
-- little-endian conversions. `to_decimal` runs on fuel, one more than the number, and a number has
-- no more digits than that. Error is `ALICETextError` of src/lib.rs.
--
-- The rounds of `normalize` in Coder run on 32 units of fuel: each round doubles the width of the
-- interval, which is at least one and never more than 2^31. The binary search in Dialogue runs on
-- as much fuel as there are entries, and each step takes one away at least; the textual
-- replacement of `restore_patterns` and `restore_text` on as much as the text is long. Every other
-- loop of the modelled code is a recursion on a list or a count.
--
-- Not modelled: the rates among the statistics of src/lib.rs, src/tuned_compressor.rs and
-- src/query_engine.rs, which are floating-point quotients; the C and Python interfaces, the
-- bridges to fonts, voices and machine learning, and the command line, which are glue.
pub mod Prelude
pub mod Unicode
pub mod Bytes
pub mod Error
pub mod Wire
pub mod Dialogue
pub mod Decimal
pub mod Columnar
pub mod Container
pub mod FormatV3
pub mod Query
pub mod Search
pub mod Entropy
pub mod TunedLearner
pub mod Learner
pub mod Coder
