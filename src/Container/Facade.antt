-- ===== src/Container/Facade.antt =====
-- The rest of `ALICEText` in `src/lib.rs` and of `TunedCompressor` in `src/tuned_compressor.rs`: the
-- functions for a single call, and those with a writer or a reader.
use alice_text.Prelude.{◌≡◌, refl, ap, List, Option, some, length, sym, ◌∙◌}
use alice_text.Bytes.{Bytes}
use alice_text.Error.{Result, ok, io, encoding_error, or_error, ◌>>=◌}
use alice_text.Error.Laws.{ok-injective, bind-ok, or_error-ok}
use alice_text.Wire.Tuned.{CompressionMode, balanced, fast, best, zstd_level}
use alice_text.Columnar.Foreign.{Foreign}
use alice_text.Columnar.Matches.{Group}
use alice_text.Columnar.Encoder.{encode}
use alice_text.Container
use alice_text.Container.{Codecs, TunedCompressor, TunedStats, finish, with_stats}
use alice_text.Container.Entry
use alice_text.Container.Entry.{AliceText, CompressionStats, updated, stats_of}

unfoldable pub default_balanced : TunedCompressor
default_balanced = Container.new balanced

unfoldable pub fast_compressor : TunedCompressor
fast_compressor = Container.new fast

unfoldable pub best_compressor : TunedCompressor
best_compressor = Container.new best

updated-last_stats :
    (a : AliceText) (c : TunedCompressor) (s : TunedStats)
    → c.last_stats ≡ some s
    → (updated a c).last_stats ≡ some (stats_of s)
unfolding updated
updated-last_stats a c s e = rw (e, updated) refl

-- What `compress_to` leaves behind. Without statistics, its `unwrap` panics.
pub record Written (Writer : Type 0) : Type 0 where
  pub stats : Option CompressionStats
  pub writer : Writer
  pub alice : AliceText

module _ (foreign : Foreign) (codecs : Codecs foreign) where
  -- `write_all` is what the writer does with some bytes; a failure is `none`.
  unfoldable pub compress_to :
      (Bytes → List (List Group))
      → {W : Type 0} → (Bytes → W → Option W)
      → AliceText
      → Bytes
      → W
      → Result (Written W)
  unfolding Entry.compress
  compress_to captures_iter write_all a whole w = do
    r ← Entry.compress foreign codecs captures_iter a whole
    w' ← or_error (write_all r.0 w) io
    ok (record { stats = r.1.last_stats; writer = w'; alice = r.1 })

  -- `read_to_end` gives all bytes of the reader, or fails.
  unfoldable pub decompress_from : (Bytes → Result Bytes) → Option Bytes → Result Bytes
  unfolding Entry.decompress
  decompress_from decode_from_bytes read_to_end = do
    bytes ← or_error read_to_end io
    Entry.decompress foreign codecs decode_from_bytes bytes

  -- `compress` and `decompress`, each with an instance of its own.
  unfoldable pub compress_once : (Bytes → List (List Group)) → Bytes → Result Bytes
  compress_once captures_iter whole = do
    r ← Entry.compress foreign codecs captures_iter Entry.new whole
    ok r.0

  unfoldable pub decompress_once : (Bytes → Result Bytes) → Bytes → Result Bytes
  decompress_once decode_from_bytes bytes = Entry.decompress foreign codecs decode_from_bytes bytes

  unfoldable pub compress_tuned :
      (Bytes → List (List Group)) → Bytes → CompressionMode → Result Bytes
  compress_tuned captures_iter whole mode = do
    r ← Container.compress foreign codecs captures_iter (Container.new mode) whole
    ok r.0

  unfoldable pub decompress_tuned : Bytes → Result Bytes
  decompress_tuned bytes = Container.decompress foreign codecs bytes

  -- A compression that succeeds has statistics, of the text and of the bytes.
  compress-last_stats :
      (captures_iter : Bytes → List (List Group)) (c : TunedCompressor) (whole : Bytes)
      {r : Bytes × TunedCompressor}
      → Container.compress foreign codecs captures_iter c whole ≡ ok r
      → (s : TunedStats) × (r.1.last_stats ≡ some s)
        × (s.original_size ≡ length whole)
        × (s.compressed_size ≡ length r.0)
  unfolding Container.compress finish with_stats
  compress-last_stats captures_iter c whole {r} h =
      let p = encode foreign captures_iter whole in
      let (b, _, h₁) =
        bind-ok (or_error (codecs.serialize p) (encoding_error "Bincode error")) _ h in
      let (z, _, h₂) =
        bind-ok (or_error (codecs.encode_all (zstd_level c.mode) b) (encoding_error "Zstd error")) _
          h₁ in
      let done = finish foreign codecs c whole p z in
      let e : done ≡ r = ok-injective h₂ in
      (
        record {
          original_size = length whole;
          compressed_size = length done.0;
          skeleton_size = length p.skeleton_tokens;
          pattern_count = length p.placeholder_map;
        },
        ap (λ s. s.1.last_stats) (sym e),
        refl,
        ap (λ s. length s.0) e,
      )

  -- Let `compress_to` succeed. Then it does not panic: there are statistics, and they name the
  -- length of the text and the number of bytes that were given to the writer.
  pub compress_to-never_panics :
      (captures_iter : Bytes → List (List Group)) {W : Type 0} (write_all : Bytes → W → Option W)
      (a : AliceText) (whole : Bytes) (w : W) (written : Written W)
      → compress_to captures_iter write_all a whole w ≡ ok written
      → (s : CompressionStats) × (output : Bytes) × (written.stats ≡ some s)
        × (write_all output w ≡ some written.writer)
        × (s.original_size ≡ length whole)
        × (s.compressed_size ≡ length output)
  unfolding compress_to Entry.compress updated stats_of
  compress_to-never_panics captures_iter write_all a whole w written h =
      let (r, er, h₁) = bind-ok (Entry.compress foreign codecs captures_iter a whole) _ h in
      let (w', ew, h₂) = bind-ok (or_error (write_all r.0 w) io) _ h₁ in
      let (t, et, h₃) =
        bind-ok (Container.compress foreign codecs captures_iter a.tuned whole) _ er in
      let (s, es, original, packed) = compress-last_stats captures_iter a.tuned whole et in
      let e = ok-injective h₂ in
      let q = ok-injective h₃ in
      (
        stats_of s,
        r.0,
        ap (λ v. v.stats) (sym e)
            ∙ ap (λ v. v.1.last_stats) (sym q)
            ∙ updated-last_stats a t.1 s es,
        or_error-ok (write_all r.0 w) io ew ∙ ap (λ v. some v.writer) e,
        original,
        packed ∙ ap (λ v. length v.0) q,
      )
