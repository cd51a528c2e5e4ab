-- ===== src/Search.antt =====
-- `src/search_bridge.rs`: the search in a compressed text, by an index of another crate that is
-- built from the text.
pub mod Hits
mod Runs
use alice_text.Prelude.{◌%◌, ◌^◌, ℕ, List, ◌-◌, ◌+◌, map, length}
use Prim.Native.Nat.{min}
use alice_text.Bytes.{Bytes}
use alice_text.Error.{Result, ok, ◌>>=◌}
use alice_text.Columnar.Foreign.{Foreign}
use alice_text.Container.{Codecs}
use alice_text.Container.Entry

pub record SearchHit : Type 0 where
  pub offset : ℕ
  pub context_start : ℕ
  pub context_end : ℕ

-- The index of alice_search: built from the bytes, it counts and locates a pattern.
pub record FmIndex : Type 1 where
  pub Index : Type 0
  pub build : Bytes → Index
  pub count : Index → Bytes → ℕ
  pub locate : Index → Bytes → List ℕ

-- `saturating_sub` is the subtraction that stops at 0; the sums are `usize` and wrap around.
unfoldable pub hit : ℕ → ℕ → ℕ → ℕ → SearchHit
hit text_len query_len context_radius offset = record {
  offset = offset;
  context_start = offset - context_radius;
  context_end = min ((offset + query_len + context_radius) % 2 ^ 64) text_len;
}

module _ (fm : FmIndex) where
  pub record CompressedSearchIndex : Type 0 where
    pub index : fm.Index
    pub text_len : ℕ

  unfoldable pub build_from_text : Bytes → CompressedSearchIndex
  build_from_text s = record { index = fm.build s; text_len = length s }

  -- `format!("Decompress error: {}", e)` keeps the error.
  unfoldable pub build_from_compressed :
      (foreign : Foreign)
      → Codecs foreign
      → (Bytes → Result Bytes)
      → Bytes
      → Result CompressedSearchIndex
  unfolding Entry.decompress
  build_from_compressed foreign codecs decode_from_bytes compressed = do
    s ← Entry.decompress foreign codecs decode_from_bytes compressed
    ok (record { index = fm.build s; text_len = length s })

  unfoldable pub search_count : CompressedSearchIndex → Bytes → ℕ
  search_count c query = fm.count c.index query

  unfoldable pub search : CompressedSearchIndex → Bytes → ℕ → List SearchHit
  unfolding hit
  search c query context_radius =
      map (hit c.text_len (length query) context_radius) (fm.locate c.index query)
