-- ===== src/Unicode/Table.antt =====
-- The decomposition table of `src/unicode_norm.rs` (`DECOMPOSITION_TABLE`), entry by entry.
use alice_text.Prelude.{ℕ, List, [], ◌∷◌}

-- A composed character, its base character and its combining character, as code points.
pub data Entry : Type 0 where
  entry : ℕ → ℕ → ℕ → Entry

unfoldable pub decomposition_table : List Entry
decomposition_table =
    entry 0x00c0 b'A' 0x0300
    ∷ entry 0x00c1 b'A' 0x0301
    ∷ entry 0x00c2 b'A' 0x0302
    ∷ entry 0x00c3 b'A' 0x0303
    ∷ entry 0x00c4 b'A' 0x0308
    ∷ entry 0x00c5 b'A' 0x030a
    ∷ entry 0x00c7 b'C' 0x0327
    ∷ entry 0x00c8 b'E' 0x0300
    ∷ entry 0x00c9 b'E' 0x0301
    ∷ entry 0x00ca b'E' 0x0302
    ∷ entry 0x00cb b'E' 0x0308
    ∷ entry 0x00cc b'I' 0x0300
    ∷ entry 0x00cd b'I' 0x0301
    ∷ entry 0x00ce b'I' 0x0302
    ∷ entry 0x00cf b'I' 0x0308
    ∷ entry 0x00d1 b'N' 0x0303
    ∷ entry 0x00d2 b'O' 0x0300
    ∷ entry 0x00d3 b'O' 0x0301
    ∷ entry 0x00d4 b'O' 0x0302
    ∷ entry 0x00d5 b'O' 0x0303
    ∷ entry 0x00d6 b'O' 0x0308
    ∷ entry 0x00d9 b'U' 0x0300
    ∷ entry 0x00da b'U' 0x0301
    ∷ entry 0x00db b'U' 0x0302
    ∷ entry 0x00dc b'U' 0x0308
    ∷ entry 0x00dd b'Y' 0x0301
    ∷ entry 0x00e0 b'a' 0x0300
    ∷ entry 0x00e1 b'a' 0x0301
    ∷ entry 0x00e2 b'a' 0x0302
    ∷ entry 0x00e3 b'a' 0x0303
    ∷ entry 0x00e4 b'a' 0x0308
    ∷ entry 0x00e5 b'a' 0x030a
    ∷ entry 0x00e7 b'c' 0x0327
    ∷ entry 0x00e8 b'e' 0x0300
    ∷ entry 0x00e9 b'e' 0x0301
    ∷ entry 0x00ea b'e' 0x0302
    ∷ entry 0x00eb b'e' 0x0308
    ∷ entry 0x00ec b'i' 0x0300
    ∷ entry 0x00ed b'i' 0x0301
    ∷ entry 0x00ee b'i' 0x0302
    ∷ entry 0x00ef b'i' 0x0308
    ∷ entry 0x00f1 b'n' 0x0303
    ∷ entry 0x00f2 b'o' 0x0300
    ∷ entry 0x00f3 b'o' 0x0301
    ∷ entry 0x00f4 b'o' 0x0302
    ∷ entry 0x00f5 b'o' 0x0303
    ∷ entry 0x00f6 b'o' 0x0308
    ∷ entry 0x00f9 b'u' 0x0300
    ∷ entry 0x00fa b'u' 0x0301
    ∷ entry 0x00fb b'u' 0x0302
    ∷ entry 0x00fc b'u' 0x0308
    ∷ entry 0x00fd b'y' 0x0301
    ∷ entry 0x00ff b'y' 0x0308
    ∷ entry 0x0100 b'A' 0x0304
    ∷ entry 0x0101 b'a' 0x0304
    ∷ entry 0x0102 b'A' 0x0306
    ∷ entry 0x0103 b'a' 0x0306
    ∷ entry 0x0106 b'C' 0x0301
    ∷ entry 0x0107 b'c' 0x0301
    ∷ entry 0x010c b'C' 0x030c
    ∷ entry 0x010d b'c' 0x030c
    ∷ entry 0x010e b'D' 0x030c
    ∷ entry 0x010f b'd' 0x030c
    ∷ entry 0x0112 b'E' 0x0304
    ∷ entry 0x0113 b'e' 0x0304
    ∷ entry 0x011a b'E' 0x030c
    ∷ entry 0x011b b'e' 0x030c
    ∷ entry 0x011e b'G' 0x0306
    ∷ entry 0x011f b'g' 0x0306
    ∷ entry 0x012a b'I' 0x0304
    ∷ entry 0x012b b'i' 0x0304
    ∷ entry 0x0143 b'N' 0x0301
    ∷ entry 0x0144 b'n' 0x0301
    ∷ entry 0x0147 b'N' 0x030c
    ∷ entry 0x0148 b'n' 0x030c
    ∷ entry 0x014c b'O' 0x0304
    ∷ entry 0x014d b'o' 0x0304
    ∷ entry 0x0158 b'R' 0x030c
    ∷ entry 0x0159 b'r' 0x030c
    ∷ entry 0x015a b'S' 0x0301
    ∷ entry 0x015b b's' 0x0301
    ∷ entry 0x0160 b'S' 0x030c
    ∷ entry 0x0161 b's' 0x030c
    ∷ entry 0x016a b'U' 0x0304
    ∷ entry 0x016b b'u' 0x0304
    ∷ entry 0x017d b'Z' 0x030c
    ∷ entry 0x017e b'z' 0x030c
    ∷ []
