-- ===== src/Query/Text.antt =====
-- What the query engine uses of Rust's strings and of `HashMap`: strings are bytes, compared byte by
-- byte, and a map is an association list.
use alice_text.Prelude.{
  List, [], ◌∷◌, Option, none, some, Bool, true, false, ltb, ◌==◌, same_list, ◌||◌, if◌then◌else◌,
  ◌++◌, ◌&&◌,
}
use Prim.Native.String.{String}
use Prim.Native.Char.{code}
use alice_text.Bytes.{Bytes}

-- The bytes of an ASCII text.
abbrev pub codes : String → Bytes
codes String.[] = []
codes (String.◌∷◌ c s) = code c ∷ codes s

-- `<` of two strings.
unfoldable pub lt_bytes : Bytes → Bytes → Bool
lt_bytes [] [] = false
lt_bytes [] (b ∷ t) = true
lt_bytes (a ∷ s) [] = false
lt_bytes (a ∷ s) (b ∷ t) = ltb a b || a == b && lt_bytes s t

unfoldable pub starts_with : Bytes → Bytes → Bool
starts_with s [] = true
starts_with [] (b ∷ t) = false
starts_with (a ∷ s) (b ∷ t) = a == b && starts_with s t

unfoldable pub ends_with : Bytes → Bytes → Bool
ends_with [] t = same_list [] t
ends_with (a ∷ s) t = same_list (a ∷ s) t || ends_with s t

unfoldable pub contains : Bytes → Bytes → Bool
unfolding starts_with
contains [] t = starts_with [] t
contains (a ∷ s) t = starts_with (a ∷ s) t || contains s t

-- `HashMap::get` and `HashMap::insert`.
module _ {ℓ} {V : Type ℓ} where
  unfoldable pub lookup : Bytes → List (Bytes × V) → Option V
  lookup k [] = none
  lookup k ((j, v) ∷ m) = if same_list j k then some v else lookup k m

  unfoldable pub insert : Bytes → V → List (Bytes × V) → List (Bytes × V)
  insert k v [] = (k, v) ∷ []
  insert k v ((j, w) ∷ m) =
      let rest = insert k v m in if same_list j k then (k, v) ∷ m else (j, w) ∷ rest

-- `join`
unfoldable pub join : Bytes → List Bytes → Bytes
join separator [] = []
join separator (s ∷ []) = s
join separator (s ∷ t ∷ ts) = s ++ (separator ++ join separator (t ∷ ts))
