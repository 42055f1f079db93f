-- ===== src/StorageKey.antt =====
-- `document_storage_key` of shared/interfaces/storage.py.
use Prim.Native.Char.{code}
use Prim.Native.String.{◌++◌}
use researchmind_mcp.Prelude.{
  ℕ, String, Bool, Option, none, some, List, [], ◌∷◌, ◌&&◌, ◌||◌, ◌==◌, leb, all, length,
  if◌then◌else◌,
}
use researchmind_mcp.Runtime.{Runtime}

abbrev pub codes : String → List ℕ
codes String.[] = []
codes (String.◌∷◌ c s) = code c ∷ codes s

-- [0-9a-f]
abbrev pub is_hex : ℕ → Bool
is_hex c = (leb b'0' c && leb c b'9') || (leb b'a' c && leb c b'f')

-- `_SHA256_HEX.fullmatch`
unfoldable pub is_sha256_hex : String → Bool
is_sha256_hex s = length (codes s) == 64 && all is_hex (codes s)

-- `{owner}/{content_hash}.pdf`, or None for the ValueError.
unfoldable pub document_storage_key : Runtime → String → String → Option String
document_storage_key rt owner_id content_hash = elim (rt.parse_uuid owner_id) [
  | none ↦ none
  | some owner ↦
      if is_sha256_hex content_hash
      then some (rt.print_uuid owner ++ "/" ++ content_hash ++ ".pdf")
      else none
]
