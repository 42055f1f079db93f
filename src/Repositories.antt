-- ===== src/Repositories.antt =====
-- backend/db/repositories: what the methods share (_identifiers.py). A malformed identifier is
-- treated as one that no row has.
pub mod Documents
pub mod Pages
pub mod Chunks
pub mod Users
use researchmind_mcp.Prelude.{ℕ, String, Bool, Option, none, some, ◌&&◌, ◌==◌, is_none}
use researchmind_mcp.Runtime.{Runtime}
use researchmind_mcp.Database.{DocumentRow}

abbrev pub parse_id : Runtime → String → Option ℕ
parse_id rt value = rt.parse_uuid value

module _ {A : Type 0} where
  -- target, owner = parse_id(document_id), parse_id(user_id)
  -- if target is None or owner is None: return absent
  abbrev pub with_ids : Option ℕ → Option ℕ → A → (ℕ → ℕ → A) → A
  with_ids none owner absent k = absent
  with_ids (some target) none absent k = absent
  with_ids (some target) (some owner) absent k = k target owner

-- WHERE id = :target AND user_id = :owner AND deleted_at IS NULL
abbrev pub owned_live : ℕ → ℕ → DocumentRow → Bool
owned_live target owner row = row.id == target && row.user_id == owner && is_none row.deleted_at
