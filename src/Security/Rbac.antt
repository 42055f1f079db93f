-- ===== src/Security/Rbac.antt =====
-- backend/security/rbac.py: which permissions a role holds.
use researchmind_mcp.Prelude.{◌≡◌, refl, Bool, true, false, List, [], ◌∷◌, any}
use researchmind_mcp.Models.User.{UserRole, admin, researcher, viewer}

pub data Permission : Type 0 where
  document_read document_write agent_run search_query workspace_read workspace_write : Permission

abbrev pub permission_eq : Permission → Permission → Bool
permission_eq document_read document_read = true
permission_eq document_write document_write = true
permission_eq agent_run agent_run = true
permission_eq search_query search_query = true
permission_eq workspace_read workspace_read = true
permission_eq workspace_write workspace_write = true
permission_eq _ _ = false

-- frozenset(Permission)
abbrev pub every_permission : List Permission
every_permission =
    document_read ∷ document_write ∷ agent_run ∷ search_query ∷ workspace_read ∷ workspace_write
    ∷ []

unfoldable pub get_permissions : UserRole → List Permission
get_permissions admin = every_permission
get_permissions researcher =
    document_read ∷ document_write ∷ agent_run ∷ search_query ∷ workspace_read ∷ workspace_write
    ∷ []
get_permissions viewer = document_read ∷ search_query ∷ workspace_read ∷ []

unfoldable pub has_permission : UserRole → Permission → Bool
unfolding get_permissions
has_permission role permission = any (permission_eq permission) (get_permissions role)

-- Who may change something: `document:write`, `agent:run`, `workspace:write`.
abbrev pub Mutates : Permission → Type 0
Mutates document_write = Unit {0}
Mutates agent_run = Unit {0}
Mutates workspace_write = Unit {0}
Mutates _ = ⊥

-- What a viewer may do a researcher may, what a researcher may do an administrator may, and a viewer may change nothing.
pub has_permission_ranks :
    (p : Permission)
    → (has_permission viewer p ≡ true → has_permission researcher p ≡ true)
      × (has_permission researcher p ≡ true → has_permission admin p ≡ true)
      × (Mutates p → has_permission viewer p ≡ false)
unfolding has_permission
has_permission_ranks document_read = (λ h. refl, λ h. refl, λ h. elim h [ ])
has_permission_ranks document_write = (λ h. refl, λ h. refl, λ h. refl)
has_permission_ranks agent_run = (λ h. refl, λ h. refl, λ h. refl)
has_permission_ranks search_query = (λ h. refl, λ h. refl, λ h. elim h [ ])
has_permission_ranks workspace_read = (λ h. refl, λ h. refl, λ h. elim h [ ])
has_permission_ranks workspace_write = (λ h. refl, λ h. refl, λ h. refl)
