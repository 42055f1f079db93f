-- ===== src/Exec.antt =====
-- Python methods that await, change the world and raise. What was written before a raise stays
-- written, so the world comes back beside the exception too. (shared/interfaces/*.py and the
-- exception classes of backend/services/ingestion_service.py.)
pub mod Keeps
use researchmind_mcp.Models.Reason.{
  StorageFault, ExtractionFailure, IngestionReason, RejectionReason,
}

-- `uq_documents_user_id_content_hash` and `uq_users_email`
pub data UniqueKey : Type 0 where
  content_per_owner email_address : UniqueKey

-- An exception in flight. `cancelled` is `asyncio.CancelledError`, the only one that
-- `except Exception` does not catch.
pub data Exc : Type 0 where
  cancelled : Exc
  database : Exc
  integrity : Exc
  -- an IntegrityError whose constraint is one of these
  duplicate : UniqueKey → Exc
  lookup_error : Exc
  storage : StorageFault → Exc
  extraction : ExtractionFailure → Exc
  embedding : Exc
  vector_store : Exc
  transient : IngestionReason → Exc
  -- backend/security and backend/services/auth_service.py
  password_policy : Exc
  encoding : Exc
  token : Exc
  authentication : Exc
  email_taken : Exc
  -- 401 and 403 of backend/security/api_security.py
  unauthenticated : Exc
  forbidden : Exc
  -- backend/services/document_service.py
  upload_rejected : RejectionReason → Exc
  not_configured : Exc
  persistence_failed : Exc
  ingestion_unavailable : Exc
  -- backend/services/search_service.py
  invalid_query : Exc
  search_unavailable : Exc
  other : Exc

pub data Result {ℓ} (A : Type ℓ) : Type ℓ where
  ok : A → Result A
  err : Exc → Result A

abbrev pub Exec : Type 0 → Type 0 → Type 0
Exec S A = S → Result A × S

module _ {S A : Type 0} where
  unfoldable pub pure : A → Exec S A
  pure a s = (ok a, s)

  unfoldable pub raise : Exc → Exec S A
  raise e s = (err e, s)

  -- A call that neither awaits nor changes anything.
  unfoldable pub lift : Result A → Exec S A
  lift r s = (r, s)

module _ {S A B : Type 0} where
  abbrev pub continue : Result A → (Exc → Exec S B) → (A → Exec S B) → Exec S B
  continue (ok a) h k s = k a s
  continue (err e) h k s = h e s

  -- try: x = m
  -- except ...: return h
  -- k x, outside the `try`
  unfoldable pub handle : Exec S A → (Exc → Exec S B) → (A → Exec S B) → Exec S B
  unfolding pure raise
  handle m h k s = let (r, s') = m s in continue r h k s'

  infixl 10 ◌>>=◌ ◌>>◌
  unfoldable pub ◌>>=◌ : Exec S A → (A → Exec S B) → Exec S B
  unfolding handle
  m >>= k = handle m raise k

  abbrev pub ◌>>◌ : Exec S A → Exec S B → Exec S B
  m >> k = m >>= λ _. k

module _ {S A : Type 0} where
  -- try: return m
  -- finally: f
  -- An exception of `f` replaces the result of `m`.
  unfoldable pub finally : Exec S A → Exec S (Unit {0}) → Exec S A
  unfolding handle
  finally m f = handle m (λ e. handle f raise (λ _. raise e)) (λ a. handle f raise (λ _. pure a))
