-- ===== src/Runtime.antt =====
-- What the code calls and does not implement: the `uuid` and `hashlib` modules, the faults and
-- the clock of a database connection, and the replies of a collaborator behind a protocol.
-- Each question put to the outside carries the number of the wait, `tick`, so one runtime
-- stands for one course of events, and a theorem over every runtime covers them all.
use researchmind_mcp.Prelude.{ℕ, String, ◌≡◌, Bool, Option, some}
use researchmind_mcp.Models.{Bytes}
use researchmind_mcp.Database.{Db}

-- How a statement sent to PostgreSQL can end other than with its result: the connection fails,
-- or the task is cancelled while it waits.
pub data Fault : Type 0 where
  lost interrupted : Fault

-- `refusal` is the error that the protocol documents, `crash` any other exception.
pub data Reply (E A : Type 0) : Type 0 where
  reply : A → Reply E A
  refusal : E → Reply E A
  crash : Reply E A
  cancel : Reply E A

pub record Runtime : Type 0 where
  -- `uuid.UUID(text)`, and `str(uuid)`
  pub parse_uuid : String → Option ℕ
  pub print_uuid : ℕ → String
  pub parse-print : (u : ℕ) → parse_uuid (print_uuid u) ≡ some u
  -- `uuid.uuid4()`
  pub uuid4 : ℕ → ℕ
  -- `uuid.uuid5(CHUNK_ID_NAMESPACE, "document_id|index|strategy|tokenizer")`
  pub chunk_uuid : String → ℕ → String → String → ℕ
  -- `hashlib.sha256(data).hexdigest()`
  pub sha256 : Bytes → String
  pub fault : ℕ → Option Fault
  -- whether a COMMIT whose reply did not come, because of a fault, has been carried out
  pub landed : ℕ → Bool
  -- `func.now()`
  pub now : ℕ → ℕ
  -- what other transactions have committed since the last one here
  pub others : ℕ → Db → Db
