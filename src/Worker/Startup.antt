-- ===== src/Worker/Startup.antt =====
-- The check that the worker starts with (backend/ingestion/worker.py).
use researchmind_mcp.Prelude.{ℕ, ◌+◌, ltb, if◌then◌else◌}
use researchmind_mcp.Exec.{Result, ok, err, other}
use researchmind_mcp.Search.{special_tokens_per_sequence}

-- The RuntimeError is `other`.
unfoldable pub refuse_chunks_the_model_cannot_read : ℕ → ℕ → Result (Unit {0})
refuse_chunks_the_model_cannot_read chunk_size max_input_tokens =
    if ltb max_input_tokens (chunk_size + special_tokens_per_sequence) then err other else ok tt
