-- ===== src/Witnesses/Uploads.antt =====
-- The theorems on uploads, with a small PDF.
use researchmind_mcp.Prelude.{◌≡◌, refl, some, [], ◌∷◌}
use researchmind_mcp.Exec.Keeps.{Ends}
use researchmind_mcp.Storage.Stored.{Stored}
use researchmind_mcp.Storage.Safe.{Has}
use researchmind_mcp.Uploads.Validation.{read_capped, validate_pdf, validated, display_filename}
use researchmind_mcp.Uploads.Validation.Checked.{
  read_capped-whole, capped, whole, validate_pdf-Accepted, Accepted,
}
use researchmind_mcp.Uploads.Validation.Names.{display_filename-Displayable, Displayable}
use researchmind_mcp.Uploads.{upload_and_process}
use researchmind_mcp.Uploads.Blobs.{upload_and_process-Stored}
use researchmind_mcp.Uploads.Once.{upload_and_process-Unique}
use researchmind_mcp.Database.Session.Rules.{Holds}
use researchmind_mcp.Repositories.Documents.Recording.Unique.{Unique}
use researchmind_mcp.Samples.{calm}
use researchmind_mcp.Samples.Search.{asker}
use researchmind_mcp.Samples.Uploads.{
  document_service, plain_files, small_pdf, path_name, with_object,
}

read_capped-whole_example :
    read_capped 9 [] (small_pdf ∷ small_pdf ∷ []) ≡ capped 9 (whole (small_pdf ∷ small_pdf ∷ []))
read_capped-whole_example = read_capped-whole 9 (small_pdf ∷ small_pdf ∷ [])

display_filename-Displayable_example : Displayable plain_files (98 ∷ 46 ∷ 112 ∷ 100 ∷ 102 ∷ [])
unfolding display_filename
display_filename-Displayable_example =
    display_filename-Displayable plain_files (some path_name) (98 ∷ 46 ∷ 112 ∷ 100 ∷ 102 ∷ []) refl

validate_pdf-Accepted_example :
    Accepted calm plain_files small_pdf 2 (validated calm plain_files small_pdf 1)
unfolding validate_pdf
validate_pdf-Accepted_example =
    validate_pdf-Accepted calm plain_files small_pdf 2 (validated calm plain_files small_pdf 1) refl

upload_and_process-Stored_example :
    Ends
      (λ outcome. Has (Stored "k" small_pdf))
      (λ e. Has (Stored "k" small_pdf))
      (upload_and_process calm document_service (some path_name) (small_pdf ∷ []) asker with_object)
upload_and_process-Stored_example =
    (upload_and_process-Stored calm document_service "k" small_pdf (λ t blobs h. h) (some path_name)
        (small_pdf ∷ []) asker).at
      with_object refl

upload_and_process-Unique_example :
    Ends
      (λ outcome. Holds Unique)
      (λ e. Holds Unique)
      (upload_and_process calm document_service (some path_name) (small_pdf ∷ []) asker with_object)
upload_and_process-Unique_example =
    (upload_and_process-Unique calm (λ t d h. h) document_service (some path_name) (small_pdf ∷ [])
        asker).at
      with_object (refl, tt)
