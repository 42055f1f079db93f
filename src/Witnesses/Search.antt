-- ===== src/Witnesses/Search.antt =====
-- The theorems on the vector store and on search, in a world with one ready document.
use researchmind_mcp.Prelude.{ℕ, ◌≡◌, refl, none, some, List, [], ◌∷◌}
use researchmind_mcp.Models.{Vector, VectorRecord}
use researchmind_mcp.Exec.Keeps.{Ends}
use researchmind_mcp.Runtime.{reply}
use researchmind_mcp.Database.{Db}
use researchmind_mcp.Database.Session.Rules.{Holds}
use researchmind_mcp.Ingestion.VectorWrites.{belongs_to}
use researchmind_mcp.Vectors.{VectorMatch, match_value, match_any, owned_by, search}
use researchmind_mcp.Vectors.Payload.{as_mapping, from_mapping, from_mapping-as_mapping}
use researchmind_mcp.Vectors.Owners.{
  admits, owned_by-admits, search-Searched, Searched, StoreFailure,
}
use researchmind_mcp.Search
use researchmind_mcp.Search.Sound.{search-Retrieved, Retrieved, Unsearched}
use researchmind_mcp.Samples.{calm}
use researchmind_mcp.Samples.Search.{payload, client, search_service, question, asker, searched}

from_mapping-as_mapping_example : from_mapping (as_mapping payload) ≡ some payload
from_mapping-as_mapping_example = from_mapping-as_mapping payload

abbrev stored : VectorRecord
stored = record { id = "xxxxxxxxx"; vector = 5 ∷ []; payload = payload }

owned_by-admits_example :
    admits
      (match_value "user_id" "xxx" ∷ match_any "document_id" ("xxxxxxx" ∷ []) ∷ [])
      (as_mapping payload)
    ≡ belongs_to "xxxxxxx" "xxx" stored
unfolding owned_by
owned_by-admits_example = owned_by-admits "xxx" "xxxxxxx" stored _ refl

-- The one document is the sample's.
abbrev Same : Db → Type 0
Same d = d ≡ searched.db

search-Searched_example :
    Ends
      (λ ms w. Searched calm Same client (5 ∷ []) "xxx" 0 none 4 ms × Holds Same w)
      (λ e w. StoreFailure e × Holds Same w)
      (search client (5 ∷ []) "xxx" 4 0 none searched)
search-Searched_example =
    (search-Searched calm Same client (5 ∷ []) "xxx" 0 none 4).at searched (refl, tt)

search-Retrieved_example :
    Ends
      (λ results w.
        ((t : ℕ) × (vector : Vector) × (found : List VectorMatch) × (search_service.vector_search t
              vector "xxx" 5 0 none
            ≡ reply found)
          × Retrieved calm search_service 3 found w.db results)
        × Holds Same w)
      (λ e w. Unsearched calm search_service 3 e × Holds Same w)
      (Search.search calm search_service question asker searched)
search-Retrieved_example =
    (search-Retrieved calm search_service 3 Same (λ t d h. h) asker refl question).at searched
      (refl, tt)
