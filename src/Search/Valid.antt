-- ===== src/Search/Valid.antt =====
-- What a validation of candidates finds: the dict has a candidate exactly where a retrievable
-- chunk has its id, and each of its values is such a chunk's.
use researchmind_mcp.Prelude.{
  ℕ, ◌≡◌, refl, ◌∙◌, sym, ap, subst, String, Bool, true, false, ◌&&◌, ◌||◌, some, List, [], ◌∷◌,
  any, select, is_some, is_empty, str_eq, eq_iff, ◌==◌, ==_iff, Member, All, any_cong, any-select,
  select-Member, Bool-cases, Option-cases, inl, inr,
}
use researchmind_mcp.Exec.Keeps.{Triple, Triple-pure, Triple-if, Triple_mono}
use researchmind_mcp.Runtime.{Runtime}
use researchmind_mcp.Database.{ChunkRow, Db}
use researchmind_mcp.Database.Session.{Reads, World, Statement}
use researchmind_mcp.Database.Session.Rules.{Holds, Stable}
use researchmind_mcp.Database.Session.Reading.{execute_reads, Answers, Lost}
use researchmind_mcp.Repositories.{parse_id}
use researchmind_mcp.Repositories.Chunks.Retrieval.{
  ValidatedChunk, Validated, among, retrievable, select_retrievable, parsed_ids, validated_chunk,
  collect, as_dict, validate_for_retrieval,
}
use researchmind_mcp.Search.{look_up}

or_true : (b : Bool) → (b || true) ≡ true
or_true true = refl
or_true false = refl

or_false : (b : Bool) → (b || false) ≡ b
or_false true = refl
or_false false = refl

and_false : (a b : Bool) → (a && false) ≡ (b && false)
and_false true true = refl
and_false true false = refl
and_false false true = refl
and_false false false = refl

and_right : (a b : Bool) → (a && b) ≡ true → b ≡ true
and_right true b h = h
and_right false b h = cc

any-false : {A : Type 0} (xs : List A) → any (λ _. false) xs ≡ false
any-false [] = refl
any-false (x ∷ xs) = any-false xs

module _ (rt : Runtime) (owner : ℕ) (model_id : String) (dimension : ℕ) (d : Db) where
  -- The value of a retrievable chunk.
  abbrev pub FromRow : ValidatedChunk → Type 0
  FromRow v =
      (row : ChunkRow) × Member row d.chunks
      × (retrievable owner model_id dimension d row ≡ true)
      × (v ≡ validated_chunk rt model_id row)

  -- Some retrievable chunk has this id.
  abbrev pub live : String → Bool
  live id =
      any
        (λ (row : ChunkRow).
          retrievable owner model_id dimension d row && str_eq (rt.print_uuid row.id) id)
        d.chunks

  abbrev Entry : String × ValidatedChunk → Type 0
  Entry e = (e.1.chunk_id ≡ e.0) × FromRow e.1

  collect-Entry :
      (rows : List ChunkRow) (validated : Validated)
      → ((row : ChunkRow)
          → Member row rows
          → Member row d.chunks × (retrievable owner model_id dimension d row ≡ true))
      → All Entry validated
      → All Entry (collect rt model_id rows validated)
  collect-Entry [] validated from good = good
  collect-Entry (row ∷ rows) validated from good =
      let (m, live_row) = from row (inl refl) in
      collect-Entry rows ((rt.print_uuid row.id, validated_chunk rt model_id row) ∷ validated)
        (λ r n. from r (inr n)) ((refl, (row, m, live_row, refl)), good)

  -- What is found under an id is a value of that id.
  pub look_up-Entry :
      (validated : Validated) (id : String) (v : ValidatedChunk)
      → All Entry validated
      → look_up id validated ≡ some v
      → (v.chunk_id ≡ id) × FromRow v
  look_up-Entry [] id v good h = cc
  look_up-Entry (e ∷ es) id v good h = elim (Bool-cases (str_eq e.0 id)) [
    | inl here ↦
        let q = rw here at h in
        let same : e.1 ≡ v = cc in
        let key : v.chunk_id ≡ id =
          ap (λ (x : ValidatedChunk). x.chunk_id) (sym same) ∙ good.0.0 ∙ (eq_iff e.0 id).0 here in
        (key, subst FromRow same good.0.1)
    | inr there ↦ let q = rw there at h in look_up-Entry es id v good.1 q
  ]

  look_up-collect :
      (id : String) (rows : List ChunkRow) (validated : Validated)
      → is_some (look_up id (collect rt model_id rows validated)) ≡ (
          any (λ (row : ChunkRow). str_eq (rt.print_uuid row.id) id) rows
          || is_some (look_up id validated))
  look_up-collect id [] validated = refl
  look_up-collect id (row ∷ rows) validated =
      let next = (rt.print_uuid row.id, validated_chunk rt model_id row) ∷ validated in
      elim (Bool-cases (str_eq (rt.print_uuid row.id) id)) [
        | inl here ↦ look_up-collect id rows next ∙ rw here (or_true _)
        | inr there ↦ look_up-collect id rows next ∙ rw there refl
      ]

  module _ (ids : List String) where
    parsed_ids-among :
        (id : String) (target : ℕ)
        → Member id ids
        → parse_id rt id ≡ some target
        → among (parsed_ids rt ids) target ≡ true
    parsed_ids-among id target m h = go ids m
      where
        go : (xs : List String) → Member id xs → among (parsed_ids rt xs) target ≡ true
        go [] m = elim m [ ]
        go (x ∷ xs) (inl same) =
            let here : parse_id rt x ≡ some target = ap (parse_id rt) (sym same) ∙ h in
            rw (here, (==_iff target target).1 refl) refl
        go (x ∷ xs) (inr m) =
            let rest = go xs m in
            elim (Option-cases (parse_id rt x)) [
              | inl nothing ↦ rw nothing rest
              | inr (t, there) ↦ rw (there, rest) (or_true (t == target))
            ]

    -- Asking for the ids drops no chunk that has one of them.
    asked_live :
        (id : String)
        → Member id ids
        → any
            (λ (row : ChunkRow).
              (among (parsed_ids rt ids) row.id && retrievable owner model_id dimension d row)
              && str_eq (rt.print_uuid row.id) id)
            d.chunks
          ≡ live id
    asked_live id m = any_cong _ _ d.chunks (λ row n. same row)
      where
        same :
            (row : ChunkRow)
            → ((among (parsed_ids rt ids) row.id && retrievable owner model_id dimension d row)
                && str_eq (rt.print_uuid row.id) id)
              ≡ (retrievable owner model_id dimension d row && str_eq (rt.print_uuid row.id) id)
        same row = elim (Bool-cases (str_eq (rt.print_uuid row.id) id)) [
          | inl here ↦
              let is_row : parse_id rt id ≡ some row.id =
                ap rt.parse_uuid (sym ((eq_iff (rt.print_uuid row.id) id).0 here))
                ∙ rt.parse-print row.id in
              rw (parsed_ids-among id row.id m is_row) refl
          | inr there ↦ rw there (and_false _ _)
        ]

    -- The dict has the asked ids of retrievable chunks, and their values.
    pub record Fits (validated : Validated) : Type 0 where
      pub entries : All Entry validated
      pub exact : (id : String) → Member id ids → is_some (look_up id validated) ≡ live id

    abbrev asked : List ℕ → ChunkRow → Bool
    asked targets row = among targets row.id && retrievable owner model_id dimension d row

    abbrev asked_rows : List ChunkRow
    asked_rows = select (asked (parsed_ids rt ids)) d.chunks

    pub collected-Fits : Fits (collect rt model_id asked_rows [])
    collected-Fits = record {
      entries =
          collect-Entry asked_rows []
            (λ row m.
              let (h, n) = select-Member (asked (parsed_ids rt ids)) d.chunks row m in
              (n, and_right (among (parsed_ids rt ids) row.id) _ h))
            tt;
      exact = λ id m.
          look_up-collect id asked_rows []
          ∙ or_false _
          ∙ any-select _ (asked (parsed_ids rt ids)) d.chunks
          ∙ asked_live id m;
    }

    asked_none :
        (id : String) (targets : List ℕ)
        → is_empty targets ≡ true
        → any (λ (row : ChunkRow). asked targets row && str_eq (rt.print_uuid row.id) id) d.chunks
          ≡ false
    asked_none id [] h = any-false d.chunks
    asked_none id (t ∷ ts) h = cc

    pub nothing_asked : is_empty (parsed_ids rt ids) ≡ true → Fits []
    nothing_asked h = record {
      entries = tt;
      exact = λ id m. sym (asked_none id (parsed_ids rt ids) h) ∙ asked_live id m;
    }

module _ (rt : Runtime) (I : Db → Type 0) (stable : Stable rt I) (owner : ℕ) (user_id : String)
    (is_owner : parse_id rt user_id ≡ some owner) (model_id : String) (dimension : ℕ)
    (ids : List String) where
  abbrev Wanted : Validated → World → Type 0
  Wanted v w = Fits rt owner model_id dimension w.db ids v × Holds I w

  abbrev statement : Statement Validated
  statement = as_dict rt model_id (select_retrievable owner model_id dimension (parsed_ids rt ids))

  statement-Reads : Reads statement
  statement-Reads now d = (_, refl)

  answer-Fits : (v : Validated) (w : World) → Answers statement v w.db × Holds I w → Wanted v w
  answer-Fits v w ((now, e), h) =
      let same : collect rt model_id (asked_rows rt owner model_id dimension w.db ids) [] ≡ v =
        cc in
      (
        subst (Fits rt owner model_id dimension w.db ids) same
            (collected-Fits rt owner model_id dimension w.db ids),
        h,
      )

  pub validate_for_retrieval-Fits :
      Triple
        (Holds I)
        (validate_for_retrieval rt ids user_id model_id dimension)
        Wanted
        (λ e w. Lost e × Holds I w)
  unfolding validate_for_retrieval
  validate_for_retrieval-Fits =
      rw (validate_for_retrieval, is_owner)
        (Triple-if (is_empty (parsed_ids rt ids)) _ _
          (λ nothing.
            Triple-pure [] (λ w h. (nothing_asked rt owner model_id dimension w.db ids nothing, h)))
          (λ _.
            Triple_mono (λ w h. h) answer-Fits (λ e w h. h)
              (execute_reads rt I stable statement statement-Reads)))
