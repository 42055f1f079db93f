-- ===== src/Storage/Stored.antt =====
-- What keeps an object that is stored, and what leaves the stored objects alone.
use researchmind_mcp.Prelude.{
  ◌≡◌, refl, ◌∙◌, ap, String, Bool, true, false, some, [], ◌∷◌, find, map_option, str_eq, eq_iff,
  Bool-cases, inl, inr,
}
use researchmind_mcp.Models.{Bytes}
use researchmind_mcp.Exec.{Result, ok}
use researchmind_mcp.Storage.{
  Blobs, DiskEnd, done, failed_before, failed_after, exists, put_sync, delete_sync, without,
}

-- The object under this key has this content.
abbrev pub Stored : String → Bytes → Blobs → Type 0
Stored key content blobs =
    map_option (λ (b : String × Bytes). b.1) (find (λ (b : String × Bytes). str_eq b.0 key) blobs)
    ≡ some content

module _ (key : String) (content : Bytes) where
  Stored-exists : (blobs : Blobs) → Stored key content blobs → exists key blobs ≡ true
  Stored-exists [] h = cc
  Stored-exists (b ∷ blobs) h = elim (Bool-cases (str_eq b.0 key)) [
    | inl here ↦ rw here refl
    | inr there ↦ let rest = rw there at h in rw there (Stored-exists blobs rest)
  ]

  -- A key that is free is another.
  free_differs :
      (other : String) (blobs : Blobs)
      → Stored key content blobs
      → exists other blobs ≡ false
      → str_eq other key ≡ false
  free_differs other blobs h free = elim (Bool-cases (str_eq other key)) [
    | inl same ↦
        let e = Stored-exists blobs h in
        let q : exists other blobs ≡ true =
          ap (λ k. exists k blobs) ((eq_iff other key).0 same) ∙ e in
        cc
    | inr differs ↦ differs
  ]

  pub Stored-without :
      (other : String) (blobs : Blobs)
      → str_eq other key ≡ false
      → Stored key content blobs
      → Stored key content (without other blobs)
  Stored-without other [] differs h = h
  Stored-without other (b ∷ blobs) differs h = elim (Bool-cases (str_eq b.0 other)) [
    | inl gone ↦
        let not_it : str_eq b.0 key ≡ false =
          ap (λ k. str_eq k key) ((eq_iff b.0 other).0 gone) ∙ differs in
        let rest = rw not_it at h in rw gone (Stored-without other blobs differs rest)
    | inr stays ↦ elim (Bool-cases (str_eq b.0 key)) [
      | inl here ↦ rw (stays, here) (let q = rw here at h in q)
      | inr there ↦
          let rest = rw there at h in rw (stays, there) (Stored-without other blobs differs rest)
    ]
  ]

  -- What a call of `put_sync` may return, and that it keeps what is stored.
  abbrev pub PutKeeps : String → Result Bool × Blobs → Type 0
  PutKeeps other r = (r.0 ≡ ok true → str_eq other key ≡ false) × Stored key content r.1

  pub put_sync-PutKeeps :
      (end : DiskEnd) (other : String) (bytes : Bytes) (blobs : Blobs)
      → Stored key content blobs
      → PutKeeps other (put_sync end other bytes blobs)
  unfolding put_sync
  put_sync-PutKeeps failed_before other bytes blobs h = (λ e. cc, h)
  put_sync-PutKeeps done other bytes blobs h = elim (Bool-cases (exists other blobs)) [
    | inl there ↦ rw there ((λ e. cc), h)
    | inr free ↦
        let differs = free_differs other blobs h free in rw (free, differs) ((λ e. refl), h)
  ]
  put_sync-PutKeeps failed_after other bytes blobs h = elim (Bool-cases (exists other blobs)) [
    | inl there ↦ rw there ((λ e. cc), h)
    | inr free ↦ let differs = free_differs other blobs h free in rw (free, differs) ((λ e. cc), h)
  ]

  pub delete_sync-Stored :
      (end : DiskEnd) (other : String) (blobs : Blobs)
      → str_eq other key ≡ false
      → Stored key content blobs
      → Stored key content (delete_sync end other blobs).1
  unfolding delete_sync
  delete_sync-Stored done other blobs differs h = Stored-without other blobs differs h
  delete_sync-Stored failed_before other blobs differs h = h
  delete_sync-Stored failed_after other blobs differs h = h
