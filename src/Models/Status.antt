-- ===== src/Models/Status.antt =====
-- `DocumentStatus` and `DocumentType` of shared/models/document.py.
use researchmind_mcp.Prelude.{◌≡◌, refl, Bool, true, false, List, any, arith}

pub data DocumentType : Type 0 where
  pdf text note report : DocumentType

pub data DocumentStatus : Type 0 where
  pending processing parsed chunked ready failed : DocumentStatus

-- `a is b`, on members of the enumeration.
abbrev pub status_eq : DocumentStatus → DocumentStatus → Bool
status_eq pending pending = true
status_eq processing processing = true
status_eq parsed parsed = true
status_eq chunked chunked = true
status_eq ready ready = true
status_eq failed failed = true
status_eq _ _ = false

pub status_eq→≡ : (a b : DocumentStatus) → status_eq a b ≡ true → a ≡ b
status_eq→≡ pending b h = ground arith
status_eq→≡ processing b h = ground arith
status_eq→≡ parsed b h = ground arith
status_eq→≡ chunked b h = ground arith
status_eq→≡ ready b h = ground arith
status_eq→≡ failed b h = ground arith

pub status_eq_refl : (a : DocumentStatus) → status_eq a a ≡ true
status_eq_refl pending = refl
status_eq_refl _ = refl

-- `status in statuses`
abbrev pub status_in : DocumentStatus → List DocumentStatus → Bool
status_in s = any (status_eq s)
