-- ===== src/Store/Baselines/Reads.antt =====
-- The outcomes of a read of internal/store.
use wsaw.Prelude.{◌≡◌, refl, ◌⊎◌, inl, inr}
use wsaw.Store.Baselines.{Reading, found, not_found, evidence_gone, failed}

pub Reading-cases {ℓ} :
    {A : Type ℓ} (r : Reading A)
    → ((x : A) × (r ≡ found x)) ⊎ ((r ≡ not_found) ⊎ ((r ≡ evidence_gone) ⊎ (r ≡ failed)))
Reading-cases (found x) = inl (x, refl)
Reading-cases not_found = inr (inl refl)
Reading-cases evidence_gone = inr (inr (inl refl))
Reading-cases failed = inr (inr (inr refl))
