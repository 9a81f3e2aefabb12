-- ===== src/Service/Laws.antt =====
-- The two ways a call can end.
use authx.Prelude.{◌≡◌, refl, ◌⊎◌, inl, inr}
use authx.Errors.{Failure, Result, ok, err}
use authx.Service.{Db}

pub call-cases :
    {A : Type 0}
    → (x : Result A × Db)
    → ((a : A) × (db : Db) × (x ≡ (ok a, db))) ⊎ ((e : Failure) × (db : Db) × (x ≡ (err e, db)))
call-cases (ok a, db) = inl (a, db, refl)
call-cases (err e, db) = inr (e, db, refl)
