-- ===== src/Service/Keeps.antt =====
-- Calls that leave a view of the database as it was, and the rules that compose them.
use authx.Prelude.{Bool, true, false, Option, none, some, ◌≡◌, refl, ◌∙◌, if◌then◌else◌}
use authx.Errors.{ErrorCode, Result, ok, err}
use authx.Service.{Db, M, ◌>>=◌, throw_if, some_or_throw, query, pure, when}

module _ {V : Type 0} (view : Db → V) where
  unfoldable pub Keeps : {A : Type 0} → M A → Type 0
  Keeps m = (db : Db) → view (m db).1 ≡ view db

  -- A bind keeps the view where its call does, and what follows keeps it from where the call ends.
  pub bind_from-Keeps :
      {A B : Type 0} (m : M A) (k : A → M B)
      → Keeps m
      → ((a : A) (db db' : Db) → m db ≡ (ok a, db') → view (k a db').1 ≡ view db')
      → Keeps (m >>= k)
  unfolding Keeps
  bind_from-Keeps {A} {B} m k hm hk db = go (m db) refl (hm db)
    where
      go :
          (x : Result A × Db)
          → m db ≡ x
          → view x.1 ≡ view db
          → view (elim x.0 as (λ r. Result B × Db) [ ok a ↦ k a x.1 | err e ↦ (err e, x.1) ]).1
            ≡ view db
      go (ok a, db') e h = hk a db db' e ∙ h
      go (err x, db') e h = h

  pub bind-Keeps :
      {A B : Type 0} (m : M A) (k : A → M B) → Keeps m → ((a : A) → Keeps (k a)) → Keeps (m >>= k)
  unfolding Keeps
  bind-Keeps m k hm hk = bind_from-Keeps m k hm (λ a db db' e. hk a db')

  pub throw_if-Keeps : (c : Bool) (x : ErrorCode) → Keeps (throw_if c x)
  unfolding Keeps
  throw_if-Keeps true x db = refl
  throw_if-Keeps false x db = refl

  pub some_or_throw-Keeps : {A : Type 0} (x : ErrorCode) (o : Option A) → Keeps (some_or_throw x o)
  unfolding Keeps
  some_or_throw-Keeps x none db = refl
  some_or_throw-Keeps x (some a) db = refl

  pub if-Keeps :
      {A : Type 0} (c : Bool) (m n : M A) → Keeps m → Keeps n → Keeps (if c then m else n)
  if-Keeps true m n h k = h
  if-Keeps false m n h k = k

  pub query-Keeps : {A : Type 0} (f : Db → A) → Keeps (query f)
  unfolding Keeps
  query-Keeps f db = refl

  pub pure-Keeps : {A : Type 0} (a : A) → Keeps (pure a)
  unfolding Keeps
  pure-Keeps a db = refl

  pub when-Keeps : (c : Bool) (m : M (Unit {0})) → Keeps m → Keeps (when c m)
  unfolding Keeps
  when-Keeps true m h db = h db
  when-Keeps false m h db = refl

  -- What follows a check that throws need keep the view only where the check passes.
  pub guard-Keeps :
      {A : Type 0} (c : Bool) (x : ErrorCode) (k : Unit {0} → M A)
      → (c ≡ false → Keeps (k tt))
      → Keeps (throw_if c x >>= k)
  unfolding Keeps
  guard-Keeps true x k h db = refl
  guard-Keeps false x k h db = h refl db
