-- ===== src/Collation.antt =====
-- lib/inmemory.ts: text comparison as the database's collation makes it, and its duplicate-key error.
-- `same` stands for `collator.compare(a, b) === 0` of the runtime's `Intl.Collator`.
use authx.Prelude.{String, Bool, false, Option, some}
use authx.Errors.{Failure}

abbrev pub ci_equals : (String → String → Bool) → Option String → Option String → Bool
ci_equals same (some a) (some b) = same a b
ci_equals same _ _ = false

abbrev pub duplicate : String → String → Option String → Option Failure
duplicate table index value = some (Failure.duplicate_key table index value)
