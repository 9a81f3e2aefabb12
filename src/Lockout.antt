-- ===== src/Lockout.antt =====
-- lib/login-attempts.ts: consecutive failed sign-ins of each account, and the lockout they lead to.
-- Times are milliseconds; every call gets the clock's reading.
pub mod Laws
use authx.Prelude.{
  ℕ, ◌+◌, String, Bool, true, false, Option, none, some, ◌&&◌, not, if◌then◌else◌, ltb, leb, nat_eq,
  List, [], ◌∷◌,
}
use authx.Prelude.Map.{Map, get, set, delete}

pub record Options : Type 0 where
  pub max_failures : ℕ
  pub lockout_ms : ℕ

pub record Entry : Type 0 where
  pub count : ℕ
  pub locked_until : ℕ

abbrev pub Failures : Type 0
Failures = Map Entry

-- Reads an entry, and drops one whose lockout is over.
unfoldable pub live : String → ℕ → Failures → Option Entry × Failures
live account_id now failures = elim (get account_id failures) [
  | none ↦ (none, failures)
  | some entry ↦
      if not (nat_eq entry.locked_until 0) && leb entry.locked_until now
      then (none, delete account_id failures)
      else (some entry, failures)
]

abbrev pub locked_until_or_zero : Option Entry → ℕ
locked_until_or_zero none = 0
locked_until_or_zero (some e) = e.locked_until

unfoldable pub is_locked : String → ℕ → Failures → Bool × Failures
unfolding live
is_locked account_id now failures =
    let (entry, rest) = live account_id now failures in (ltb now (locked_until_or_zero entry), rest)

abbrev pub entry_or_new : Option Entry → Entry
entry_or_new none = record { count = 0; locked_until = 0 }
entry_or_new (some e) = e

abbrev pub failed : Options → ℕ → Entry → Entry
failed opts now e = record {
  count = e.count + 1;
  locked_until =
      if leb opts.max_failures (e.count + 1) then now + opts.lockout_ms else e.locked_until;
}

unfoldable pub record_failure : Options → String → ℕ → Failures → Failures
unfolding live
record_failure opts account_id now failures =
    let (entry, rest) = live account_id now failures in
    set account_id (failed opts now (entry_or_new entry)) rest

unfoldable pub clear : String → Failures → Failures
clear account_id failures = delete account_id failures
