-- ===== src/RateLimit.antt =====
-- lib/rate-limit-store.ts: the fixed-window counter behind every rate limiter, and the client key
-- that middleware/rate-limit.ts counts by.
pub mod Laws
use mathlib.Core.Option
use authx.Prelude.{
  ℕ, ◌+◌, ◌-◌, ◌<◌, String, Bool, true, false, Option, none, some, if◌then◌else◌, ltb, leb, nat_eq,
  zero, suc, ◌||◌, ◌==◌, List, [], ◌∷◌, length,
}
use authx.Prelude.Map.{Map, get, set, delete}

pub record Window : Type 0 where
  pub count : ℕ
  pub reset_at : ℕ

pub record Store : Type 0 where
  pub hits : Map Window
  pub window_ms : ℕ

pub record Info : Type 0 where
  pub total_hits : ℕ
  pub reset_time : ℕ

abbrev pub empty : Store
empty = record { hits = []; window_ms = 60000 }

unfoldable pub init : ℕ → Store → Store
init window_ms s = record s { window_ms = window_ms }

abbrev pub fresh : ℕ → Store → Window
fresh now s = record { count = 1; reset_at = now + s.window_ms }

-- The window that an increment leaves: the running one, or a new one.
unfoldable pub next_window : Option Window → ℕ → Store → Window
next_window none now s = fresh now s
next_window (some w) now s =
    if leb w.reset_at now then fresh now s else record w { count = w.count + 1 }

unfoldable pub increment : String → ℕ → Store → Info × Store
unfolding next_window
increment key now s =
    let w = next_window (get key s.hits) now s in
    (record { total_hits = w.count; reset_time = w.reset_at }, record s { hits = set key w s.hits })

unfoldable pub decrement : String → Store → Store
decrement key s = elim (get key s.hits) [
  | none ↦ s
  | some w ↦
      if ltb 0 w.count
      then record s { hits = set key (record w { count = w.count - 1 }) s.hits }
      else s
]

unfoldable pub reset_key : String → Store → Store
reset_key key s = record s { hits = delete key s.hits }

-- `chain.at(-hops)`: the entry `hops` from the right, none where the chain is shorter. An index of
-- zero is the first entry, as `at(-0)` is; the caller asks only with `hops > 0`.
unfoldable pub at_from_right : ℕ → List String → Option String
at_from_right hops [] = none
at_from_right hops (x ∷ xs) =
    if nat_eq (length (x ∷ xs)) hops || nat_eq hops 0 then some x else at_from_right hops xs

-- `if (s) return s`, and the rest otherwise.
abbrev pub if_text : Option String → String → String
if_text none other = other
if_text (some s) other = if s == "" then other else s

abbrev pub socket_address : Option String → String
socket_address none = "unknown"
socket_address (some a) = a

-- `chain.at(-hops)?.trim()`, of an empty chain where there is no header.
unfoldable pub forwarded_address : (String → String) → ℕ → Option (List String) → Option String
unfolding at_from_right
forwarded_address trim hops none = none
forwarded_address trim hops (some chain) = Option.map trim (at_from_right hops chain)

-- `clientKey`. The header's value comes split at commas, and `trim` is the runtime's; the last
-- argument is the socket's peer address, none where there is no socket.
unfoldable pub client_key :
    (String → String) → Option String → ℕ → Option (List String) → Option String → String
unfolding forwarded_address
client_key trim user_id hops forwarded peer = if_text user_id (
    if ltb 0 hops
    then if_text (forwarded_address trim hops forwarded) (socket_address peer)
    else socket_address peer)
