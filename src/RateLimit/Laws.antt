-- ===== src/RateLimit/Laws.antt =====
-- What the store promises a limiter: within a window it counts every hit of a key, and a new window
-- starts from one.
use authx.Prelude.{
  ℕ, suc, ◌+◌, ◌≤◌, ◌<◌, String, Bool, true, Option, none, some, ◌≡◌, refl, ◌≢◌, if◌then◌else◌, ltb,
  leb, List, [], ◌∷◌, arith, eq_iff, length, All, ◌∙◌, ◌++◌, length-append, ap,
}
use authx.Prelude.Map.{get}
use authx.Prelude.Map.Laws.{get-set, get-set_self}
use authx.RateLimit.{
  Window, Store, fresh, next_window, increment, at_from_right, client_key, if_text, socket_address,
}
use mathlib.Core.Option

unfoldable pub increments : String → List ℕ → Store → Store
increments key [] s = s
increments key (t ∷ ts) s = increments key ts (increment key t s).1

-- Hits inside a running window are counted one by one, and leave its end where it was.
pub increments_in_window :
    (key : String) (ts : List ℕ) (w : Window) (s : Store)
    → get key s.hits ≡ some w
    → All (λ t. t < w.reset_at) ts
    → get key (increments key ts s).hits ≡ some (record w { count = w.count + length ts })
unfolding increments increment
increments_in_window key [] w s at h = ground arith
increments_in_window key (t ∷ ts) w s at h =
    let e : w.count + 1 + length ts ≡ w.count + suc (length ts) = omega arith in
    let one : next_window (get key s.hits) t s ≡ record w { count = w.count + 1 } = ground arith in
    rw (← e) (
      increments_in_window key ts (record w { count = w.count + 1 }) (increment key t s).1
        (rw (one, get-set_self key _ s.hits)) h.1)

increments-others :
    (key other : String) (ts : List ℕ) (s : Store)
    → key ≢ other
    → get other (increments key ts s).hits ≡ get other s.hits
unfolding increments increment
increments-others key other [] s ne = refl
increments-others key other (t ∷ ts) s ne =
    increments-others key other ts (increment key t s).1 ne
    ∙ ground (arith, get-set other key (next_window (get key s.hits) t s) s.hits, eq_iff key other)

-- No window of the key is running.
abbrev pub over : Option Window → ℕ → Bool
over none now = true
over (some w) now = leb w.reset_at now

next_window-over :
    (w : Option Window) (now : ℕ) (s : Store)
    → over w now ≡ true
    → next_window w now s ≡ fresh now s
unfolding next_window
next_window-over none now s h = refl
next_window-over (some w) now s h = rw h refl

-- A key's window starts with the first hit after the last one ended, counts that hit and all that
-- follow before its end, and ends a full window later; other keys keep their counts.
pub window_counts :
    (key other : String) (t : ℕ) (ts : List ℕ) (s : Store)
    → over (get key s.hits) t ≡ true
    → All (λ u. u < t + s.window_ms) ts
    → key ≢ other
    → (get key (increments key (t ∷ ts) s).hits
        ≡ some (record { count = 1 + length ts; reset_at = t + s.window_ms }))
      × (get other (increments key (t ∷ ts) s).hits ≡ get other s.hits)
unfolding increments increment
window_counts key other t ts s ended h ne =
    let new = next_window-over (get key s.hits) t s ended in
    (
      increments_in_window key ts (fresh t s) (increment key t s).1
          (rw new (get-set_self key (fresh t s) s.hits)) h,
      increments-others key other (t ∷ ts) s ne,
    )

at_from_right-append :
    (hops : ℕ) (xs ys : List String)
    → 0 < hops
    → hops ≤ length ys
    → at_from_right hops (xs ++ ys) ≡ at_from_right hops ys
unfolding at_from_right
at_from_right-append hops [] ys p h = refl
at_from_right-append hops (x ∷ xs) ys p h =
    ground (arith, length-append xs ys, at_from_right-append hops xs ys p h)

-- Whatever a caller puts in front of the addresses that the trusted proxies appended, the client's
-- key stays the same: with as many of those as trusted hops, at least one, the rest is ignored.
pub client_key-spoofed :
    (trim : String → String) (user peer : Option String) (hops : ℕ) (spoofed chain : List String)
    → 0 < hops
    → hops ≤ length chain
    → client_key trim user hops (some (spoofed ++ chain)) peer
      ≡ client_key trim user hops (some chain) peer
unfolding client_key
client_key-spoofed trim user peer hops spoofed chain p h =
    ap
      (λ a. if_text user (
        if ltb 0 hops
        then if_text (Option.map trim a) (socket_address peer)
        else socket_address peer))
      (at_from_right-append hops spoofed chain p h)
