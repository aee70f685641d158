-- ===== src/Chloros/Tally.antt =====
-- The number of threads of the library of lab1 with a property, in the queue and in the whole
-- system.
use stanford_cs240_sp21_labs.Base.{Bool, Bool-cases, List, Option, [], arith, false}
use stanford_cs240_sp21_labs.Base.{if◌then◌else◌, inl, inr, none, not, refl, some, true, ℕ, ◌&&◌}
use stanford_cs240_sp21_labs.Base.{◌++◌, ◌+◌, ◌∷◌, ◌≡◌, ◌≤◌}
use stanford_cs240_sp21_labs.Chloros.Scheduler.{find_next, keep_others}
use stanford_cs240_sp21_labs.Chloros.Thread.{Thread, is_zombie}

unfoldable pub tally : (Thread → Bool) → List Thread → ℕ
tally p [] = 0
tally p (t ∷ ts) = (if p t then 1 else 0) + tally p ts

abbrev pub one : Bool → ℕ
one b = if b then 1 else 0

pub tally-cons :
    (p : Thread → Bool) (t : Thread) (ts : List Thread) → tally p (t ∷ ts) ≡ one (p t) + tally p ts
unfolding tally
tally-cons p t ts = refl

pub tally-append :
    (p : Thread → Bool) (ts us : List Thread) → tally p (ts ++ us) ≡ tally p ts + tally p us
unfolding tally
tally-append p [] us = omega arith
tally-append p (t ∷ ts) us = omega (arith, tally-append p ts us)

pub tally-snoc :
    (p : Thread → Bool) (ts : List Thread) (t : Thread)
    → tally p (ts ++ t ∷ []) ≡ tally p ts + one (p t)
unfolding tally
tally-snoc p ts t = omega (arith, tally-append p ts (t ∷ []))

pub tally-le-add :
    (p q r : Thread → Bool)
    → ((t : Thread) → one (p t) ≤ one (q t) + one (r t))
    → (ts : List Thread) → tally p ts ≤ tally q ts + tally r ts
unfolding tally
tally-le-add p q r h [] = omega arith
tally-le-add p q r h (t ∷ ts) = omega (arith, h t, tally-le-add p q r h ts)

pub tally-false : (ts : List Thread) → tally (λ _. false) ts ≡ 0
unfolding tally
tally-false [] = refl
tally-false (t ∷ ts) = omega (arith, tally-false ts)

-- What the loop of `Yield` gives: the first thread that passes the test, taken out of the queue,
-- or nothing where no thread passes.
abbrev pub Taken : (Thread → Bool) → List Thread → Option (Thread × List Thread) → Type 0
Taken test ts none = tally test ts ≡ 0
Taken test ts (some (t, us)) =
    (test t ≡ true) × ((p : Thread → Bool) → tally p ts ≡ one (p t) + tally p us)

found_later :
    (test : Thread → Bool) (v : Thread) (ts : List Thread) (m : Option (Thread × List Thread))
    → test v ≡ false
    → Taken test ts m
    → Taken test (v ∷ ts) (elim m [ none ↦ none | some (u, us) ↦ some (u, v ∷ us) ])
unfolding tally
found_later test v ts none e h = ground arith
found_later test v ts (some (u, us)) e h = (h.0, λ p. omega (arith, h.1 p))

pub find_next-Taken : (test : Thread → Bool) (ts : List Thread) → Taken test ts (find_next test ts)
unfolding tally find_next
find_next-Taken test [] = refl
find_next-Taken test (v ∷ ts) = elim (Bool-cases (test v)) [
  | inl e ↦ rw e (e, λ p. refl)
  | inr e ↦ rw e (found_later test v ts (find_next test ts) e (find_next-Taken test ts))
]

-- The collector takes the zombies out of the queue, and no other thread.
pub tally-keep_others :
    (p : Thread → Bool) (ts us : List Thread)
    → tally p (keep_others ts us) ≡ tally (λ t. p t && not (is_zombie t.state)) ts + tally p us
unfolding tally keep_others
tally-keep_others p [] us = omega arith
tally-keep_others p (t ∷ ts) us = elim (Bool-cases (is_zombie t.state)) [
  | inl dead ↦ rw dead (ground (arith, tally-keep_others p ts us))
  | inr alive ↦ rw alive (ground (arith, tally-keep_others p ts (us ++ t ∷ []), tally-snoc p us t))
]
