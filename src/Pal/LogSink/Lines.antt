-- ===== src/Pal/LogSink/Lines.antt =====
-- The lines of the log sink do not mix.
use stm32f407vgt.Base.{ℕ, ◌≡◌, refl, ap, sym, ◌∙◌, Bool, true, false, List, [], ◌∷◌, ◌++◌}
use mathlib.Core.List.{append-nil, append_assoc}
use mathlib.Core.Bool.{false≢true}
use stm32f407vgt.Pal.LogSink.{Writer, Port, Step, locks, transmits, unlocks, Run, stop, go}

abbrev pub joined : List (List ℕ) → List ℕ
joined [] = []
joined (xs ∷ xss) = xs ++ joined xss

joined-append : (xss : List (List ℕ)) (xs : List ℕ) → joined (xss ++ (xs ∷ [])) ≡ joined xss ++ xs
joined-append [] xs = append-nil xs
joined-append (ys ∷ xss) xs =
    ap (λ t. ys ++ t) (joined-append xss xs) ∙ sym (append_assoc ys (joined xss) xs)

-- Nobody is behind the mutex, or one call, whose bytes come last.
abbrev pub InTurn : Bool → List Writer → List ℕ → List (List ℕ) → Type 0
InTurn locked [] wire returned = (locked ≡ false) × (wire ≡ joined returned)
InTurn locked (w ∷ []) wire returned = (locked ≡ true) × (wire ≡ joined returned ++ w.sent)
InTurn locked (w ∷ v ∷ ws) wire returned = ⊥

abbrev pub IsInTurn : Port → Type 0
IsInTurn p = InTurn p.locked p.writers p.wire p.returned

step-IsInTurn : {p q : Port} → Step p q → IsInTurn p → IsInTurn q
step-IsInTurn (locks {ws = []} {wire} {returned} line) (free, e) =
    (refl, e ∙ sym (append-nil (joined returned)))
step-IsInTurn (locks {ws = w ∷ []} line) (held, e) = absurd (false≢true held)
step-IsInTurn (locks {ws = w ∷ v ∷ ws} line) h = absurd h
step-IsInTurn (transmits {locked} {wire} {returned} [] [] sent rest byte) (held, e) =
    (held, ap (λ t. t ++ (byte ∷ [])) e ∙ append_assoc (joined returned) sent (byte ∷ []))
step-IsInTurn (transmits [] (w ∷ after) sent rest byte) h = absurd h
step-IsInTurn (transmits (w ∷ []) after sent rest byte) h = absurd h
step-IsInTurn (transmits (w ∷ v ∷ before) after sent rest byte) h = absurd h
step-IsInTurn (unlocks {locked} {wire} {returned} [] [] sent rest) (held, e) =
    (refl, e ∙ sym (joined-append returned sent))
step-IsInTurn (unlocks [] (w ∷ after) sent rest) h = absurd h
step-IsInTurn (unlocks (w ∷ []) after sent rest) h = absurd h
step-IsInTurn (unlocks (w ∷ v ∷ before) after sent rest) h = absurd h

run-IsInTurn : {p q : Port} → Run p q → IsInTurn p → IsInTurn q
run-IsInTurn stop h = h
run-IsInTurn (go s r) h = run-IsInTurn r (step-IsInTurn s h)

abbrev pub idle : Port
idle = record { locked = false; writers = []; wire = []; returned = [] }

-- With the mutex created, in every order of the steps of any number of tasks, timeouts included: what has
-- come out of the UART is what the calls that have returned had sent, one after the other, followed by
-- what the one call behind the mutex has sent, if there is one; no two lines mix.
pub lines_whole : {q : Port} → Run idle q → IsInTurn q
lines_whole r = run-IsInTurn r (refl, refl)
