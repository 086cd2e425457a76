-- ===== src/Pal/LogSink/Tests.antt =====
-- Two tasks on the log sink.
use stm32f407vgt.Base.{[], ◌∷◌, true}
use stm32f407vgt.Pal.LogSink.{Port, locks, transmits, unlocks, Run, stop, go}
use stm32f407vgt.Pal.LogSink.Lines.{IsInTurn, idle, lines_whole}

-- One call has timed out after a byte of "Hi", and another has sent "A" of "AB".
abbrev busy : Port
busy = record {
  locked = true;
  writers = record { sent = 65 ∷ []; rest = 66 ∷ [] } ∷ [];
  wire = 72 ∷ 65 ∷ [];
  returned = (72 ∷ []) ∷ [];
}

abbrev two_lines : Run idle busy
two_lines = go (locks (72 ∷ 105 ∷ [])) (
    go (transmits [] [] [] (105 ∷ []) 72) (
      go (unlocks [] [] (72 ∷ []) (105 ∷ []))
        (go (locks (65 ∷ 66 ∷ [])) (go (transmits [] [] [] (66 ∷ []) 65) stop))))

lines_whole_example : IsInTurn busy
lines_whole_example = lines_whole two_lines
