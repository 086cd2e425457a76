-- ===== src/Diagnostics/Watchdog/Health.antt =====
-- The health check of one turn: which records it reports, and when it refreshes the watchdog.
use stm32f407vgt.Base.{
  ℕ, suc, ◌+◌, ◌%◌, ◌^◌, ◌<◌, ◌≡◌, refl, inl, inr, Bool, true, false, not, ◌&&◌, Option, none, some,
  List, [], ◌∷◌, ◌++◌, ltb, ◌==◌, add32, arith, if◌then◌else◌, Bool-cases,
}
use stm32f407vgt.Diagnostics.TaskTrace.{AppTaskTrace, Table, get_by_index}
use stm32f407vgt.Diagnostics.Watchdog.{
  watchdog_health_timeout_ms, watchdog_profile_dump_interval_ticks, Effect, loop_end, kick,
  log_profile, delay, is_stale, health_line, check_health, dump_profile, Turn, kicks, profile,
  check_turn,
}

-- The records that the reads from slot `i` on return.
abbrev pub joined : Option AppTaskTrace → List AppTaskTrace → List AppTaskTrace
joined none rs = rs
joined (some t) rs = t ∷ rs

abbrev pub observed : ℕ → List Table → List AppTaskTrace
observed i [] = []
observed i (ts ∷ reads) = joined (get_by_index i ts) (observed (suc i) reads)

-- The tasks among them that run and have not checked in for too long.
abbrev pub overdue : ℕ → List AppTaskTrace → List AppTaskTrace
overdue now [] = []
overdue now (t ∷ rs) =
    let rest = overdue now rs in if not t.stopped && is_stale now t then t ∷ rest else rest

abbrev pub is_empty {ℓ} : {A : Type ℓ} → List A → Bool
is_empty [] = true
is_empty (x ∷ xs) = false

abbrev pub report : Bool → ℕ → List AppTaskTrace → List Effect
report has_logger now [] = []
report has_logger now (t ∷ rs) = health_line has_logger now t ++ report has_logger now rs

check_record :
    (has_logger : Bool) (now : ℕ) (t : AppTaskTrace) (rs : List AppTaskTrace)
    (p : Bool × List Effect)
    → p ≡ (is_empty (overdue now rs), report has_logger now (overdue now rs))
    → (if t.stopped
        then p
        else if is_stale now t
        then (false, health_line has_logger now t ++ p.1)
        else p)
      ≡ (is_empty (overdue now (t ∷ rs)), report has_logger now (overdue now (t ∷ rs)))
check_record has_logger now t rs p e = elim (Bool-cases t.stopped) [
  | inl stopped ↦ rw (e, stopped) refl
  | inr runs ↦ elim (Bool-cases (is_stale now t)) [
    | inl stale ↦ rw (e, runs, stale) refl
    | inr fresh ↦ rw (e, runs, fresh) refl
  ]
]

check_read :
    (has_logger : Bool) (now : ℕ) (o : Option AppTaskTrace) (rs : List AppTaskTrace)
    (p : Bool × List Effect)
    → p ≡ (is_empty (overdue now rs), report has_logger now (overdue now rs))
    → ◌≡◌ {A = Bool × List Effect}
        (elim o [
          | none ↦ p
          | some t ↦
              if t.stopped
              then p
              else if is_stale now t
              then (false, health_line has_logger now t ++ p.1)
              else p
        ])
        (is_empty (overdue now (joined o rs)), report has_logger now (overdue now (joined o rs)))
check_read has_logger now none rs p e = e
check_read has_logger now (some t) rs p e = check_record has_logger now t rs p e

-- The check is healthy exactly if no record that it reads is of a running task that has not checked
-- in for more than 25 seconds, and, with a logger, it logs one line for each such record, in order.
pub check_health_lem :
    (has_logger : Bool) (now i : ℕ) (reads : List Table)
    → check_health has_logger now i reads ≡ (
      is_empty (overdue now (observed i reads)),
      report has_logger now (overdue now (observed i reads)),
    )
unfolding check_health
check_health_lem has_logger now i [] = refl
check_health_lem has_logger now i (ts ∷ reads) =
    check_read has_logger now (get_by_index i ts) (observed (suc i) reads)
      (check_health has_logger now (suc i) reads) (check_health_lem has_logger now (suc i) reads)

abbrev pub is_kick : Effect → ℕ
is_kick kick = 1
is_kick _ = 0

-- How often the watchdog is refreshed.
abbrev pub kick_count : List Effect → ℕ
kick_count [] = 0
kick_count (e ∷ es) = is_kick e + kick_count es

pub kick_count-append :
    (es fs : List Effect) → kick_count (es ++ fs) ≡ kick_count es + kick_count fs
kick_count-append [] fs = omega arith
kick_count-append (e ∷ es) fs = omega (arith, kick_count-append es fs)

kick_count-report :
    (has_logger : Bool) (now : ℕ) (rs : List AppTaskTrace)
    → kick_count (report has_logger now rs) ≡ 0
kick_count-report has_logger now [] = refl
kick_count-report true now (t ∷ rs) = omega (arith, kick_count-report true now rs)
kick_count-report false now (t ∷ rs) = kick_count-report false now rs

kick_count-dump_profile : (i : ℕ) (reads : List Table) → kick_count (dump_profile i reads) ≡ 0
unfolding dump_profile
kick_count-dump_profile i [] = refl
kick_count-dump_profile i (ts ∷ reads) =
    no_kick (get_by_index i ts) (kick_count-dump_profile (suc i) reads)
  where
    no_kick :
        (o : Option AppTaskTrace)
        → kick_count (dump_profile (suc i) reads) ≡ 0
        → kick_count (elim o [
          | none ↦ dump_profile (suc i) reads
          | some t ↦ log_profile t ∷ delay 1 ∷ dump_profile (suc i) reads
        ])
          ≡ 0
    no_kick none e = e
    no_kick (some t) e = omega (arith, e)

kick_count-profile :
    (has_logger : Bool) (tick : ℕ) (reads : List Table)
    → kick_count (profile has_logger tick reads) ≡ 0
kick_count-profile false tick reads = refl
kick_count-profile true tick reads =
    elim (Bool-cases (tick % watchdog_profile_dump_interval_ticks == 0)) [
      | inl dump ↦ rw dump (kick_count-dump_profile 0 reads)
      | inr skip ↦ rw skip refl
    ]

kick_count-kicks : (healthy : Bool) → kick_count (kicks healthy) ≡ (if healthy then 1 else 0)
kick_count-kicks true = refl
kick_count-kicks false = refl

-- A turn refreshes the hardware watchdog once if no running task among the records that it read is
-- overdue, and not at all otherwise, with a logger or without.
pub kick_count-check_turn :
    (has_logger : Bool) (tick : ℕ) (turn : Turn)
    → kick_count (check_turn has_logger tick turn)
      ≡ (if is_empty (overdue turn.now (observed 0 turn.health_reads)) then 1 else 0)
unfolding check_turn
kick_count-check_turn has_logger tick turn =
    let stale = overdue turn.now (observed 0 turn.health_reads) in
    let lines = report has_logger turn.now stale in
    let tail = loop_end ∷ delay 1000 ∷ [] in
    let dump = profile has_logger tick turn.profile_reads in
    rw (check_health_lem has_logger turn.now 0 turn.health_reads) (
      omega (
        arith,
        kick_count-append lines (kicks (is_empty stale) ++ (dump ++ tail)),
        kick_count-append (kicks (is_empty stale)) (dump ++ tail),
        kick_count-append dump tail,
        kick_count-report has_logger turn.now stale,
        kick_count-profile has_logger tick turn.profile_reads,
        kick_count-kicks (is_empty stale),
      ))

-- The clock wraps after 2 ^ 32 ms. A record whose last check-in lies `elapsed` ms back, less than one
-- round, counts as stale exactly if that is more than 25 seconds and the clock has not wrapped in
-- between: behind a wrap a task that hangs is not reported.
pub is_stale-add32 :
    (t : AppTaskTrace) (elapsed : ℕ)
    → t.last_check_in_time_ms < 2 ^ 32
    → elapsed < 2 ^ 32
    → is_stale (add32 t.last_check_in_time_ms elapsed) t
      ≡ (ltb watchdog_health_timeout_ms elapsed && ltb (t.last_check_in_time_ms + elapsed) (2 ^ 32))
is_stale-add32 t elapsed hl he = ground arith
