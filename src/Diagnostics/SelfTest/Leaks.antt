-- ===== src/Diagnostics/SelfTest/Leaks.antt =====
-- The last check of the battery, over a pool of slots that the promise library keeps.
use stm32f407vgt.Base.{
  ℕ, zero, suc, ◌+◌, ◌<◌, ◌≡◌, refl, ap, ◌∙◌, Bool, true, false, none, some, List, [], ◌∷◌, ◌++◌,
  arith, leb, min,
}
use Prim.Native.String.{String}
use stm32f407vgt.Base.Programs.{World, run, run-bind}
use stm32f407vgt.Diagnostics.SelfTest.{
  Claim, Cancelled, Op, Ans, create, cancel, self_test_pool_capacity, Test, report,
}
use stm32f407vgt.Diagnostics.SelfTest.Checks.{
  cancel_first, claim_all, cancel_all, claim_and_report, check_cancel_and_leaks,
}

-- What the check relies on: of the slots that are free and the claims that the task holds, oldest
-- first. A claim takes a free slot, if there is one, and cancelling the oldest claim gives it back.
pub record CountsSlots {S : Type 0} (world : World Op Ans S) (free : S → ℕ) (held : S → List Claim)
    : Type 0 where
  pub creates :
      (s : S)
      → 0 < free s
      → (c : Claim) × ((world create s).0 ≡ some c)
        × (free (world create s).1 + 1 ≡ free s)
        × (held (world create s).1 ≡ held s ++ (c ∷ []))
  pub exhausted :
      (s : S)
      → free s ≡ 0
      → ((world create s).0 ≡ none)
        × (free (world create s).1 ≡ 0)
        × (held (world create s).1 ≡ held s)
  pub cancels :
      (s : S) (c : Claim) (later : List Claim)
      → held s ≡ c ∷ later
      → ((world (cancel c) s).0
          ≡ record { success = true; promise_cleared = true; future_cleared = true })
        × (free (world (cancel c) s).1 ≡ free s + 1)
        × (held (world (cancel c) s).1 ≡ later)

abbrev slots_detail : String
slots_detail = "slots claimable after all checks, capacity"

-- The report that the check ends in, with the number of slots that are free.
abbrev pub leak_report : ℕ → Test (Unit {0})
leak_report n =
    report "cancel" (leb self_test_pool_capacity n) slots_detail (min n self_test_pool_capacity)
      self_test_pool_capacity

module _ {S : Type 0} (world : World Op Ans S) (free : S → ℕ) (held : S → List Claim)
    (pool : CountsSlots world free held) where
  abbrev IsAt : S → ℕ → List Claim → Type 0
  IsAt s n cs = (free s ≡ n) × (held s ≡ cs)

  cancel_first_none :
      (s : S) → IsAt s 0 [] → (s1 : S) × ((run world cancel_first s ≡ (false, s1)) × IsAt s1 0 [])
  unfolding cancel_first
  cancel_first_none s (f, h) =
      let (gone, f1, h1) = pool.exhausted s f in
      ((world create s).1, (rw (gone, run) refl, (f1, h1 ∙ h)))

  cancel_first_some :
      (n : ℕ) (s : S)
      → IsAt s (suc n) []
      → (s1 : S) × ((run world cancel_first s ≡ (true, s1)) × IsAt s1 (suc n) [])
  unfolding cancel_first
  cancel_first_some n s (f, h) =
      let (c, made, f1, h1) = pool.creates s (omega arith) in
      let s1 = (world create s).1 in
      let (x, f2, h2) = pool.cancels s1 c [] (h1 ∙ ap (λ cs. cs ++ (c ∷ [])) h) in
      ((world (cancel c) s1).1, (rw (made, run, x) refl, (omega arith, h2)))

  Ends : Test (Unit {0}) → S → ℕ → Type 0
  Ends m s n = (s1 : S) × ((run world m s ≡ run world (leak_report n) s1) × IsAt s1 n [])

  claim_none : (s : S) → IsAt s 0 [] → Ends (claim_and_report false) s 0
  unfolding claim_and_report claim_all cancel_all Ends
  claim_none s (f, h) =
      let (gone, f1, h1) = pool.exhausted s f in
      let s1 = (world create s).1 in
      let (gone2, f2, h2) = pool.exhausted s1 f1 in
      ((world create s1).1, (rw (gone, gone2, run) refl, (f2, h2 ∙ h1 ∙ h)))

  claim_one : (s : S) → IsAt s 1 [] → Ends (claim_and_report true) s 1
  unfolding claim_and_report claim_all cancel_all Ends
  claim_one s (f, h) =
      let (c, made, f1, h1) = pool.creates s (omega arith) in
      let s1 = (world create s).1 in
      let (gone, f2, h2) = pool.exhausted s1 (omega arith) in
      let s2 = (world create s1).1 in
      let (x, f3, h3) = pool.cancels s2 c [] (h2 ∙ h1 ∙ ap (λ cs. cs ++ (c ∷ [])) h) in
      ((world (cancel c) s2).1, (rw (made, gone, run, x) refl, (omega arith, h3)))

  two_claims :
      (n : ℕ) (s : S) (c d : Claim) (x y : Cancelled)
      → (world create s).0 ≡ some c
      → (world create (world create s).1).0 ≡ some d
      → let s2 = (world create (world create s).1).1 in
        (world (cancel c) s2).0 ≡ x
        → let s3 = (world (cancel c) (world create (world create s).1).1).1 in
          (world (cancel d) s3).0 ≡ y
          → x.success ≡ true
          → y.success ≡ true
          → run world (claim_and_report true) s
            ≡ run world
                (leak_report (suc (suc n)))
                (world (cancel d) (world (cancel c) (world create (world create s).1).1).1).1
  unfolding claim_and_report claim_all cancel_all
  two_claims n s c d x y made made2 ex ey sx sy =
      rw (made, made2, run, ex, ey, sx, sy, least, enough) refl
    where
      least : min (suc (suc n)) self_test_pool_capacity ≡ 2
      least = omega arith

      enough : leb self_test_pool_capacity (suc (suc n)) ≡ true
      enough = ground arith

  claim_two :
      (n : ℕ) (s : S) → IsAt s (suc (suc n)) [] → Ends (claim_and_report true) s (suc (suc n))
  unfolding Ends
  claim_two n s (f, h) =
      let (c, made, f1, h1) = pool.creates s (omega arith) in
      let s1 = (world create s).1 in
      let (d, made2, f2, h2) = pool.creates s1 (omega arith) in
      let s2 = (world create s1).1 in
      let (x, f3, h3) =
        pool.cancels s2 c (d ∷ [])
          (h2 ∙ ap (λ cs. cs ++ (d ∷ [])) (h1 ∙ ap (λ cs. cs ++ (c ∷ [])) h)) in
      let s3 = (world (cancel c) s2).1 in
      let (y, f4, h4) = pool.cancels s3 d [] h3 in
      (
        (world (cancel d) s3).1,
        (two_claims n s c d _ _ made made2 x y refl refl, (omega arith, h4)),
      )

  after_first :
      (n : ℕ) (ok : Bool) (s s1 : S)
      → run world cancel_first s ≡ (ok, s1)
      → Ends (claim_and_report ok) s1 n
      → Ends check_cancel_and_leaks s n
  unfolding check_cancel_and_leaks Ends
  after_first n ok s s1 e (s2, (rest, at)) =
      (s2, (run-bind world cancel_first claim_and_report s ∙ rw e rest, at))

  by_count : (n : ℕ) (s : S) → IsAt s n [] → Ends check_cancel_and_leaks s n
  by_count zero s at =
      let (s1, (e, at1)) = cancel_first_none s at in after_first 0 false s s1 e (claim_none s1 at1)
  by_count (suc zero) s at =
      let (s1, (e, at1)) = cancel_first_some 0 s at in after_first 1 true s s1 e (claim_one s1 at1)
  by_count (suc (suc n)) s at =
      let (s1, (e, at1)) = cancel_first_some (suc n) s at in
      after_first (suc (suc n)) true s s1 e (claim_two n s1 at1)

  -- Over a pool of which the task holds no claim: the check for leaks reports PASS exactly if the two
  -- slots that it needs are free, with the number of slots that it could claim, and leaves the pool as
  -- it was.
  pub check_cancel_and_leaks_lem :
      (s : S)
      → held s ≡ []
      → (s1 : S) × ((run world check_cancel_and_leaks s ≡ run world (leak_report (free s)) s1)
          × ((free s1 ≡ free s) × (held s1 ≡ [])))
  unfolding Ends
  check_cancel_and_leaks_lem s h = by_count (free s) s (refl, h)
