-- ===== src/Osal/ThreadxQueue/Runs.antt =====
-- The runs of the queue: what is received is what was sent, in the same order.
use mathlib.Core.List.{append-nil, append_assoc}
use stm32f407vgt.Base.{
  ◌≡◌, ℕ, zero, suc, ◌+◌, refl, sym, ap, ◌∙◌, true, ◌&&◌, Option, some, List, [], ◌∷◌, ◌++◌, length,
  get_elem?, ltb, leb, arith, if◌then◌else◌,
}
use stm32f407vgt.Osal.ThreadxQueue.{
  OsalQueueImpl, Sender, stored, System, Step, claims, stores, posts, takes, copies, releases,
  slots_from, prefilled, post,
}
use stm32f407vgt.Osal.ThreadxQueue.Slots.{occ, items, kept_none}
use stm32f407vgt.Osal.ThreadxQueue.Interleaved.{
  IsValid, contents, system, once, claim_inv, take_inv, claim-IsValid, take-IsValid, store-IsValid,
  post-IsValid, release-IsValid,
}

occ-slots_from : (k n i : ℕ) → occ k (slots_from n i) ≡ (if leb i k && ltb k (i + n) then 1 else 0)
occ-slots_from k zero i = ground arith
occ-slots_from k (suc n) i = ground (arith, occ-slots_from k n (suc i))

length-slots_from : (n i : ℕ) → length (slots_from n i) ≡ n
length-slots_from zero i = refl
length-slots_from (suc n) i = ap suc (length-slots_from n (suc i))

occ_all : (k n : ℕ) → occ k (slots_from n 0) ≡ once k n
occ_all k n = ground (arith, occ-slots_from k n 0)

-- What a step does to the queue that its users see. An item leaves the queue when its slot is taken; the
-- copy to the caller comes later, in a step of its own.
pub data Event (A : Type 0) : Type 0 where
  silent : Event A
  sends receives : Option A → Event A

abbrev pub event : {A : Type 0} {y y' : System A} → Step y y' → Event A
event (claims x e) = silent
event (stores before after slot x) = silent
event (posts before after slot x) = sends (some x)
event {y = y} (takes {slot = slot} e) = receives (get_elem? y.queue.storage slot)
event (copies before after slot x e) = silent
event (releases before after slot) = silent

-- The contents before and after, as a first-in-first-out queue has them.
abbrev pub Follows : {A : Type 0} → Event A → List (Option A) → List (Option A) → Type 0
Follows silent xs ys = ys ≡ xs
Follows (sends o) xs ys = ys ≡ xs ++ (o ∷ [])
Follows (receives o) xs ys = xs ≡ o ∷ ys

-- Every step of every task keeps the queue valid, and changes its contents as a queue does: a send
-- that posts its slot appends the very item that its caller gave, a receive takes the first, and the
-- steps in between change nothing.
pub step_refines :
    {A : Type 0} {y y' : System A} (st : Step y y')
    → IsValid y
    → IsValid y' × Follows (event st) (contents y.queue) (contents y'.queue)
step_refines (claims {q} {q'} {ss} {rs} {slot} x e) v =
    let (rest, free, same) = claim_inv q q' slot e in
    (claim-IsValid q q' ss rs slot x e v, ap contents same)
step_refines (stores {q} before after {rs} slot x) v = store-IsValid q before after rs slot x v
step_refines (posts {q} before after {rs} slot x) v =
    let (sent, valid, more) = post-IsValid q before after rs slot x v in (valid, more)
step_refines (takes {q} {q'} {ss} {rs} {slot} e) v =
    let (rest, filled, same) = take_inv q q' slot e in
    (
      take-IsValid q q' ss rs slot e v,
      ap (items q.storage) filled ∙ ap (λ l. get_elem? q.storage slot ∷ l) (ap contents (sym same)),
    )
step_refines (copies before after slot x e) v = (v, refl)
step_refines (releases {q} {ss} before after slot) v = release-IsValid q ss before after slot v

-- A send that has claimed and filled a slot never fails: the native queue of filled slots has room.
pub post_never_fails :
    {A : Type 0} (q : OsalQueueImpl A) (before after : List (Sender A)) (rs : List ℕ) (slot : ℕ)
    (x : A)
    → IsValid (system q (before ++ (stored slot x ∷ after)) rs)
    → (post slot q).0 ≡ true
post_never_fails q before after rs slot x v = (post-IsValid q before after rs slot x v).0

-- Runs, from the first step on.
pub data Run {A : Type 0} : System A → System A → Type 0 where
  stop : {y : System A} → Run y y
  go : {y y' z : System A} → Step y y' → Run y' z → Run y z

abbrev pub sent_by : {A : Type 0} → Event A → List (Option A)
sent_by silent = []
sent_by (sends o) = o ∷ []
sent_by (receives o) = []

abbrev pub received_by : {A : Type 0} → Event A → List (Option A)
received_by silent = []
received_by (sends o) = []
received_by (receives o) = o ∷ []

abbrev pub all_sent : {A : Type 0} {y z : System A} → Run y z → List (Option A)
all_sent stop = []
all_sent (go st run) = sent_by (event st) ++ all_sent run

abbrev pub all_received : {A : Type 0} {y z : System A} → Run y z → List (Option A)
all_received stop = []
all_received (go st run) = received_by (event st) ++ all_received run

module _ {A : Type 0} where
  balance :
      (ev : Event A) (xs ys later : List (Option A))
      → Follows ev xs ys
      → xs ++ (sent_by ev ++ later) ≡ received_by ev ++ (ys ++ later)
  balance silent xs ys later e = ap (λ l. l ++ later) (sym e)
  balance (sends o) xs ys later e =
      sym (append_assoc xs (o ∷ []) later) ∙ ap (λ l. l ++ later) (sym e)
  balance (receives o) xs ys later e = ap (λ l. l ++ later) e

  run_balance :
      {y z : System A} (run : Run y z)
      → IsValid y
      → IsValid z × (contents y.queue ++ all_sent run ≡ all_received run ++ contents z.queue)
  run_balance {y} stop v = (v, append-nil (contents y.queue))
  run_balance {y} {z} (go {y' = y'} st run) v =
      let (v', follows) = step_refines st v in
      let (valid, rest) = run_balance run v' in
      (
        valid,
        balance (event st) (contents y.queue) (contents y'.queue) (all_sent run) follows
            ∙ ap (λ l. received_by (event st) ++ l) rest
            ∙ sym (append_assoc (received_by (event st)) (all_received run) (contents z.queue)),
      )

  abbrev pub fresh : ℕ → List A → System A
  fresh n storage = system (prefilled n storage) [] []

  fresh-IsValid : (n : ℕ) (storage : List A) → length storage ≡ n → IsValid (fresh n storage)
  fresh-IsValid n storage size = record {
    each = λ k. omega (arith, occ_all k n);
    total = omega (arith, length-slots_from n 0);
    full = size;
    kept = kept_none;
  }

-- In every run of a queue as it is created, with a storage cell for each slot, with any number of
-- tasks inside its calls and their steps interleaved in any way, the items that were sent are those
-- that were received and then those that wait, in the order in which they were posted: none is lost,
-- doubled or changed.
pub first_in_first_out :
    {A : Type 0} (n : ℕ) (storage : List A) {z : System A} (run : Run (fresh n storage) z)
    → length storage ≡ n
    → IsValid z × (all_sent run ≡ all_received run ++ contents z.queue)
first_in_first_out n storage run size = run_balance run (fresh-IsValid n storage size)
