-- ===== src/Osal/ThreadxQueue/Interleaved.antt =====
-- The queue under any interleaving of the steps of any tasks.
use mathlib.Core.Path.{subst}
use stm32f407vgt.Base.{
  ◌≡◌, ℕ, ◌+◌, ◌≤◌, ◌<◌, refl, sym, ap, ◌∙◌, ◌⊎◌, inl, inr, true, Option, none, some, List, [], ◌∷◌,
  ◌++◌, length, ltb, arith, length-append, length-set, if◌then◌else◌,
}
use stm32f407vgt.Osal.ThreadxQueue.{
  OsalQueueImpl, Sender, claimed, stored, System, claim, post, take_slot, release, store,
}
use stm32f407vgt.Osal.ThreadxQueue.Slots.{
  occ, occ-append, occ_self, slot_of, sender_slots, occ-sender_slots, items, items-append,
  items-set, Kept, kept_claimed, Kept-drop, Kept-here, Kept-store,
}

abbrev pub once : ℕ → ℕ → ℕ
once k n = if ltb k n then 1 else 0

List-cases : (xs : List ℕ) → (xs ≡ []) ⊎ ((s : ℕ) × (rest : List ℕ) × (xs ≡ s ∷ rest))
List-cases [] = inl refl
List-cases (x ∷ xs) = inr (x, xs, refl)

once_le : (k n : ℕ) → once k n ≤ 1
once_le k n = ground arith

once_lt : (k n : ℕ) → 1 ≤ once k n → k < n
once_lt k n h = ground arith

module _ {A : Type 0} where
  -- Each slot is in one place: free, filled, or in the hands of one task; and a sender that has stored
  -- its item finds it in its slot.
  pub record IsValid (y : System A) : Type 0 where
    pub each :
        (k : ℕ)
        → occ k y.queue.free
            + (occ k y.queue.filled + (occ k (sender_slots y.senders) + occ k y.receivers))
          ≡ once k y.queue.item_count
    pub total :
        length y.queue.free + (length y.queue.filled + (length y.senders + length y.receivers))
        ≡ y.queue.item_count
    pub full : length y.queue.storage ≡ y.queue.item_count
    pub kept : Kept y.queue.storage y.senders

  -- The items that wait in the queue, in order.
  abbrev pub contents : OsalQueueImpl A → List (Option A)
  contents q = items q.storage q.filled

  pub claim_inv :
      (q q' : OsalQueueImpl A) (slot : ℕ)
      → claim q ≡ some (slot, q')
      → (rest : List ℕ) × (q.free ≡ slot ∷ rest) × (q' ≡ record q { free = rest })
  unfolding claim
  claim_inv q q' slot e = elim (List-cases q.free) [
    | inl empty ↦
        let z : ◌≡◌ {A = Option (ℕ × OsalQueueImpl A)} none (some (slot, q')) = rw empty at e in
        absurd (cc)
    | inr (s, rest, eq) ↦
        let z : ◌≡◌ {A = Option (ℕ × OsalQueueImpl A)} (some (s, record q { free = rest }))
            (some (slot, q')) =
          rw eq at e in
        let same : s ≡ slot = cc in (rest, eq ∙ ap (λ n. n ∷ rest) same, cc)
  ]

  pub take_inv :
      (q q' : OsalQueueImpl A) (slot : ℕ)
      → take_slot q ≡ some (slot, q')
      → (rest : List ℕ) × (q.filled ≡ slot ∷ rest) × (q' ≡ record q { filled = rest })
  unfolding take_slot
  take_inv q q' slot e = elim (List-cases q.filled) [
    | inl empty ↦
        let z : ◌≡◌ {A = Option (ℕ × OsalQueueImpl A)} none (some (slot, q')) = rw empty at e in
        absurd (cc)
    | inr (s, rest, eq) ↦
        let z : ◌≡◌ {A = Option (ℕ × OsalQueueImpl A)} (some (s, record q { filled = rest }))
            (some (slot, q')) =
          rw eq at e in
        let same : s ≡ slot = cc in (rest, eq ∙ ap (λ n. n ∷ rest) same, cc)
  ]

  abbrev pub system : OsalQueueImpl A → List (Sender A) → List ℕ → System A
  system q ss rs = record { queue = q; senders = ss; receivers = rs }

  pub claim-IsValid :
      (q q' : OsalQueueImpl A) (ss : List (Sender A)) (rs : List ℕ) (slot : ℕ) (x : A)
      → claim q ≡ some (slot, q')
      → IsValid (system q ss rs)
      → IsValid (system q' (claimed slot x ∷ ss) rs)
  claim-IsValid q q' ss rs slot x e v =
      let (rest, free, same) = claim_inv q q' slot e in
      subst (λ r. IsValid (system r (claimed slot x ∷ ss) rs)) (sym same)
        (record {
          each = λ k. omega (arith, ap (occ k) free, v.each k);
          total = omega (arith, ap length free, v.total);
          full = v.full;
          kept = kept_claimed v.kept;
        })

  pub take-IsValid :
      (q q' : OsalQueueImpl A) (ss : List (Sender A)) (rs : List ℕ) (slot : ℕ)
      → take_slot q ≡ some (slot, q')
      → IsValid (system q ss rs)
      → IsValid (system q' ss (slot ∷ rs))
  take-IsValid q q' ss rs slot e v =
      let (rest, filled, same) = take_inv q q' slot e in
      subst (λ r. IsValid (system r ss (slot ∷ rs))) (sym same)
        (record {
          each = λ k. omega (arith, ap (occ k) filled, v.each k);
          total = omega (arith, ap length filled, v.total);
          full = v.full;
          kept = v.kept;
        })

  -- A slot in a sender's hands is in no other place, and in range.
  pub sender_alone :
      (q : OsalQueueImpl A) (before after : List (Sender A)) (s : Sender A) (rs : List ℕ)
      → IsValid (system q (before ++ (s ∷ after)) rs)
      → (slot_of s < q.item_count)
        × (occ (slot_of s) q.free ≡ 0)
        × (occ (slot_of s) q.filled ≡ 0)
        × (occ (slot_of s) (sender_slots before) + occ (slot_of s) (sender_slots after) ≡ 0)
        × (occ (slot_of s) rs ≡ 0)
  sender_alone q before after s rs v =
      let k = slot_of s in
      let e = v.each k in
      let split = occ-sender_slots k before (s ∷ after) in
      let self = occ_self k (sender_slots after) in
      let most = once_le k q.item_count in
      (
        once_lt k q.item_count (omega (arith, e, split, self)),
        omega (arith, e, split, self, most),
        omega (arith, e, split, self, most),
        omega (arith, e, split, self, most),
        omega (arith, e, split, self, most),
      )

  pub store-IsValid :
      (q : OsalQueueImpl A) (before after : List (Sender A)) (rs : List ℕ) (slot : ℕ) (x : A)
      → IsValid (system q (before ++ (claimed slot x ∷ after)) rs)
      → IsValid (system (store slot x q) (before ++ (stored slot x ∷ after)) rs)
        × (contents (store slot x q) ≡ contents q)
  store-IsValid q before after rs slot x v =
      let (inside, no_free, no_filled, no_sender, no_receiver) =
        sender_alone q before after (claimed slot x) rs v in
      (
        record {
          each = λ k. omega (
            arith,
            v.each k,
            occ-sender_slots k before (claimed slot x ∷ after),
            occ-sender_slots k before (stored slot x ∷ after),
          );
          total = omega (
            arith,
            v.total,
            length-append before (claimed slot x ∷ after),
            length-append before (stored slot x ∷ after),
          );
          full = length-set q.storage slot x ∙ v.full;
          kept =
              Kept-store q.storage before after slot x (omega (arith, v.full, inside)) no_sender
                v.kept;
        },
        items-set q.storage slot x q.filled no_filled,
      )

  post_succeeds :
      (q : OsalQueueImpl A) (slot : ℕ)
      → length q.filled < q.item_count
      → post slot q ≡ (true, record q { filled = q.filled ++ (slot ∷ []) })
  unfolding post
  post_succeeds q slot room =
      let fits : ltb (length q.filled) q.item_count ≡ true = ground arith in rw fits refl

  pub post-IsValid :
      (q : OsalQueueImpl A) (before after : List (Sender A)) (rs : List ℕ) (slot : ℕ) (x : A)
      → IsValid (system q (before ++ (stored slot x ∷ after)) rs)
      → ((post slot q).0 ≡ true)
        × IsValid (system (post slot q).1 (before ++ after) rs)
        × (contents (post slot q).1 ≡ contents q ++ (some x ∷ []))
  post-IsValid q before after rs slot x v =
      let room : length q.filled < q.item_count =
        omega (arith, v.total, length-append before (stored slot x ∷ after)) in
      let done = post_succeeds q slot room in
      let here = Kept-here q.storage before after slot x v.kept in
      rw done (
        refl,
        record {
          each = λ k. omega (
            arith,
            v.each k,
            occ-append k q.filled (slot ∷ []),
            occ-sender_slots k before (stored slot x ∷ after),
            occ-sender_slots k before after,
          );
          total = omega (
            arith,
            v.total,
            length-append q.filled (slot ∷ []),
            length-append before (stored slot x ∷ after),
            length-append before after,
          );
          full = v.full;
          kept = Kept-drop q.storage before after (stored slot x) v.kept;
        },
        items-append q.storage q.filled (slot ∷ []) ∙ ap (λ o. contents q ++ (o ∷ [])) here,
      )

  release_succeeds :
      (q : OsalQueueImpl A) (slot : ℕ)
      → length q.free < q.item_count
      → release slot q ≡ record q { free = q.free ++ (slot ∷ []) }
  unfolding release
  release_succeeds q slot room =
      let fits : ltb (length q.free) q.item_count ≡ true = ground arith in rw fits refl

  pub release-IsValid :
      (q : OsalQueueImpl A) (ss : List (Sender A)) (before after : List ℕ) (slot : ℕ)
      → IsValid (system q ss (before ++ (slot ∷ after)))
      → IsValid (system (release slot q) ss (before ++ after))
        × (contents (release slot q) ≡ contents q)
  release-IsValid q ss before after slot v =
      let room : length q.free < q.item_count =
        omega (arith, v.total, length-append before (slot ∷ after)) in
      let done = release_succeeds q slot room in
      rw done (
        record {
          each = λ k. omega (
            arith,
            v.each k,
            occ-append k q.free (slot ∷ []),
            occ-append k before (slot ∷ after),
            occ-append k before after,
          );
          total = omega (
            arith,
            v.total,
            length-append q.free (slot ∷ []),
            length-append before (slot ∷ after),
            length-append before after,
          );
          full = v.full;
          kept = v.kept;
        },
        refl,
      )
