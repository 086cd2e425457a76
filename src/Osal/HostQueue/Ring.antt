-- ===== src/Osal/HostQueue/Ring.antt =====
-- The slots of the ring that hold items, oldest first, and the invariant of the indices.
use native.Mathlib.Nat.{mod-add-mod, mod-eq_of_lt, mod-eq-sub-mod, add-zero}
use native.Mathlib.Decide.{dec_lt}
use stm32f407vgt.Base.{
  ℕ, zero, suc, ◌+◌, ◌-◌, ◌%◌, ◌^◌, ◌≤◌, ◌<◌, ◌≡◌, ◌≢◌, refl, ap, ◌∙◌, Option, none, some, List, [],
  ◌∷◌, ◌++◌, arith, length, get_elem?, set, get_elem?-set_self, get_elem?-set_ne, get_elem?-some,
}
use stm32f407vgt.Osal.HostQueue.{HostQueue}

module _ {ℓ} {A : Type ℓ} where
  abbrev pub cons? : Option A → List A → List A
  cons? none xs = xs
  cons? (some x) xs = x ∷ xs

  -- The items of `n` slots from `h` on, going round at `size`.
  abbrev pub window : List A → ℕ → ℕ → ℕ → List A
  window buf size h zero = []
  window buf size h (suc n) = cons? (get_elem? buf h) (window buf size ((h + 1) % size) n)

  abbrev pub contents : HostQueue A → List A
  contents q = window q.buffer q.capacity q.head q.count

-- The indices stay in the buffer, no counter wraps, and `tail` is `count` slots past `head`.
pub record IsValid {ℓ} {A : Type ℓ} (q : HostQueue A) : Type 0 where
  pub nonempty : 0 < q.capacity
  pub small : q.capacity < 2 ^ 32
  pub storage : q.capacity ≤ length q.buffer
  pub head_in : q.head < q.capacity
  pub count_in : q.count ≤ q.capacity
  pub tail_at : q.tail ≡ (q.head + q.count) % q.capacity

next-eq : (h n size : ℕ) → (h + suc n) % size ≡ ((h + 1) % size + n) % size
next-eq h n size = rw mod-add-mod (ap (λ k. k % size) (omega arith))

-- Fewer than `size` steps round the ring do not come back to the start.
step-ne : (size h k : ℕ) → h < size → suc k < size → (h + suc k) % size ≢ h
step-ne size h k hh hk = elim (dec_lt (h + suc k) size) [
  | yes p ↦ omega (arith, mod-eq_of_lt p)
  | no p ↦ omega (
    arith,
    mod-eq-sub-mod {n = h + suc k} {m = size} (omega arith),
    mod-eq_of_lt {n = h + suc k - size} {m = size} (omega arith),
  )
]

-- `tail` after a send and after a receive.
pub tail-store :
    (size h n t : ℕ) → 0 < size → t ≡ (h + n) % size → (t + 1) % size ≡ (h + (n + 1)) % size
tail-store size h n t hc e = rw (e, mod-add-mod) (ap (λ k. k % size) (omega arith))

pub tail-take :
    (size h n t : ℕ) → 0 < n → t ≡ (h + n) % size → t ≡ ((h + 1) % size + (n - 1)) % size
tail-take size h n t hn e = rw (e, mod-add-mod) (ap (λ k. k % size) (omega arith))

module _ {ℓ} {A : Type ℓ} where
  pub length-window :
      (buf : List A) (size h n : ℕ)
      → size ≤ length buf
      → h < size
      → length (window buf size h n) ≡ n
  length-window buf size h zero hs hh = refl
  length-window buf size h (suc n) hs hh =
      let found = get_elem?-some buf h (omega arith) in
      rw (found.1) (ap suc (length-window buf size ((h + 1) % size) n hs (omega arith)))

  cons?-append : (o : Option A) (xs ys : List A) → cons? o (xs ++ ys) ≡ cons? o xs ++ ys
  cons?-append none xs ys = refl
  cons?-append (some x) xs ys = refl

  -- A write to the slot behind a window that leaves room extends it by that item.
  pub window-set :
      (buf : List A) (size : ℕ) (x : A) (n h i : ℕ)
      → size ≤ length buf
      → h < size
      → n < size
      → i ≡ (h + n) % size
      → window (set buf i x) size h (suc n) ≡ window buf size h n ++ (x ∷ [])
  window-set buf size x zero h i hs hh hn e =
      rw (e, add-zero, mod-eq_of_lt hh, get_elem?-set_self buf h x (omega arith))
  window-set buf size x (suc n) h i hs hh hn e =
      rw (get_elem?-set_ne buf i h x (rw e (step-ne size h n hh hn))) (
        ap (cons? (get_elem? buf h)) (
          window-set buf size x n ((h + 1) % size) i hs (omega arith) (omega arith)
            (e ∙ next-eq h n size))
        ∙ cons?-append (get_elem? buf h) (window buf size ((h + 1) % size) n) (x ∷ []))
