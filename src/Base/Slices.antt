-- ===== src/Base/Slices.antt =====
-- Parts of a byte sequence, and what an overwrite does to them.
use Prim.Native.Nat.{ℕ, zero, suc, ◌+◌, ◌-◌, ◌≤◌}
use mathlib.Core.Path.{◌≡◌, refl, sym, ap, ◌∙◌}
use mathlib.Core.List.{List, [], ◌∷◌, ◌++◌}
use native.Mathlib.Omega.{arith}
use stm32f407vgt.Base.Lists.{length, take, drop, length-take, length-append, length-drop}

module _ {ℓ} {A : Type ℓ} where
  -- The `n` items from `p` on.
  abbrev pub slice : ℕ → ℕ → List A → List A
  slice p n xs = take n (drop p xs)

  take-append : (n : ℕ) (xs ys : List A) → n ≤ length xs → take n (xs ++ ys) ≡ take n xs
  take-append zero xs ys h = refl
  take-append (suc n) [] ys h = absurd (omega arith)
  take-append (suc n) (x ∷ xs) ys h = ap (λ zs. x ∷ zs) (take-append n xs ys (omega arith))

  pub take-length : (n : ℕ) (xs : List A) → length xs ≤ n → take n xs ≡ xs
  take-length zero [] h = refl
  take-length zero (x ∷ xs) h = absurd (omega arith)
  take-length (suc n) [] h = refl
  take-length (suc n) (x ∷ xs) h = ap (λ zs. x ∷ zs) (take-length n xs (omega arith))

  drop-append : (p : ℕ) (xs ys : List A) → p ≡ length xs → drop p (xs ++ ys) ≡ ys
  drop-append zero [] ys h = refl
  drop-append zero (x ∷ xs) ys h = absurd (omega arith)
  drop-append (suc p) [] ys h = absurd (omega arith)
  drop-append (suc p) (x ∷ xs) ys h = drop-append p xs ys (omega arith)

  -- A slice within a prefix is a slice of the whole.
  slice-take : (q n m : ℕ) (xs : List A) → q + n ≤ m → slice q n (take m xs) ≡ slice q n xs
  slice-take q zero m xs h = refl
  slice-take zero (suc n) zero xs h = absurd (omega arith)
  slice-take zero (suc n) (suc m) [] h = refl
  slice-take zero (suc n) (suc m) (x ∷ xs) h =
      ap (λ zs. x ∷ zs) (slice-take zero n m xs (omega arith))
  slice-take (suc q) (suc n) zero xs h = absurd (omega arith)
  slice-take (suc q) (suc n) (suc m) [] h = refl
  slice-take (suc q) (suc n) (suc m) (x ∷ xs) h = slice-take q (suc n) m xs (omega arith)

  slice-append_left :
      (q n : ℕ) (xs ys : List A) → q + n ≤ length xs → slice q n (xs ++ ys) ≡ slice q n xs
  slice-append_left zero n xs ys h = take-append n xs ys (omega arith)
  slice-append_left (suc q) zero [] ys h = refl
  slice-append_left (suc q) (suc n) [] ys h = absurd (omega arith)
  slice-append_left (suc q) n (x ∷ xs) ys h = slice-append_left q n xs ys (omega arith)

  drop-drop : (q p : ℕ) (xs : List A) → p ≤ q → drop (q - p) (drop p xs) ≡ drop q xs
  drop-drop q zero xs h = ap (λ k. drop k xs) (omega arith)
  drop-drop zero (suc p) xs h = absurd (omega arith)
  drop-drop (suc q) (suc p) [] h = drop-nil (suc q - suc p)
    where
      drop-nil : (k : ℕ) → drop {A = A} k [] ≡ []
      drop-nil zero = refl
      drop-nil (suc k) = refl
  drop-drop (suc q) (suc p) (x ∷ xs) h =
      ap (λ k. drop k (drop p xs)) (omega arith) ∙ drop-drop q p xs (omega arith)

  drop-append_right :
      (q : ℕ) (xs ys : List A) → length xs ≤ q → drop q (xs ++ ys) ≡ drop (q - length xs) ys
  drop-append_right q [] ys h = ap (λ k. drop k ys) (omega arith)
  drop-append_right zero (x ∷ xs) ys h = absurd (omega arith)
  drop-append_right (suc q) (x ∷ xs) ys h =
      drop-append_right q xs ys (omega arith) ∙ ap (λ k. drop k ys) (omega arith)

  -- Two sequences that agree up to the end of the shorter one have the same slices there.
  pub slice-prefix :
      (q n : ℕ) (xs ys : List A)
      → take (length xs) ys ≡ xs
      → q + n ≤ length xs
      → slice q n ys ≡ slice q n xs
  slice-prefix q n xs ys same h = sym (slice-take q n (length xs) ys h) ∙ ap (slice q n) same

-- `bytes` written at `pos` over `old`, whose end it may pass.
abbrev pub overwrite : ℕ → List ℕ → List ℕ → List ℕ
overwrite pos bytes old = take pos old ++ (bytes ++ drop (pos + length bytes) old)

-- The bytes that are written are read back, and the others are what they were.
module _ (p : ℕ) (bytes old : List ℕ) where
  module _ (inside : p ≤ length old) where
    length-left : p ≡ length (take p old)
    length-left = omega (arith, length-take p old)

    pub slice-overwrite : slice p (length bytes) (overwrite p bytes old) ≡ bytes
    slice-overwrite =
        ap (take (length bytes))
          (drop-append p (take p old) (bytes ++ drop (p + length bytes) old) length-left)
        ∙ take-append (length bytes) bytes (drop (p + length bytes) old) (omega arith)
        ∙ take-length (length bytes) bytes (omega arith)

    pub slice-overwrite_before :
        (q n : ℕ) → q + n ≤ p → slice q n (overwrite p bytes old) ≡ slice q n old
    slice-overwrite_before q n h =
        slice-append_left q n (take p old) (bytes ++ drop (p + length bytes) old)
          (omega (arith, length-take p old))
        ∙ slice-take q n p old h

    pub slice-overwrite_after :
        (q n : ℕ) → p + length bytes ≤ q → slice q n (overwrite p bytes old) ≡ slice q n old
    slice-overwrite_after q n h = ap (take n) (
        drop-append_right q (take p old) (bytes ++ drop (p + length bytes) old)
          (omega (arith, length-left))
        ∙ drop-append_right (q - length (take p old)) bytes (drop (p + length bytes) old)
            (omega (arith, length-left))
        ∙ ap (λ k. drop k (drop (p + length bytes) old)) (omega (arith, length-left))
        ∙ drop-drop q (p + length bytes) old h)

    pub length-overwrite : p + length bytes ≤ length (overwrite p bytes old)
    length-overwrite = omega (
      arith,
      length-left,
      length-append (take p old) (bytes ++ drop (p + length bytes) old),
      length-append bytes (drop (p + length bytes) old),
    )

    pub length-overwrite_grows : length old ≤ length (overwrite p bytes old)
    length-overwrite_grows = omega (
      arith,
      length-left,
      length-append (take p old) (bytes ++ drop (p + length bytes) old),
      length-append bytes (drop (p + length bytes) old),
      length-drop (p + length bytes) old,
    )

    pub length-overwrite_same :
        p + length bytes ≤ length old → length (overwrite p bytes old) ≡ length old
    length-overwrite_same h = omega (
      arith,
      length-left,
      length-append (take p old) (bytes ++ drop (p + length bytes) old),
      length-append bytes (drop (p + length bytes) old),
      length-drop (p + length bytes) old,
    )
