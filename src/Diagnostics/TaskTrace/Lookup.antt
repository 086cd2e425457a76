-- ===== src/Diagnostics/TaskTrace/Lookup.antt =====
-- The table as a map from task names to records: what each operation does to the record of each
-- name, and that no two slots share a name.
use text.Mathlib.Text.{◌==◌ as str_eq}
use text.Mathlib.TextEquality.{eq_iff}
use text.Mathlib.TextPositions.{eq_refl}
use mathlib.Core.Option
use Prim.Native.String.{String}
use stm32f407vgt.Base.{
  ℕ, zero, suc, ◌≡◌, refl, ap, inl, inr, Option, none, some, [], ◌∷◌, ◌++◌, length, if◌then◌else◌,
  arith, Bool-cases, Option-cases,
}
use stm32f407vgt.Diagnostics.TaskTrace.{AppTaskTrace, Table, find_existing, update, at}

-- The record that a name stands for.
abbrev pub lookup : String → Table → Option AppTaskTrace
lookup name ts = at (find_existing name ts) ts

at-suc : (o : Option ℕ) (t : AppTaskTrace) (ts : Table) → at (Option.map suc o) (t ∷ ts) ≡ at o ts
at-suc none t ts = refl
at-suc (some i) t ts = refl

pub lookup-cons :
    (name : String) (t : AppTaskTrace) (ts : Table)
    → lookup name (t ∷ ts) ≡ (if str_eq t.task_name name then some t else lookup name ts)
unfolding find_existing
lookup-cons name t ts = elim (Bool-cases (str_eq t.task_name name)) [
  | inl same ↦ rw (same, find_existing)
  | inr other ↦ rw (other, find_existing) (at-suc (find_existing name ts) t ts)
]

-- A write keeps the name of its slot.
abbrev pub KeepsName : (AppTaskTrace → AppTaskTrace) → Type 0
KeepsName f = (t : AppTaskTrace) → (f t).task_name ≡ t.task_name

pub no_zero : (o : Option ℕ) → Option.map suc o ≡ some zero → ⊥
no_zero none e = cc
no_zero (some i) e = let z : suc i ≡ 0 = cc in omega arith

pub map-suc : (o : Option ℕ) {i : ℕ} → Option.map suc o ≡ some (suc i) → o ≡ some i
map-suc none e = absurd (cc)
map-suc (some j) {i} e = let z : suc j ≡ suc i = cc in ap some (omega arith)

map-none : (o : Option ℕ) → Option.map suc o ≡ none → o ≡ none
map-none none e = refl
map-none (some j) e = absurd (cc)

pub lookup-update :
    (ts : Table) (name j : String) (i : ℕ) (f : AppTaskTrace → AppTaskTrace)
    → KeepsName f
    → find_existing name ts ≡ some i
    → lookup j (update ts i f) ≡ (if str_eq name j then Option.map f (lookup j ts) else lookup j ts)
unfolding find_existing update
lookup-update [] name j i f k e = absurd (cc)
lookup-update (t ∷ ts) name j zero f k e = elim (Bool-cases (str_eq t.task_name name)) [
  | inl same ↦ simp lookup-cons (
      simp (k t)
        (ground (arith, same, eq_iff t.task_name name, eq_iff name j, eq_iff t.task_name j)))
  | inr other ↦ absurd (no_zero (find_existing name ts) (rw (other, find_existing) at e))
]
lookup-update (t ∷ ts) name j (suc i) f k e = elim (Bool-cases (str_eq t.task_name name)) [
  | inl same ↦ let z : some 0 ≡ some (suc i) = rw (same, find_existing) at e in absurd (cc)
  | inr other ↦
      let e' : find_existing name ts ≡ some i =
        map-suc (find_existing name ts) (rw (other, find_existing) at e) in
      simp lookup-cons (
        rw (lookup-update ts name j i f k e')
          (ground (arith, other, eq_iff t.task_name name, eq_iff name j, eq_iff t.task_name j)))
]

pub lookup-append :
    (ts : Table) (t : AppTaskTrace) (j : String)
    → find_existing t.task_name ts ≡ none
    → lookup j (ts ++ (t ∷ [])) ≡ (if str_eq t.task_name j then some t else lookup j ts)
unfolding find_existing
lookup-append [] t j e = lookup-cons j t []
lookup-append (u ∷ ts) t j e = elim (Bool-cases (str_eq u.task_name t.task_name)) [
  | inl same ↦
      let z : ◌≡◌ {A = Option ℕ} (some 0) none = rw (same, find_existing) at e in absurd (cc)
  | inr other ↦
      let e' : find_existing t.task_name ts ≡ none =
        map-none (find_existing t.task_name ts) (rw (other, find_existing) at e) in
      simp lookup-cons (
        rw (lookup-append ts t j e') (
          ground (
            arith,
            other,
            eq_iff u.task_name t.task_name,
            eq_iff t.task_name j,
            eq_iff u.task_name j,
          )))
]

pub lookup-none :
    (name : String) (ts : Table) → find_existing name ts ≡ none → lookup name ts ≡ none
lookup-none name ts e = rw e

pub find_existing-lookup :
    (name : String) (ts : Table) → lookup name ts ≡ none → find_existing name ts ≡ none
unfolding find_existing
find_existing-lookup name [] e = refl
find_existing-lookup name (t ∷ ts) e = elim (Bool-cases (str_eq t.task_name name)) [
  | inl same ↦ let z : some t ≡ none = rw (lookup-cons name t ts, same) at e in absurd (cc)
  | inr other ↦
      let z : lookup name ts ≡ none = rw (lookup-cons name t ts, other) at e in
      rw (other, find_existing, find_existing-lookup name ts z)
]

pub find_existing-some :
    (name : String) (ts : Table) {i : ℕ}
    → find_existing name ts ≡ some i
    → (t : AppTaskTrace) × (lookup name ts ≡ some t)
find_existing-some name ts {i} e = elim (Option-cases (lookup name ts)) [
  | inl gone ↦
      let z : find_existing name ts ≡ none = find_existing-lookup name ts gone in absurd (cc)
  | inr there ↦ there
]

pub find_existing-append :
    (ts : Table) (t : AppTaskTrace)
    → find_existing t.task_name ts ≡ none
    → find_existing t.task_name (ts ++ (t ∷ [])) ≡ some (length ts)
unfolding find_existing
find_existing-append [] t e = rw eq_refl
find_existing-append (u ∷ ts) t e = elim (Bool-cases (str_eq u.task_name t.task_name)) [
  | inl same ↦
      let z : ◌≡◌ {A = Option ℕ} (some 0) none = rw (same, find_existing) at e in absurd (cc)
  | inr other ↦
      let e' : find_existing t.task_name ts ≡ none =
        map-none (find_existing t.task_name ts) (rw (other, find_existing) at e) in
      rw (other, find_existing, find_existing-append ts t e')
]

pub find_existing-update :
    (ts : Table) (j : String) (i : ℕ) (f : AppTaskTrace → AppTaskTrace)
    → KeepsName f
    → find_existing j (update ts i f) ≡ find_existing j ts
unfolding find_existing update
find_existing-update [] j i f k = refl
find_existing-update (t ∷ ts) j zero f k =
    ap (λ n. if str_eq n j then some 0 else Option.map suc (find_existing j ts)) (k t)
find_existing-update (t ∷ ts) j (suc i) f k =
    ap (λ o. if str_eq t.task_name j then some 0 else Option.map suc o)
      (find_existing-update ts j i f k)
