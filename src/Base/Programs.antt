-- ===== src/Base/Programs.antt =====
-- A program as the tree of the outside calls that it makes: after each call it goes on with the
-- answer, whatever that is. `Op` lists the calls, and `Ans op` is what a call of `op` may answer.
use stm32f407vgt.Base.{◌≡◌, refl, Bool, true, false, Option, none, some}

pub data Program (Op : Type 0) (Ans : Op → Type 0) (A : Type 0) : Type 0 where
  done : A → Program Op Ans A
  call : (op : Op) → (Ans op → Program Op Ans A) → Program Op Ans A

infixl 5 ◌>>=◌ ◌>>◌
abbrev pub ◌>>=◌ :
    {Op : Type 0} {Ans : Op → Type 0} {A B : Type 0}
    → Program Op Ans A
    → (A → Program Op Ans B)
    → Program Op Ans B
done a >>= f = f a
call op k >>= f = call op (λ x. k x >>= f)

abbrev pub ◌>>◌ :
    {Op : Type 0} {Ans : Op → Type 0} {A B : Type 0}
    → Program Op Ans A
    → Program Op Ans B
    → Program Op Ans B
m >> k = m >>= λ _. k

-- A world that answers the calls.
abbrev pub World : (Op : Type 0) → (Op → Type 0) → Type 0 → Type 0
World Op Ans S = (op : Op) → S → Ans op × S

module _ {Op : Type 0} {Ans : Op → Type 0} where
  abbrev pub run : {S A : Type 0} → World Op Ans S → Program Op Ans A → S → A × S
  run world (done a) s = (a, s)
  run world (call op k) s = let (x, s1) = world op s in run world (k x) s1

  pub run-bind :
      {S A B : Type 0} (world : World Op Ans S) (m : Program Op Ans A) (f : A → Program Op Ans B)
      (s : S)
      → run world (m >>= f) s ≡ run world (f (run world m s).0) (run world m s).1
  run-bind world (done a) f s = refl
  run-bind world (call op k) f s = run-bind world (k (world op s).0) f (world op s).1

-- Rules on the calls: which ones a state of the rules allows, and the state that an answer leads to.
pub record Rules (Op : Type 0) (Ans : Op → Type 0) (R : Type 0) : Type 1 where
  pub allowed : Op → R → Type 0
  pub after : (op : Op) → Ans op → R → R

module _ {Op : Type 0} {Ans : Op → Type 0} {R : Type 0} (rules : Rules Op Ans R) where
  -- From `r` every call is allowed, whatever was answered, and the end satisfies `Q`.
  abbrev pub Follows : {A : Type 0} → Program Op Ans A → R → (A → R → Type 0) → Type 0
  Follows (done a) r Q = Q a r
  Follows (call op k) r Q =
      rules.allowed op r × ((x : Ans op) → Follows (k x) (rules.after op x r) Q)

  pub Follows-bind :
      {A B : Type 0} (m : Program Op Ans A) (f : A → Program Op Ans B) (r : R) (P : A → R → Type 0)
      (Q : B → R → Type 0)
      → Follows m r P
      → ((a : A) (r1 : R) → P a r1 → Follows (f a) r1 Q)
      → Follows (m >>= f) r Q
  Follows-bind (done a) f r P Q h next = next a r h
  Follows-bind (call op k) f r P Q (ok, h) next =
      (ok, λ x. Follows-bind (k x) f (rules.after op x r) P Q (h x) next)

  -- In a world whose states `Rel` ties to those of the rules, the end of a run is tied to a state that
  -- satisfies `Q`.
  pub Follows-run :
      {S A : Type 0} (world : World Op Ans S) (Rel : S → R → Type 0)
      → ((op : Op) (s : S) (r : R)
          → rules.allowed op r
          → Rel s r
          → Rel (world op s).1 (rules.after op (world op s).0 r))
      → (m : Program Op Ans A) (s : S) (r : R) (Q : A → R → Type 0) → Follows m r Q
      → Rel s r
      → (r1 : R) × (Q (run world m s).0 r1 × Rel (run world m s).1 r1)
  Follows-run world Rel keep (done a) s r Q h t = (r, (h, t))
  Follows-run world Rel keep (call op k) s r Q (ok, h) t =
      let (x, s1) = world op s in
      Follows-run world Rel keep (k x) s1 (rules.after op x r) Q (h x) (keep op s r ok t)

-- To prove a property for every answer of a call, case by case.
pub each_option :
    {A : Type 0} (P : Option A → Type 0) → P none → ((a : A) → P (some a)) → (x : Option A) → P x
each_option P missing found none = missing
each_option P missing found (some a) = found a

pub each_bool : (P : Bool → Type 0) → P false → P true → (x : Bool) → P x
each_bool P no_ yes_ false = no_
each_bool P no_ yes_ true = yes_
