-- ===== src/Storage/Client/Futures.antt =====
-- Every future that a scenario claims is given back: waited for or abandoned, once.
use Prim.Native.String.{String}
use stm32f407vgt.Base.{
  ℕ, ◌≡◌, refl, inl, inr, Bool-cases, Bool, true, false, Option, none, some, List, [], ◌∷◌,
}
use stm32f407vgt.Base.Programs.{◌>>=◌, ◌>>◌, Rules, Follows, each_option, each_bool, Follows-bind}
use stm32f407vgt.Storage.Client.{
  Future, Op, Ans, Client, create, send, wait_for, abandon, exit, log_scenario_result,
}
use stm32f407vgt.Storage.Client.Helpers.{
  write_block_sync, read_block_byte_sync, occupy_servicer, drain_occupy_future,
}

abbrev pub top : List Future → Option Future
top [] = none
top (f ∷ fs) = some f

abbrev pub below : List Future → List Future
below [] = []
below (f ∷ fs) = fs

abbrev pub with_claim : Option Future → List Future → List Future
with_claim none held = held
with_claim (some f) held = f ∷ held

-- Of the futures that a task holds, latest first: it sends, waits for and abandons only the latest one,
-- a wait and an abandon give it back, and a task that exits holds none.
abbrev pub ownership : Rules Op Ans (List Future)
ownership = record { allowed = allowed; after = after }
  where
    allowed : Op → List Future → Type 0
    allowed (send r f t) held = top held ≡ some f
    allowed (wait_for f t b) held = top held ≡ some f
    allowed (abandon f) held = top held ≡ some f
    allowed exit held = held ≡ []
    allowed _ held = Unit {0}

    after : (op : Op) → Ans op → List Future → List Future
    after create x held = with_claim x held
    after (wait_for f t b) x held = below held
    after (abandon f) x held = below held
    after _ x held = held

-- A program that begins and ends with the same futures.
abbrev pub Returns : {A : Type 0} → Client A → List Future → Type 0
Returns m held = Follows ownership m held (λ _ after. after ≡ held)

pub Returns-bind :
    {A B : Type 0} (m : Client A) (k : A → Client B) (held : List Future)
    → Returns m held
    → ((a : A) → Returns (k a) held)
    → Returns (m >>= k) held
Returns-bind m k held h next =
    Follows-bind ownership m k held (λ _ after. after ≡ held) (λ _ after. after ≡ held) h
      (λ a after same. rw same (next a))

pub log_scenario_result-Returns :
    (name : String) (pass : Bool) (detail : String) (held : List Future)
    → Returns (log_scenario_result name pass detail) held
unfolding log_scenario_result
log_scenario_result-Returns name true detail held = (tt, λ _. refl)
log_scenario_result-Returns name false detail held = (tt, λ _. (tt, λ _. refl))

pub write_block_sync-Returns :
    (block value : ℕ) (held : List Future) → Returns (write_block_sync block value) held
unfolding write_block_sync
write_block_sync-Returns block value held =
    (tt, each_option _ refl (λ f. (refl, each_bool _ (refl, λ _. refl) (refl, λ w. refl))))

pub read_block_byte_sync-Returns :
    (block : ℕ) (held : List Future) → Returns (read_block_byte_sync block) held
unfolding read_block_byte_sync
read_block_byte_sync-Returns block held =
    (tt, each_option _ refl (λ f. (refl, each_bool _ (refl, λ _. refl) (refl, λ w. refl))))

-- The future that keeps the service busy stays with the caller.
pub occupy_servicer-claims :
    (held : List Future)
    → Follows ownership occupy_servicer held (λ claimed after. after ≡ with_claim claimed held)
unfolding occupy_servicer
occupy_servicer-claims held =
    (tt, each_option _ refl (λ f. (refl, each_bool _ (refl, λ _. refl) (tt, λ _. refl))))

pub drain_occupy_future-gives_back :
    (name : String) (f : Future) (held : List Future)
    → Follows ownership (drain_occupy_future name f) (f ∷ held) (λ _ after. after ≡ held)
unfolding drain_occupy_future
drain_occupy_future-gives_back name f held = (
  tt,
  λ _. (
    refl,
    λ w. elim (Bool-cases w.completed) [
      | inl done_ ↦ rw done_ refl
      | inr late ↦ rw late (tt, λ _. (tt, λ _. refl))
    ],
  ),
)

-- `drain_occupy_future` and what follows it.
pub drain-then :
    {B : Type 0} (name : String) (f : Future) (k : Client B) (held : List Future)
    → Returns k held
    → Follows ownership (drain_occupy_future name f >> k) (f ∷ held) (λ _ after. after ≡ held)
drain-then name f k held next =
    Follows-bind ownership (drain_occupy_future name f) (λ _. k) (f ∷ held)
      (λ _ after. after ≡ held) (λ _ after. after ≡ held)
      (drain_occupy_future-gives_back name f held) (λ a after same. rw same next)

-- A report of a failure before the drain.
pub report-drain :
    (scenario detail name : String) (f : Future) (held : List Future)
    → Follows ownership
        (log_scenario_result scenario false detail >> drain_occupy_future name f)
        (f ∷ held)
        (λ _ after. after ≡ held)
report-drain scenario detail name f held =
    Follows-bind ownership (log_scenario_result scenario false detail)
      (λ _. drain_occupy_future name f) (f ∷ held) (λ _ after. after ≡ f ∷ held)
      (λ _ after. after ≡ held) (log_scenario_result-Returns scenario false detail (f ∷ held))
      (λ a after same. rw same (drain_occupy_future-gives_back name f held))
