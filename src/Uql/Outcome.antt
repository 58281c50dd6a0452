-- ===== src/Uql/Outcome.antt =====
-- What a call comes to: a value, the text of an error, or the panic of a nil pointer.
use Prim.Native.String.{◌++◌ as ◌+++◌}
use mirador_core.Prelude.{String, Bool, true, false}

pub data Outcome {ℓ} (A : Type ℓ) : Type ℓ where
  done : A → Outcome A
  failed : String → Outcome A
  panicked : Outcome A

abbrev pub map_outcome {ℓ κ} : {A : Type ℓ} {B : Type κ} → (A → B) → Outcome A → Outcome B
map_outcome g (done a) = done (g a)
map_outcome g (failed message) = failed message
map_outcome g panicked = panicked

-- What holds of the value, when there is one.
abbrev pub OnDone {ℓ} : {A : Type ℓ} → (A → Type 0) → Outcome A → Type 0
OnDone P (done a) = P a
OnDone P _ = Unit

abbrev pub IsDone {ℓ} : {A : Type ℓ} → Outcome A → Type 0
IsDone (done a) = Unit
IsDone _ = ⊥

infixl 5 ◌>>=◌ ◌>>◌
unfoldable pub ◌>>=◌ {ℓ κ} : {A : Type ℓ} {B : Type κ} → Outcome A → (A → Outcome B) → Outcome B
done a >>= f = f a
failed message >>= f = failed message
panicked >>= f = panicked

abbrev pub ◌>>◌ {ℓ} : {B : Type ℓ} → Outcome (Unit {0}) → Outcome B → Outcome B
m >> k = m >>= λ _. k

-- An early return with an error.
abbrev pub reject_if : Bool → String → Outcome (Unit {0})
reject_if true message = failed message
reject_if false message = done tt

-- `fmt.Errorf` with the text of another error at its end.
unfoldable pub wrap_error {ℓ} : {A : Type ℓ} → String → Outcome A → Outcome A
wrap_error prefix (failed message) = failed (prefix +++ message)
wrap_error prefix o = o

-- What holds of the first value carries what holds of the second.
pub bind_lem {ℓ κ} :
    {A : Type ℓ} {B : Type κ} (Q : A → Type 0) (P : B → Type 0) (m : Outcome A) (f : A → Outcome B)
    → OnDone Q m
    → ((a : A) → Q a → OnDone P (f a))
    → OnDone P (m >>= f)
unfolding ◌>>=◌
bind_lem Q P (done a) f h k = k a h
bind_lem Q P (failed _) f h k = tt
bind_lem Q P panicked f h k = tt

-- Nothing is known of the first value.
pub bind_any {ℓ κ} :
    {A : Type ℓ} {B : Type κ} (P : B → Type 0) (m : Outcome A) (f : A → Outcome B)
    → ((a : A) → OnDone P (f a))
    → OnDone P (m >>= f)
unfolding ◌>>=◌
bind_any P (done a) f k = k a
bind_any P (failed _) f k = tt
bind_any P panicked f k = tt

-- The first value may be found under an error of its own text.
pub bind_wrapped {ℓ κ} :
    {A : Type ℓ} {B : Type κ} (Q : A → Type 0) (P : B → Type 0) (prefix : String) (m : Outcome A)
    (f : A → Outcome B)
    → OnDone Q m
    → ((a : A) → Q a → OnDone P (f a))
    → OnDone P (wrap_error prefix m >>= f)
unfolding ◌>>=◌ wrap_error
bind_wrapped Q P prefix (done a) f h k = k a h
bind_wrapped Q P prefix (failed _) f h k = tt
bind_wrapped Q P prefix panicked f h k = tt

pub OnDone-trans {ℓ} :
    {A : Type ℓ} (P Q : A → Type 0) (o : Outcome A)
    → ((a : A) → P a → Q a)
    → OnDone P o
    → OnDone Q o
OnDone-trans P Q (done a) h p = h a p
OnDone-trans P Q (failed _) h p = tt
OnDone-trans P Q panicked h p = tt
