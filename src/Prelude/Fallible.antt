-- ===== src/Prelude/Fallible.antt =====
-- Calls that change a state and may fail. What was changed stays changed after a failure.
use Prim.{Unit, tt}
use mathlib.Core.Path.{◌≡◌, refl, subst}
use mathlib.Core.Logic.{◌⊎◌, inl, inr}
use mathlib.Core.Bool.{Bool, true, false}

pub data Result (E A : Type 0) : Type 0 where
  ok : A → Result E A
  err : E → Result E A

abbrev pub Action : Type 0 → Type 0 → Type 0 → Type 0
Action B E A = B → B × Result E A

abbrev pub pure : {B E A : Type 0} → A → Action B E A
pure a b = (b, ok a)

abbrev pub raise : {B E A : Type 0} → E → Action B E A
raise e b = (b, err e)

abbrev pub map_err : {B E E' A : Type 0} → (E → E') → Action B E A → Action B E' A
map_err f m b = let (b₁, r) = m b in elim r [ ok a ↦ (b₁, ok a) | err e ↦ (b₁, err (f e)) ]

infixl 5 ◌>>=◌ ◌>>◌
abbrev pub ◌>>=◌ : {B E A C : Type 0} → Action B E A → (A → Action B E C) → Action B E C
◌>>=◌ m f b = let (b₁, r) = m b in elim r [ ok a ↦ f a b₁ | err e ↦ (b₁, err e) ]

abbrev pub ◌>>◌ : {B E A C : Type 0} → Action B E A → Action B E C → Action B E C
m >> k = m >>= λ _. k

abbrev pub is_ok : {E A : Type 0} → Result E A → Bool
is_ok (ok a) = true
is_ok (err e) = false

-- What is answered meets `P`, if anything is.
abbrev pub Answers : {E A : Type 0} → (A → Type 0) → Result E A → Type 0
Answers P (ok a) = P a
Answers P (err e) = Unit

pub Answers-ok :
    {E A : Type 0} (P : A → Type 0) (r : Result E A) (a : A) → Answers P r → r ≡ ok a → P a
Answers-ok P r a h e = subst (Answers P) e h

bind_of :
    {B E A C : Type 0} (P : A → Type 0) (Q : C → Type 0) (r : B × Result E A) (f : A → Action B E C)
    → Answers P r.1
    → ((a : A) (b₁ : B) → P a → Answers Q (f a b₁).1)
    → Answers Q (((λ (b : B). r) >>= f) r.0).1
bind_of P Q (b, ok a) f h k = k a b h
bind_of P Q (b, err e) f h k = tt

pub bind-Answers :
    {B E A C : Type 0} (P : A → Type 0) (Q : C → Type 0) (m : Action B E A) (f : A → Action B E C)
    (b : B)
    → Answers P (m b).1
    → ((a : A) (b₁ : B) → P a → Answers Q (f a b₁).1)
    → Answers Q ((m >>= f) b).1
bind-Answers P Q m f b h k = bind_of P Q (m b) f h k

pub Result-cases :
    {E A : Type 0} (r : Result E A) → ((a : A) × (r ≡ ok a)) ⊎ ((e : E) × (r ≡ err e))
Result-cases (ok a) = inl (a, refl)
Result-cases (err e) = inr (e, refl)

-- What a call leaves behind: `P` with an answer, and `Q` with an error.
abbrev pub Leaves : {B E A : Type 0} → (A → B → Type 0) → (B → Type 0) → B × Result E A → Type 0
Leaves P Q (b, ok a) = P a b
Leaves P Q (b, err e) = Q b

module _ {B E A : Type 0} (P : A → B → Type 0) (Q : B → Type 0) where
  pub every-Leaves : (r : B × Result E A) → ((a : A) → P a r.0) → Q r.0 → Leaves P Q r
  every-Leaves (b, ok a) p q = p a
  every-Leaves (b, err e) p q = q

  then-Leaves :
      {C : Type 0} (R : C → B → Type 0) (r : B × Result E A) (f : A → Action B E C)
      → Leaves P Q r
      → ((a : A) (b : B) → P a b → Leaves R Q (f a b))
      → Leaves R Q (((λ (b : B). r) >>= f) r.0)
  then-Leaves R (b, ok a) f h k = k a b h
  then-Leaves R (b, err e) f h k = h

  pub bind-Leaves :
      {C : Type 0} (R : C → B → Type 0) (m : Action B E A) (f : A → Action B E C) (b : B)
      → Leaves P Q (m b)
      → ((a : A) (b₁ : B) → P a b₁ → Leaves R Q (f a b₁))
      → Leaves R Q ((m >>= f) b)
  bind-Leaves R m f b h k = then-Leaves R (m b) f h k

  error-Leaves :
      {E' : Type 0} (f : E → E') (r : B × Result E A)
      → Leaves P Q r
      → Leaves P Q (map_err f (λ (b : B). r) r.0)
  error-Leaves f (b, ok a) h = h
  error-Leaves f (b, err e) h = h

  pub map_err-Leaves :
      {E' : Type 0} (f : E → E') (m : Action B E A) (b : B)
      → Leaves P Q (m b)
      → Leaves P Q (map_err f m b)
  map_err-Leaves f m b h = error-Leaves f (m b) h

pub Leaves-ok :
    {B E A : Type 0} (P : A → B → Type 0) (Q : B → Type 0) (r : B × Result E A) (a : A)
    → Leaves P Q r
    → r.1 ≡ ok a
    → P a r.0
Leaves-ok P Q r a h e = subst (λ s. Leaves P Q (r.0, s)) e h

pub Leaves-err :
    {B E A : Type 0} (P : A → B → Type 0) (Q : B → Type 0) (r : B × Result E A) (x : E)
    → Leaves P Q r
    → r.1 ≡ err x
    → Q r.0
Leaves-err P Q r x h e = subst (λ s. Leaves P Q (r.0, s)) e h
