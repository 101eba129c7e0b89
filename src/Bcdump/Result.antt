-- ===== src/Bcdump/Result.antt =====
-- The outcome of reading a dump: a value, an error that is thrown, or undefined behaviour of the C
-- code, such as a read past the end of the buffer.
use omniajit.Prelude.{
  ℕ, ◌≡◌, refl, List, Option, none, some, length, take, drop, ltb, if◌then◌else◌,
}

-- `LJ_ERR_BCBAD`, `LJ_ERR_BCFMT`, the error of `lj_err_mem`, and those of tables.
pub data ErrMsg : Type 0 where
  bcbad bcfmt errmem nilidx nanidx tabov : ErrMsg

pub data Result (A : Type 0) : Type 0 where
  ok : A → Result A
  error : ErrMsg → Result A
  undefined : Result A

infixl 5 ◌>>=◌
abbrev pub ◌>>=◌ : {A B : Type 0} → Result A → (A → Result B) → Result B
ok a >>= f = f a
error e >>= f = error e
undefined >>= f = undefined

-- What a reader that knows no errors returns.
abbrev pub defined : {A : Type 0} → Option A → Result A
defined (some a) = ok a
defined none = undefined

-- `bcread_mem`: a block of bytes.
unfoldable pub mem : ℕ → List ℕ → Option (List ℕ × List ℕ)
mem len p = if ltb (length p) len then none else some (take len p, drop len p)

-- The code returns a value with the property.
abbrev pub Returns : {A : Type 0} → Result A → (A → Type 0) → Type 0
Returns (ok a) P = P a
Returns (error e) P = ⊥
Returns undefined P = ⊥

-- If the code returns a value, the value has the property.
abbrev pub Ensures : {A : Type 0} → Result A → (A → Type 0) → Type 0
Ensures (ok a) P = P a
Ensures (error e) P = Unit
Ensures undefined P = Unit

pub Returns-bind :
    {A B : Type 0} (r : Result A) (f : A → Result B) (P : A → Type 0) (Q : B → Type 0)
    → Returns r P
    → ((a : A) → P a → Returns (f a) Q)
    → Returns (r >>= f) Q
Returns-bind (ok a) f P Q h k = k a h
Returns-bind (error e) f P Q h k = h
Returns-bind undefined f P Q h k = h

pub Ensures-bind :
    {A B : Type 0} (r : Result A) (f : A → Result B) (P : A → Type 0) (Q : B → Type 0)
    → Ensures r P
    → ((a : A) → P a → Ensures (f a) Q)
    → Ensures (r >>= f) Q
Ensures-bind (ok a) f P Q h k = k a h
Ensures-bind (error e) f P Q h k = tt
Ensures-bind undefined f P Q h k = tt

pub Returns-weaken :
    {A : Type 0} (r : Result A) (P Q : A → Type 0)
    → Returns r P
    → ((a : A) → P a → Q a)
    → Returns r Q
Returns-weaken (ok a) P Q h k = k a h
Returns-weaken (error e) P Q h k = h
Returns-weaken undefined P Q h k = h

pub Ensures-weaken :
    {A : Type 0} (r : Result A) (P Q : A → Type 0)
    → Ensures r P
    → ((a : A) → P a → Q a)
    → Ensures r Q
Ensures-weaken (ok a) P Q h k = k a h
Ensures-weaken (error e) P Q h k = tt
Ensures-weaken undefined P Q h k = tt

-- What follows a result matters only where the result has the property.
pub bind-Ensures :
    {A B : Type 0} (r : Result A) (f g : A → Result B) (P : A → Type 0)
    → Ensures r P
    → ((a : A) → P a → f a ≡ g a)
    → (r >>= f) ≡ (r >>= g)
bind-Ensures (ok a) f g P h k = k a h
bind-Ensures (error e) f g P h k = refl
bind-Ensures undefined f g P h k = refl

pub Ensures_any :
    {A B : Type 0} (r : Result A) (f : A → Result B) (Q : B → Type 0)
    → ((a : A) → Ensures (f a) Q)
    → Ensures (r >>= f) Q
Ensures_any (ok a) f Q k = k a
Ensures_any (error e) f Q k = tt
Ensures_any undefined f Q k = tt

pub ok-Returns :
    {A : Type 0} (r : Result A) (P : A → Type 0) → Returns r P → (a : A) × (r ≡ ok a) × P a
ok-Returns (ok a) P h = (a, refl, h)
ok-Returns (error e) P h = absurd h
ok-Returns undefined P h = absurd h
