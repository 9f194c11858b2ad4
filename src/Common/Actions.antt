-- ===== src/Common/Actions.antt =====
-- A call that reads and writes a state of type S and returns a value or an error. The state comes
-- back after an error too: what was written before the failing step stays written.
use mathlib.Core.Path.{◌≡◌, ap, refl}
use mathlib.Core.Logic.{◌⊎◌, inl, inr}
use native.Mathlib.Omega.{arith}
use mathlib.Core.Bool.{Bool, true, false}
use mathlib.Core.Option.{Option, none, some}

pub data Result (E A : Type 0) : Type 0 where
  ok : A → Result E A
  err : E → Result E A

abbrev pub Action : Type 0 → Type 0 → Type 0 → Type 0
Action S E A = S → Result E A × S

module _ {S E A : Type 0} where
  abbrev pub pure : A → Action S E A
  pure a s = (ok a, s)

  abbrev pub raise : E → Action S E A
  raise e s = (err e, s)

  abbrev pub or_raise : Option A → E → Action S E A
  or_raise none e = raise e
  or_raise (some a) e = pure a

  -- A pure step that may fail.
  abbrev pub lift : Result E A → Action S E A
  lift r s = (r, s)

abbrev pub get : {S E : Type 0} → Action S E S
get s = (ok s, s)

abbrev pub modify : {S E : Type 0} → (S → S) → Action S E (Unit {0})
modify f s = (ok tt, f s)

abbrev pub raise_if : {S E : Type 0} → Bool → E → Action S E (Unit {0})
raise_if true e = raise e
raise_if false e = pure tt

infixl 5 ◌>>=◌ ◌>>◌
abbrev pub ◌>>=◌ : {S E A B : Type 0} → Action S E A → (A → Action S E B) → Action S E B
◌>>=◌ m f s = let (r, s') = m s in elim r [ ok a ↦ f a s' | err e ↦ raise e s' ]

abbrev pub ◌>>◌ : {S E A B : Type 0} → Action S E A → Action S E B → Action S E B
m >> k = m >>= λ _. k

-- A property of the state that a call keeps, however it ends.
abbrev pub Keeps : {S E A : Type 0} → (S → Type 0) → Action S E A → Type 0
Keeps {S} P m = (s : S) → P s → P (m s).1

module _ {S E A B : Type 0} (P : S → Type 0) (m : Action S E A) (f : A → Action S E B) where
  Keeps_result :
      ((a : A) → Keeps P (f a))
      → (r : Result E A) (s : S) → P s
      → P (elim r as (λ x. Result E B × S) [ ok a ↦ f a s | err e ↦ raise e s ]).1
  Keeps_result keep (ok a) s h = keep a s h
  Keeps_result keep (err e) s h = h

  -- A chain of calls keeps what each of its calls keeps.
  pub Keeps->>= : Keeps P m → ((a : A) → Keeps P (f a)) → Keeps P (m >>= f)
  Keeps->>= first rest s h = Keeps_result rest (m s).0 (m s).1 (first s h)

-- A chain of calls whose first one succeeds goes on from there.
pub >>=-ok :
    {S E A B : Type 0} (m : Action S E A) (f : A → Action S E B) (s s' : S) (a : A)
    → m s ≡ (ok a, s')
    → (m >>= f) s ≡ f a s'
>>=-ok {S} {E} {A} {B} m f s s' a e = ap (after f) e
  where
    after : (A → Action S E B) → Result E A × S → Result E B × S
    after g x = elim x.0 [ ok b ↦ g b x.1 | err c ↦ raise c x.1 ]

-- A chain of calls that succeeds has a first call that succeeds, and goes on from there.
pub of_>>= :
    {S E A B : Type 0} (m : Action S E A) (f : A → Action S E B) (s s'' : S) (b : B)
    → (m >>= f) s ≡ (ok b, s'')
    → (a : A) × (s' : S) × (m s ≡ (ok a, s')) × (f a s' ≡ (ok b, s''))
of_>>= {S} {E} {A} {B} m f s s'' b e = split (m s).0 (m s).1 refl
  where
    split :
        (r : Result E A) (s' : S)
        → m s ≡ (r, s')
        → (a : A) × (s' : S) × (m s ≡ (ok a, s')) × (f a s' ≡ (ok b, s''))
    split (ok a) s' h = (a, s', h, ground (arith, h, e))
    split (err c) s' h = absurd (ground (arith, h, e))

-- To split on how a call ends, and keep the equation.
pub Result-cases :
    {E A : Type 0} (r : Result E A) → ((a : A) × (r ≡ ok a)) ⊎ ((e : E) × (r ≡ err e))
Result-cases (ok a) = inl (a, refl)
Result-cases (err e) = inr (e, refl)

-- The same for two calls where the second does not use the result of the first.
pub Keeps->> :
    {S E A B : Type 0} (P : S → Type 0) (m : Action S E A) (n : Action S E B)
    → Keeps P m
    → Keeps P n
    → Keeps P (m >> n)
Keeps->> P m n first rest = Keeps->>= P m (λ _. n) first (λ _. rest)

module _ {S E A : Type 0} (P : S → Type 0) where
  pub Keeps-or_raise : (o : Option A) (e : E) → Keeps P (or_raise o e)
  Keeps-or_raise none e s h = h
  Keeps-or_raise (some a) e s h = h

  pub Keeps-lift : (r : Result E A) → Keeps P (lift r)
  Keeps-lift r s h = h

pub Keeps-raise_if : {S E : Type 0} (P : S → Type 0) (b : Bool) (e : E) → Keeps P (raise_if b e)
Keeps-raise_if P true e s h = h
Keeps-raise_if P false e s h = h

module _ {S E A : Type 0} where
  pub of_or_raise :
      (o : Option A) (e : E) (s s' : S) (a : A)
      → or_raise o e s ≡ (ok a, s')
      → (o ≡ some a) × (s' ≡ s)
  of_or_raise none e s s' a h = absurd (ground (arith, h))
  of_or_raise (some x) e s s' a h = (ground (arith, h), ground (arith, h))

  pub of_lift : (r : Result E A) (s s' : S) (a : A) → lift r s ≡ (ok a, s') → (r ≡ ok a) × (s' ≡ s)
  of_lift r s s' a h = (ground (arith, h), ground (arith, h))

pub of_raise_if :
    {S E : Type 0} (b : Bool) (e : E) (s s' : S) (u : Unit {0})
    → raise_if b e s ≡ (ok u, s')
    → (b ≡ false) × (s' ≡ s)
of_raise_if true e s s' u h = absurd (ground (arith, h))
of_raise_if false e s s' u h = (refl, ground (arith, h))
