-- ===== src/Database.antt =====
-- The database behind the services: gorm.io/gorm on Postgres, as a record of parameters. A table is
-- the list of its rows in some order; a row is the value of the Go struct with the creation time
-- that gorm fills in. `Laws` states what gorm and Postgres document of the statements that succeed.
pub mod Sample
pub mod Rows
use secu_msg_server.Common.{
  ℕ, Bool, true, false, if◌then◌else◌, ◌||◌, Option, none, some, List, [], ◌∷◌, ◌++◌, get_elem?,
  Action, Result, ok, err, ◌≡◌, refl, arith, zero, suc,
}

pub record Row (R : Type 0) : Type 0 where
  pub value : R
  pub created_at : ℕ

abbrev pub Table : Type 0 → Type 0
Table R = List (Row R)

abbrev pub any : {R : Type 0} → (Row R → Bool) → Table R → Bool
any test [] = false
any test (r ∷ t) = test r || any test t

-- The rows that pass the test, rewritten.
abbrev pub update_rows : {R : Type 0} → (R → Bool) → (R → R) → Table R → Table R
update_rows test f [] = []
update_rows test f (r ∷ t) =
    record r { value = if test r.value then f r.value else r.value } ∷ update_rows test f t

-- INSERT of one row with ON CONFLICT: the rows that conflict with it are rewritten, and it is added
-- if there are none.
abbrev pub put : {R : Type 0} → (R → R → Bool) → (R → R → R) → R → ℕ → Table R → Table R
put conflict assign new now t =
    if any (λ r. conflict new r.value) t
    then update_rows (conflict new) (assign new) t
    else t ++ record { value = new; created_at = now } ∷ []

-- One row after the other, each created at some time.
abbrev pub Puts : {R : Type 0} → (R → R → Bool) → (R → R → R) → List R → Table R → Table R → Type 0
Puts conflict assign [] t t' = t' ≡ t
Puts conflict assign (new ∷ rows) t t' =
    (now : ℕ) × Puts conflict assign rows (put conflict assign new now t) t'

-- The rows that pass the test, counted.
abbrev pub count_rows : {R : Type 0} → (R → Bool) → Table R → ℕ
count_rows test [] = 0
count_rows test (r ∷ t) = let n = count_rows test t in if test r.value then suc n else n

abbrev pub delete_rows : {R : Type 0} → (R → Bool) → Table R → Table R
delete_rows test [] = []
delete_rows test (r ∷ t) = let rest = delete_rows test t in if test r.value then rest else r ∷ rest

pub record Gorm (E : Type 0) : Type 1 where
  -- First with Where and Order; none is ErrRecordNotFound.
  pub first :
      {R : Type 0} → (Row R → Bool) → (Row R → Row R → Bool) → Table R → Result E (Option (Row R))
  -- Create of several rows with an OnConflict clause.
  pub create : {R : Type 0} → (R → R → Bool) → (R → R → R) → List R → Table R → Result E (Table R)
  -- Update of the rows that Where selects.
  pub update : {R : Type 0} → (R → Bool) → (R → R) → Table R → Result E (Table R)
  -- The same with RowsAffected.
  pub update_counted : {R : Type 0} → (R → Bool) → (R → R) → Table R → Result E (ℕ × Table R)
  -- Create of one row with no OnConflict clause, and the rows that its unique indexes clash with.
  pub insert : {R : Type 0} → (R → R → Bool) → R → Table R → Result E (Table R)
  pub count : {R : Type 0} → (R → Bool) → Table R → Result E ℕ
  -- Delete of the rows that Where selects.
  pub delete : {R : Type 0} → (R → Bool) → Table R → Result E (Table R)
  pub transaction : {S A : Type 0} → Action S E A → Action S E A

pub record Laws {E : Type 0} (g : Gorm E) : Type 1 where
  pub first_found :
      {R : Type 0} (test : Row R → Bool) (before : Row R → Row R → Bool) (t : Table R) (r : Row R)
      → g.first test before t ≡ ok (some r)
      → (i : ℕ) × (get_elem? t i ≡ some r) × (test r ≡ true)
  pub first_missing :
      {R : Type 0} (test : Row R → Bool) (before : Row R → Row R → Bool) (t : Table R)
      → g.first test before t ≡ ok none
      → any test t ≡ false
  pub created :
      {R : Type 0} (conflict : R → R → Bool) (assign : R → R → R) (rows : List R) (t t' : Table R)
      → g.create conflict assign rows t ≡ ok t'
      → Puts conflict assign rows t t'
  pub updated :
      {R : Type 0} (test : R → Bool) (f : R → R) (t t' : Table R)
      → g.update test f t ≡ ok t'
      → t' ≡ update_rows test f t
  pub updated_counted :
      {R : Type 0} (test : R → Bool) (f : R → R) (n : ℕ) (t t' : Table R)
      → g.update_counted test f t ≡ ok (n, t')
      → (n ≡ count_rows test t) × (t' ≡ update_rows test f t)
  -- A row is added only if no unique index refuses it.
  pub inserted :
      {R : Type 0} (clash : R → R → Bool) (new : R) (t t' : Table R)
      → g.insert clash new t ≡ ok t'
      → (any (λ r. clash new r.value) t ≡ false)
        × (now : ℕ) × (t' ≡ t ++ record { value = new; created_at = now } ∷ [])
  pub counted :
      {R : Type 0} (test : R → Bool) (n : ℕ) (t : Table R)
      → g.count test t ≡ ok n
      → n ≡ count_rows test t
  pub deleted :
      {R : Type 0} (test : R → Bool) (t t' : Table R)
      → g.delete test t ≡ ok t'
      → t' ≡ delete_rows test t
  pub rolled_back :
      {S A : Type 0} (m : Action S E A) (s s' : S) (e : E)
      → g.transaction m s ≡ (err e, s')
      → s' ≡ s
  pub committed :
      {S A : Type 0} (m : Action S E A) (s s' : S) (a : A)
      → g.transaction m s ≡ (ok a, s')
      → m s ≡ (ok a, s')

-- No statement and no commit fails, but an insertion that a unique index refuses.
pub record IsUp {E : Type 0} (g : Gorm E) : Type 1 where
  pub first_ok :
      {R : Type 0} (test : Row R → Bool) (before : Row R → Row R → Bool) (t : Table R)
      → (o : Option (Row R)) × (g.first test before t ≡ ok o)
  pub create_ok :
      {R : Type 0} (conflict : R → R → Bool) (assign : R → R → R) (rows : List R) (t : Table R)
      → (t' : Table R) × (g.create conflict assign rows t ≡ ok t')
  pub update_ok :
      {R : Type 0} (test : R → Bool) (f : R → R) (t : Table R)
      → (t' : Table R) × (g.update test f t ≡ ok t')
  pub update_counted_ok :
      {R : Type 0} (test : R → Bool) (f : R → R) (t : Table R)
      → (n : ℕ) × (t' : Table R) × (g.update_counted test f t ≡ ok (n, t'))
  pub insert_ok :
      {R : Type 0} (clash : R → R → Bool) (new : R) (t : Table R)
      → any (λ r. clash new r.value) t ≡ false
      → (t' : Table R) × (g.insert clash new t ≡ ok t')
  pub count_ok : {R : Type 0} (test : R → Bool) (t : Table R) → (n : ℕ) × (g.count test t ≡ ok n)
  pub delete_ok :
      {R : Type 0} (test : R → Bool) (t : Table R) → (t' : Table R) × (g.delete test t ≡ ok t')
  pub transaction_ok :
      {S A : Type 0} (m : Action S E A) (s s' : S) (a : A)
      → m s ≡ (ok a, s')
      → g.transaction m s ≡ (ok a, s')

module _ {R : Type 0} where
  -- A row that passes the test is there, or a row is not.
  pub any_of_get_elem? :
      (test : Row R → Bool) (t : Table R) (i : ℕ) (r : Row R)
      → get_elem? t i ≡ some r
      → test r ≡ true
      → any test t ≡ true
  any_of_get_elem? test [] i r e h = absurd (ground arith)
  any_of_get_elem? test (x ∷ t) zero r e h = let same : x ≡ r = cc in rw (same, h) refl
  any_of_get_elem? test (x ∷ t) (suc i) r e h = ground (arith, any_of_get_elem? test t i r e h)

  pub any-append :
      (test : Row R → Bool) (t u : Table R) → any test (t ++ u) ≡ (any test t || any test u)
  any-append test [] u = refl
  any-append test (x ∷ t) u = ground (arith, any-append test t u)
