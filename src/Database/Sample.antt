-- ===== src/Database/Sample.antt =====
-- A database that never fails and rolls failed transactions back, on which the witnesses run.
use mathlib.Core.Path.{subst}
use secu_msg_server.Common.{
  ℕ, suc, Bool, true, false, if◌then◌else◌, nat_eq, Option, none, some, List, [], ◌∷◌, ◌++◌,
  get_elem?, Action, ok, err, ◌≡◌, refl, sym, ap, ◌∙◌, arith, inl, inr, Bool-cases, Result-cases,
}
use secu_msg_server.Database.{
  Row, Table, Gorm, Laws, IsUp, any, put, Puts, update_rows, count_rows, delete_rows,
}

module _ {R : Type 0} where
  abbrev pub first_row : (Row R → Bool) → Table R → Option (Row R)
  first_row test [] = none
  first_row test (r ∷ t) = let rest = first_row test t in if test r then some r else rest

  abbrev pub put_all : (R → R → Bool) → (R → R → R) → List R → Table R → Table R
  put_all conflict assign [] t = t
  put_all conflict assign (new ∷ rows) t =
      put_all conflict assign rows (put conflict assign new 0 t)

  put_all-Puts :
      (conflict : R → R → Bool) (assign : R → R → R) (rows : List R) (t : Table R)
      → Puts conflict assign rows t (put_all conflict assign rows t)
  put_all-Puts conflict assign [] t = refl
  put_all-Puts conflict assign (new ∷ rows) t =
      (0, put_all-Puts conflict assign rows (put conflict assign new 0 t))

  first_row_found :
      (test : Row R → Bool) (t : Table R) (r : Row R)
      → first_row test t ≡ some r
      → (i : ℕ) × (get_elem? t i ≡ some r) × (test r ≡ true)
  first_row_found test [] r e = absurd (ground arith)
  first_row_found test (x ∷ t) r e = elim (Bool-cases (test x)) [
    | inl here ↦
        let same : x ≡ r = ground (arith, here, e) in (0, ap some same, sym (ap test same) ∙ here)
    | inr later ↦
        let (i, at, passes) = first_row_found test t r (ground (arith, later, e)) in
        (suc i, at, passes)
  ]

  first_row_missing :
      (test : Row R → Bool) (t : Table R) → first_row test t ≡ none → any test t ≡ false
  first_row_missing test [] e = refl
  first_row_missing test (x ∷ t) e = ground (arith, first_row_missing test t, e)

abbrev pub rolled : {S E A : Type 0} → Action S E A → Action S E A
rolled m s = let (r, s') = m s in elim r [ ok a ↦ (ok a, s') | err e ↦ (err e, s) ]

-- The error given stands for a violation of a unique index.
abbrev pub db : {E : Type 0} → E → Gorm E
db refusal = record {
  first = λ test before t. ok (first_row test t);
  create = λ conflict assign rows t. ok (put_all conflict assign rows t);
  update = λ test f t. ok (update_rows test f t);
  update_counted = λ test f t. ok (count_rows test t, update_rows test f t);
  insert = λ clash new t.
      if any (λ r. clash new r.value) t
      then err refusal
      else ok (t ++ record { value = new; created_at = 0 } ∷ []);
  count = λ test t. ok (count_rows test t);
  delete = λ test t. ok (delete_rows test t);
  transaction = λ m. rolled m;
}

rolled_back :
    {S E A : Type 0} (m : Action S E A) (s s' : S) (e : E) → rolled m s ≡ (err e, s') → s' ≡ s
rolled_back m s s' e h = elim (Result-cases (m s).0) [
  | inl (a, done) ↦ absurd (ground (arith, done, h))
  | inr (x, failed) ↦ ground (arith, failed, h)
]

committed :
    {S E A : Type 0} (m : Action S E A) (s s' : S) (a : A)
    → rolled m s ≡ (ok a, s')
    → m s ≡ (ok a, s')
committed m s s' a h = elim (Result-cases (m s).0) [
  | inl (x, done) ↦ ground (arith, done, h)
  | inr (x, failed) ↦ absurd (ground (arith, failed, h))
]

inserted_lem :
    {E R : Type 0} (refusal : E) (clash : R → R → Bool) (new : R) (t t' : Table R)
    → (db refusal).insert clash new t ≡ ok t'
    → (any (λ r. clash new r.value) t ≡ false)
      × (now : ℕ) × (t' ≡ t ++ record { value = new; created_at = now } ∷ [])
inserted_lem refusal clash new t t' e = elim (Bool-cases (any (λ r. clash new r.value) t)) [
  | inl taken ↦ absurd (ground (arith, taken, e))
  | inr free ↦ (free, 0, ground (arith, free, e))
]

pub db-Laws : {E : Type 0} (refusal : E) → Laws (db refusal)
db-Laws refusal = record {
  first_found = λ test before t r e. first_row_found test t r (ground (arith, e));
  first_missing = λ test before t e. first_row_missing test t (ground (arith, e));
  created = λ {R} conflict assign rows t t' e.
      let same : put_all conflict assign rows t ≡ t' = ground (arith, e) in
      subst (Puts conflict assign rows t) same (put_all-Puts conflict assign rows t);
  updated = λ test f t t' e. ground (arith, e);
  updated_counted = λ test f n t t' e. (ground (arith, e), ground (arith, e));
  inserted = λ clash new t t' e. inserted_lem refusal clash new t t' e;
  counted = λ test n t e. ground (arith, e);
  deleted = λ test t t' e. ground (arith, e);
  rolled_back = λ m s s' e h. rolled_back m s s' e h;
  committed = λ m s s' a h. committed m s s' a h;
}

pub db-IsUp : {E : Type 0} (refusal : E) → IsUp (db refusal)
db-IsUp refusal = record {
  first_ok = λ test before t. (first_row test t, refl);
  create_ok = λ conflict assign rows t. (put_all conflict assign rows t, refl);
  update_ok = λ test f t. (update_rows test f t, refl);
  update_counted_ok = λ test f t. (count_rows test t, update_rows test f t, refl);
  insert_ok =
      λ clash new t free. (t ++ record { value = new; created_at = 0 } ∷ [], ground (arith, free));
  count_ok = λ test t. (count_rows test t, refl);
  delete_ok = λ test t. (delete_rows test t, refl);
  transaction_ok = λ m s s' a done. ground (arith, done);
}
