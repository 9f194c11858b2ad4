-- ===== src/Database/Rows.antt =====
-- What statements do to the rows that a later query may find: general facts for the stores.
use secu_msg_server.Common.{
  ℕ, ◌≤◌, ◌<◌, zero, suc, Bool, true, false, if◌then◌else◌, ◌||◌, Option, none, some, [], ◌∷◌, ◌++◌,
  get_elem?, ◌≡◌, refl, ap, ◌∙◌, arith, ok,
}
use secu_msg_server.Database.{
  Row, Table, Gorm, Laws, IsUp, any, update_rows, count_rows, any-append,
}

module _ {R : Type 0} where
  -- The row at a place that passes the test.
  abbrev pub Found : (Row R → Bool) → Table R → Row R → Type 0
  Found test t r = (i : ℕ) × (get_elem? t i ≡ some r) × (test r ≡ true)

  -- A found row of a longer table is in the first part, or is the last.
  pub Found-append :
      (test : Row R → Bool) (t : Table R) (x r : Row R)
      → any test t ≡ false
      → Found test (t ++ x ∷ []) r
      → r ≡ x
  Found-append test [] x r free (zero, at, passes) = ground (arith, at)
  Found-append test [] x r free (suc i, at, passes) = absurd (ground (arith, at))
  Found-append test (y ∷ t) x r free (zero, at, passes) =
      let same : y ≡ r = ground (arith, at) in absurd (ground (arith, ap test same, passes, free))
  Found-append test (y ∷ t) x r free (suc i, at, passes) =
      Found-append test t x r (ground (arith, free)) (i, at, passes)

  -- A found row of an updated table is a row of the old one, rewritten if it passed.
  pub Found-update_rows :
      (test : Row R → Bool) (pick : R → Bool) (f : R → R) (t : Table R) (r : Row R)
      → Found test (update_rows pick f t) r
      → (i : ℕ) × (old : Row R) × (get_elem? t i ≡ some old)
        × (r ≡ record old { value = if pick old.value then f old.value else old.value })
  Found-update_rows test pick f [] r (i, at, passes) = absurd (ground (arith, at))
  Found-update_rows test pick f (x ∷ t) r (zero, at, passes) = (0, x, refl, ground (arith, at))
  Found-update_rows test pick f (x ∷ t) r (suc i, at, passes) =
      let (j, old, there, same) = Found-update_rows test pick f t r (i, at, passes) in
      (suc j, old, there, same)

  -- A test of columns that an update leaves alone.
  pub any-update_rows :
      (test : Row R → Bool) (pick : R → Bool) (f : R → R) (t : Table R)
      → ((r : Row R) → test (record r { value = f r.value }) ≡ test r)
      → any test (update_rows pick f t) ≡ any test t
  any-update_rows test pick f [] same = refl
  any-update_rows test pick f (r ∷ t) same =
      ground (arith, same r, any-update_rows test pick f t same)

  -- No row passes a test that is stronger than one that no row passes.
  pub any-of_or :
      (p q : Row R → Bool) (t : Table R)
      → any (λ r. p r || q r) t ≡ false
      → (any p t ≡ false) × (any q t ≡ false)
  any-of_or p q [] h = (refl, refl)
  any-of_or p q (r ∷ t) h =
      let rest = any-of_or p q t (ground (arith, h)) in
      (ground (arith, h, rest), ground (arith, h, rest))

  -- The last row of a longer table passes.
  pub any-append_last :
      (test : Row R → Bool) (t : Table R) (x : Row R)
      → test x ≡ true
      → any test (t ++ x ∷ []) ≡ true
  any-append_last test t x passes = ground (arith, any-append test t (x ∷ []), passes)

  -- A query for the row that was added, which no other row answers, finds it.
  pub first-added :
      {E : Type 0} (g : Gorm E) (test : Row R → Bool) (before : Row R → Row R → Bool) (t : Table R)
      (x : Row R)
      → Laws g
      → IsUp g
      → any test t ≡ false
      → test x ≡ true
      → g.first test before (t ++ x ∷ []) ≡ ok (some x)
  first-added {E} g test before t x laws up free passes =
      found (up.first_ok test before (t ++ x ∷ []))
    where
      found :
          (o : Option (Row R)) × (g.first test before (t ++ x ∷ []) ≡ ok o)
          → g.first test before (t ++ x ∷ []) ≡ ok (some x)
      found (none, e) =
          let missed = laws.first_missing test before (t ++ x ∷ []) e in
          absurd (ground (arith, missed, any-append_last test t x passes))
      found (some r, e) =
          e
          ∙ ap (λ y. ok (some y))
              (Found-append test t x r free (laws.first_found test before (t ++ x ∷ []) r e))

  -- A test that no row passes, and that no rewritten row passes but one that passed.
  pub any-update_rows_none :
      (test : Row R → Bool) (pick : R → Bool) (f : R → R) (t : Table R)
      → ((r : Row R) → test r ≡ false → test (record r { value = f r.value }) ≡ false)
      → any test t ≡ false
      → any test (update_rows pick f t) ≡ false
  any-update_rows_none test pick f [] keep none_of = refl
  any-update_rows_none test pick f (r ∷ t) keep none_of =
      ground (arith, keep r, any-update_rows_none test pick f t keep, none_of)

  -- No row passes if none is counted.
  pub any-count_rows :
      (test : R → Bool) (t : Table R) → count_rows test t ≤ 0 → any (λ r. test r.value) t ≡ false
  any-count_rows test [] h = refl
  any-count_rows test (r ∷ t) h = ground (arith, any-count_rows test t, h)

  -- A row that is found is counted.
  count_rows-found :
      (test : R → Bool) (t : Table R) (i : ℕ) (r : Row R)
      → get_elem? t i ≡ some r
      → test r.value ≡ true
      → 0 < count_rows test t
  count_rows-found test [] i r at passes = absurd (ground (arith, at))
  count_rows-found test (x ∷ t) zero r at passes =
      let same : x ≡ r = ground (arith, at) in
      ground (arith, ap (λ (y : Row R). test y.value) same, passes)
  count_rows-found test (x ∷ t) (suc i) r at passes =
      ground (arith, count_rows-found test t i r, at, passes)

  -- An update that reaches the one row that passes a test leaves none that passes, if a rewritten
  -- row does not pass.
  pub any-update_rows_only :
      (test pick : R → Bool) (f : R → R) (t : Table R) (i : ℕ) (r : Row R)
      → count_rows test t ≤ 1
      → get_elem? t i ≡ some r
      → test r.value ≡ true
      → pick r.value ≡ true
      → ((x : R) → test (f x) ≡ false)
      → any (λ r. test r.value) (update_rows pick f t) ≡ false
  any-update_rows_only test pick f [] i r one at passes picked gone = refl
  any-update_rows_only test pick f (x ∷ t) zero r one at passes picked gone =
      let same : x ≡ r = ground (arith, at) in
      let rest =
        any-update_rows_none (λ (r : Row R). test r.value) pick f t (λ y h. gone y.value)
          (any-count_rows test t
            (ground (arith, one, ap (λ (y : Row R). test y.value) same, passes))) in
      ground (arith, ap (λ (y : Row R). pick y.value) same, picked, gone x.value, rest)
  any-update_rows_only test pick f (x ∷ t) (suc i) r one at passes picked gone =
      let more = count_rows-found test t i r at passes in
      let rest =
        any-update_rows_only test pick f t i r (ground (arith, one)) at passes picked gone in
      ground (arith, one, more, gone x.value, rest)
