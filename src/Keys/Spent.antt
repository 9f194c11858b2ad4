-- ===== src/Keys/Spent.antt =====
-- A one-time prekey that has been handed out, in the table of services/keys.
use secu_msg_server.Common.{
  ℕ, Bool, true, false, ◌==◌, nat_eq, ◌&&◌, some, List, [], ◌∷◌, get_elem?, ◌≡◌, refl, sym, ap, ◌∙◌,
  arith, Bool-cases, inl, inr, eq_of_==, ==_refl,
}
use secu_msg_server.Database.{Row, Table, any, update_rows, put, Puts, any-append, any_of_get_elem?}
use secu_msg_server.Keys.Types.{OneTimePrekey}
use secu_msg_server.Keys.Store.{is_open}

-- The table has a row with the number.
abbrev pub has : ℕ → Table OneTimePrekey → Bool
has k = any (λ r. r.value.id == k)

-- The table has a row with the number that is not consumed.
abbrev pub has_open : ℕ → Table OneTimePrekey → Bool
has_open k = any (λ r. r.value.id == k && is_open r.value.consumed_at)

-- The key is there, and consumed.
abbrev pub IsSpent : ℕ → Table OneTimePrekey → Type 0
IsSpent k t = (has k t ≡ true) × (has_open k t ≡ false)

abbrev pub consume_at : ℕ → ℕ → Table OneTimePrekey → Table OneTimePrekey
consume_at j now = update_rows (λ k. k.id == j) (λ k. record k { consumed_at = some now })

pub has-consume_at : (k j now : ℕ) (t : Table OneTimePrekey) → has k (consume_at j now t) ≡ has k t
has-consume_at k j now [] = refl
has-consume_at k j now (r ∷ t) = ground (arith, has-consume_at k j now t)

has_open-consume_at_self :
    (j now : ℕ) (t : Table OneTimePrekey) → has_open j (consume_at j now t) ≡ false
has_open-consume_at_self j now [] = refl
has_open-consume_at_self j now (r ∷ t) = ground (arith, has_open-consume_at_self j now t)

has_open-consume_at :
    (k j now : ℕ) (t : Table OneTimePrekey)
    → has_open k t ≡ false
    → has_open k (consume_at j now t) ≡ false
has_open-consume_at k j now [] h = refl
has_open-consume_at k j now (r ∷ t) h = ground (arith, has_open-consume_at k j now t)

-- A key that is consumed by the update was there.
pub IsSpent-consume_at_self :
    (j now : ℕ) (t : Table OneTimePrekey) → has j t ≡ true → IsSpent j (consume_at j now t)
IsSpent-consume_at_self j now t h = (has-consume_at j j now t ∙ h, has_open-consume_at_self j now t)

pub IsSpent-consume_at :
    (k j now : ℕ) (t : Table OneTimePrekey) → IsSpent k t → IsSpent k (consume_at j now t)
IsSpent-consume_at k j now t (there, shut) =
    (has-consume_at k j now t ∙ there, has_open-consume_at k j now t shut)

update_rows_same : {R : Type 0} (test : R → Bool) (t : Table R) → update_rows test (λ x. x) t ≡ t
update_rows_same test [] = refl
update_rows_same test (r ∷ t) = ground (arith, update_rows_same test t)

abbrev put_key : OneTimePrekey → ℕ → Table OneTimePrekey → Table OneTimePrekey
put_key = put (λ (k l : OneTimePrekey). l.id == k.id) (λ k l. l)

-- A new row never has the number of a key that is there.
IsSpent-put :
    (k now : ℕ) (new : OneTimePrekey) (t : Table OneTimePrekey)
    → IsSpent k t
    → IsSpent k (put_key new now t)
IsSpent-put k now new t (there, shut) = elim (Bool-cases (has new.id t)) [
  | inl old ↦ (
    ground (arith, old, update_rows_same (λ (l : OneTimePrekey). l.id == new.id) t, there),
    ground (arith, old, update_rows_same (λ (l : OneTimePrekey). l.id == new.id) t, shut),
  )
  | inr fresh ↦
      let row : Row OneTimePrekey = record { value = new; created_at = now } in
      let other : (new.id == k) ≡ false = elim (Bool-cases (new.id == k)) [
        | inl same ↦ absurd (
            ground (
              arith,
              sym (ap (λ j. has j t) (eq_of_== new.id k same)) ∙ fresh,
              there,
              ap (λ j. has j t) (eq_of_== new.id k same),
            ))
        | inr ne ↦ ne
      ] in
      (
        ground (
          arith,
          fresh,
          any-append (λ (r : Row OneTimePrekey). r.value.id == k) t (row ∷ []),
          there,
        ),
        ground (
          arith,
          fresh,
          other,
          any-append (λ (r : Row OneTimePrekey). r.value.id == k && is_open r.value.consumed_at) t
              (row ∷ []),
          shut,
        ),
      )
]

pub IsSpent-Puts :
    (k : ℕ) (rows : List OneTimePrekey) (t t' : Table OneTimePrekey)
    → IsSpent k t
    → Puts (λ (k l : OneTimePrekey). l.id == k.id) (λ k l. l) rows t t'
    → IsSpent k t'
IsSpent-Puts k [] t t' spent same = (ap (has k) same ∙ spent.0, ap (has_open k) same ∙ spent.1)
IsSpent-Puts k (new ∷ rows) t t' spent (now, rest) =
    IsSpent-Puts k rows (put_key new now t) t' (IsSpent-put k now new t spent) rest

-- A row that is not consumed is open under its number.
pub has_open_of_get_elem? :
    (t : Table OneTimePrekey) (i : ℕ) (r : Row OneTimePrekey)
    → get_elem? t i ≡ some r
    → is_open r.value.consumed_at ≡ true
    → (has r.value.id t ≡ true) × (has_open r.value.id t ≡ true)
has_open_of_get_elem? t i r e h = (
  any_of_get_elem? (λ x. x.value.id == r.value.id) t i r e (==_refl r.value.id),
  any_of_get_elem? (λ x. x.value.id == r.value.id && is_open x.value.consumed_at) t i r e
      (ground (arith, ==_refl r.value.id, h)),
)
