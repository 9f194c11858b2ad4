-- ===== src/Auth/Devices/Revocation.antt =====
-- What Revoke of services/auth/internal/service/impl/device_service_impl.go does.
use secu_msg_server.Common.{
  ℕ, ◌==◌, nat_eq, not, [], ◌∷◌, Action, ok, err, raise_if, ◌>>◌, of_>>=, Result-cases, Bool-cases,
  ◌≡◌, ◌≢◌, refl, ap, ◌∙◌, arith, inl, inr,
}
use secu_msg_server.Database.{Table, Gorm, Laws, update_rows, count_rows}
use secu_msg_server.Auth.Types.{Device, Tables, AuthError, device_revoked, invalid_device_id}
use secu_msg_server.Auth.Store.Sessions.{is_null}
use secu_msg_server.Auth.Store.Devices.{
  Stamp, is_active, mark_revoked, find_device, revoke_device_row,
}
use secu_msg_server.Auth.Devices.{translate_device_err, revoke_twice, revoke_device}

-- After an update that revokes the active rows of a device none is left.
count_rows-mark_revoked :
    (id : ℕ) (e : Stamp) (t : Table Device)
    → count_rows (is_active id) (update_rows (is_active id) (mark_revoked e) t) ≡ 0
count_rows-mark_revoked id e [] = refl
count_rows-mark_revoked id e (r ∷ t) = ground (arith, count_rows-mark_revoked id e t)

module _ (g : Gorm AuthError) (laws : Laws g) where
  -- A revocation that succeeds leaves no active row of the device.
  of_revoke_device_row :
      (e : Stamp) (id : ℕ) (t t' : Tables) (u : Unit {0})
      → translate_device_err (revoke_device_row g e id) t ≡ (ok u, t')
      → (count_rows (is_active id) t.devices ≢ 0) × (count_rows (is_active id) t'.devices ≡ 0)
  unfolding revoke_device_row
  of_revoke_device_row e id t t' u h =
      elim (Result-cases (g.update_counted (is_active id) (mark_revoked e) t.devices)) [
        | inl ((n, rows), done) ↦
            let (counted, shape) =
              laws.updated_counted (is_active id) (mark_revoked e) n t.devices rows done in
            let after : Tables = record t { devices = rows } in
            elim (Bool-cases (n == 0)) [
              | inl none_hit ↦ absurd (ground (arith, done, none_hit, h))
              | inr hit ↦ (
                λ zero_rows. ground (arith, hit, counted, zero_rows),
                ap (λ (x : Tables). count_rows (is_active id) x.devices)
                      (let same : t' ≡ after = ground (arith, done, hit, h) in same)
                    ∙ ap (count_rows (is_active id)) shape
                    ∙ count_rows-mark_revoked id e t.devices,
              )
            ]
        | inr (x, failed) ↦ absurd (ground (arith, failed, h))
      ]

  -- The second of the two revocations finds nothing to revoke.
  revoke_twice-fails :
      (first second : Stamp) (id : ℕ) (t t' : Tables) (u : Unit {0})
      → revoke_twice g first second id t ≢ (ok u, t')
  unfolding revoke_twice
  revoke_twice-fails first second id t t' u h =
      let one : Action Tables AuthError (Unit {0}) =
        translate_device_err (revoke_device_row g first id) in
      let two : Action Tables AuthError (Unit {0}) =
        translate_device_err (revoke_device_row g second id) in
      let test : Device → Action Tables AuthError (Unit {0}) =
        λ dev. raise_if (not (is_null dev.revoked_at)) device_revoked in
      let (dev, t1, found, h1) =
        of_>>= (translate_device_err (find_device g id)) (λ dev. test dev >> (one >> two)) t t' u
          h in
      let (u1, t2, tested, h2) = of_>>= (test dev) (λ _. one >> two) t1 t' u h1 in
      let (u2, t3, revoked, again) = of_>>= one (λ _. two) t2 t' u h2 in
      (of_revoke_device_row second id t3 t' u again).0
        (of_revoke_device_row first id t2 t3 u2 revoked).1

  -- The device service's Revoke ends with an error on every device, and leaves the tables as they
  -- were. The database behaves as documented.
  pub revoke_device-fails :
      (first second : Stamp) (id : ℕ) (t : Tables)
      → (x : AuthError) × (revoke_device g first second id t ≡ (err x, t))
  unfolding revoke_device
  revoke_device-fails first second id t = elim (Bool-cases (id == 0)) [
    | inl zero_id ↦ (invalid_device_id, ground (arith, zero_id))
    | inr set ↦
        let m : Action Tables AuthError (Unit {0}) =
          g.transaction (revoke_twice g first second id) in
        let left : Tables = (m t).1 in
        elim (Result-cases (m t).0) [
          | inl (u, done) ↦
              let whole : m t ≡ (ok u, left) = λ i. (done i, left) in
              absurd (
                revoke_twice-fails first second id t left u
                  (laws.committed (revoke_twice g first second id) t left u whole))
          | inr (x, failed) ↦
              let whole : m t ≡ (err x, left) = λ i. (failed i, left) in
              let same : left ≡ t =
                laws.rolled_back (revoke_twice g first second id) t left x whole in
              (x, ground (arith, set, whole, same))
        ]
  ]
