-- ===== src/Auth/Tokens/Reads.antt =====
-- The calls of services/auth/internal/service/impl/token_service_impl.go and of the stores that only
-- read leave the tables as they are.
use secu_msg_server.Auth.Verify.{check_device, read_access, verify_access, verify_session}
use secu_msg_server.Common.{
  ℕ, Option, none, some, [], ◌==◌, nat_eq, list_eq, Result-cases, Bool-cases, Option-cases, ◌≡◌,
  refl, arith, inl, inr,
}
use secu_msg_server.Bytes.{Bytes}
use secu_msg_server.Text.{trim_space}
use secu_msg_server.Database.{Row, Gorm}
use secu_msg_server.Auth.Types.{Device, Session, Tables, VerifyRequest, AuthError}
use secu_msg_server.Auth.Store.Sessions.{unordered, get_by_refresh_id, get_session}
use secu_msg_server.Auth.Store.Devices.{is_active, get_active}
use secu_msg_server.Auth.Claims.{AccessClaims}
use secu_msg_server.Auth.Tokens.{
  TokenService, Draws, is_over, mint, access_claims, refresh_claims, parse_refresh, find_refreshed,
}

module _ (g : Gorm AuthError) (t : Tables) where
  pub get_by_refresh_id_reads : (rid : ℕ) → (get_by_refresh_id g rid t).1 ≡ t
  unfolding get_by_refresh_id
  get_by_refresh_id_reads rid =
      elim (Result-cases
        (g.first (λ (r : Row Session). r.value.refresh_id == rid) unordered t.sessions)) [
          | inl (none, e) ↦ rw e refl
          | inl (some r, e) ↦ rw e refl
          | inr (x, e) ↦ rw e refl
        ]

  pub get_session_reads : (id : ℕ) → (get_session g id t).1 ≡ t
  unfolding get_session
  get_session_reads id =
      elim (Result-cases (g.first (λ (r : Row Session). r.value.id == id) unordered t.sessions)) [
        | inl (none, e) ↦ rw e refl
        | inl (some r, e) ↦ rw e refl
        | inr (x, e) ↦ rw e refl
      ]

  pub get_active_reads : (id : ℕ) → (get_active g id t).1 ≡ t
  unfolding get_active
  get_active_reads id =
      elim (Result-cases (g.first (λ (r : Row Device). is_active id r.value) unordered t.devices)) [
        | inl (none, e) ↦ rw e refl
        | inl (some r, e) ↦ rw e refl
        | inr (x, e) ↦ rw e refl
      ]

check_device_reads :
    (s : TokenService) (t : Tables) (sess : Session) (did : Option Bytes) (name : Bytes)
    → (check_device s sess did name t).1 ≡ t
unfolding check_device
check_device_reads s t sess did name = elim (Bool-cases (name == [])) [
  | inl unnamed ↦ ground (arith, unnamed)
  | inr named ↦ elim (Option-cases (s.uuids.parse name)) [
    | inl bad ↦ ground (arith, named, bad)
    | inr (id, read) ↦ ground (arith, named, read, get_active_reads s.db t id)
  ]
]

module _ (s : TokenService) (t : Tables) where
  pub find_refreshed_reads : (e : Draws) (token : Bytes) → (find_refreshed s e token t).1 ≡ t
  unfolding find_refreshed
  find_refreshed_reads e token = elim (Option-cases (parse_refresh s e.parsed_at token)) [
    | inl unread ↦ ground (arith, unread)
    | inr (c, read) ↦ elim (Option-cases (s.uuids.parse c.registered.id)) [
      | inl bad ↦ ground (arith, read, bad)
      | inr (rid, named) ↦
          let kept = get_by_refresh_id_reads s.db t rid in
          elim (Result-cases (get_by_refresh_id s.db rid t).0) [
            | inl (sess, got) ↦ elim (Bool-cases (is_over e.now sess)) [
              | inl over ↦ ground (arith, read, named, got, over, kept)
              | inr live ↦ ground (arith, read, named, got, live, kept)
            ]
            | inr (x, failed) ↦ ground (arith, read, named, failed, kept)
          ]
    ]
  ]

  verify_session_reads :
      (e : Draws) (c : AccessClaims) (id : ℕ) (name : Bytes)
      → (verify_session s e c id name t).1 ≡ t
  unfolding verify_session
  verify_session_reads e c id name =
      let kept = get_session_reads s.db t id in
      elim (Result-cases (get_session s.db id t).0) [
        | inl (sess, got) ↦ elim (Bool-cases (is_over e.now sess)) [
          | inl over ↦ ground (arith, got, over, kept)
          | inr live ↦
              let t1 : Tables = (get_session s.db id t).1 in
              let same = check_device_reads s t1 sess c.did name in
              elim (Result-cases (check_device s sess c.did name t1).0) [
                | inl (b, checked) ↦ ground (arith, got, live, kept, same, checked)
                | inr (x, failed) ↦ ground (arith, got, live, kept, same, failed)
              ]
        ]
        | inr (x, failed) ↦ ground (arith, failed, kept)
      ]

  pub verify_access_reads : (e : Draws) (req : VerifyRequest) → (verify_access s e req t).1 ≡ t
  unfolding verify_access
  verify_access_reads e req =
      elim (Option-cases (read_access s e.parsed_at (trim_space req.token))) [
        | inl unread ↦ ground (arith, unread)
        | inr ((c, id), read) ↦
            ground (arith, read, verify_session_reads e c id (trim_space req.device_id))
      ]

  pub mint_reads : (e : Draws) (sess : Session) → (mint s e sess t).1 ≡ t
  unfolding mint
  mint_reads e sess =
      elim (Option-cases
        (s.jwt.sign_access s.cfg.signing_key (access_claims s e sess.user_id sess))) [
          | inl none_a ↦ ground (arith, none_a)
          | inr (a, signed_a) ↦
              elim (Option-cases
                (s.jwt.sign_refresh s.cfg.signing_key (refresh_claims s e sess.user_id sess))) [
                  | inl none_r ↦ ground (arith, signed_a, none_r)
                  | inr (r, signed_r) ↦ ground (arith, signed_a, signed_r)
                ]
        ]
