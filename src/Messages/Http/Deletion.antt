-- ===== src/Messages/Http/Deletion.antt =====
-- Who can delete messages by services/messages/internal/transport/http/router.go.
use secu_msg_server.Text.{trim_space}
use secu_msg_server.Messages.Http.{
  handle_delete_me, deletion_device, Claims, Handler, Credentials, HttpError, http_error,
  extract_token, require_auth, served, optional,
}
use secu_msg_server.Messages.Store.{
  update_live, touches, delete_messages, soft_delete, Message, Laws,
}
use secu_msg_server.Messages.Service.{delete_for_device}
use mathlib.Core.Path.{subst}
use secu_msg_server.Common.{
  ℕ, true, ◌==◌, nat_eq, list_eq, string_eq, not, some, List, String, Action, ok, raise_if,
  or_raise, lift, ◌>>=◌, of_>>=, of_or_raise, of_lift, of_raise_if, Result-cases, Bool-cases,
  eq_of_==, ◌⊎◌, ◌≡◌, sym, ap, ◌∙◌, arith, inl, inr,
}
use secu_msg_server.Bytes.{Bytes}
use secu_msg_server.Messages.Http.Guarded.{
  require_auth-verified, IsAuthorized, of_require_auth, of_served,
}

module _ (h : Handler) where
  -- A deletion that succeeds marks the messages to and from one device.
  of_delete_for_device :
      (now device n : ℕ) (t t' : List Message)
      → Laws h.svc
      → delete_for_device h.svc now device t ≡ (ok n, t')
      → t'
        ≡ update_live
            (touches device)
            (λ m. record m { deleted_at = some (h.svc.timestamptz now) })
            t
  unfolding delete_for_device delete_messages soft_delete
  of_delete_for_device now device n t t' laws e = elim (Bool-cases (device == 0)) [
    | inl unnamed ↦ absurd (ground (arith, unnamed, e))
    | inr named ↦ elim (Result-cases (h.svc.delete now (touches device) t)) [
      | inr (x, failed) ↦ absurd (ground (arith, named, failed, e))
      | inl ((k, rows), done) ↦
          let left : t' ≡ rows = ground (arith, named, done, e) in
          left ∙ (laws.deleted now (touches device) k t rows done).0
    ]
  ]

  -- A request to delete that succeeds marks the messages to and from one device as deleted, and
  -- changes nothing else: the device that the request names, and then the auth service has said of
  -- its token that it is valid and may act for it; or, if the request names none or the zero
  -- identifier, the device of the token, which the auth service has called valid. The database behaves as
  -- documented.
  pub handle_delete_me_lem :
      (now n : ℕ) (method : String) (who : Credentials) (raw : Bytes) (t t' : List Message)
      → Laws h.svc
      → handle_delete_me h now method who raw t ≡ (ok n, t')
      → (device : ℕ) × (t'
          ≡ update_live
              (touches device)
              (λ m. record m { deleted_at = some (h.svc.timestamptz now) })
              t)
        × (IsAuthorized h who device
            ⊎ ((c : Claims) × (h.web.verify (extract_token who) 0 ≡ ok c)
                × (c.valid ≡ true)
                × (c.token_device_id ≡ some device)))
  unfolding handle_delete_me deletion_device
  handle_delete_me_lem now n method who raw t t' laws e =
      let parsed : Action (List Message) HttpError ℕ =
        or_raise (optional h h.web.uuids.parse (trim_space raw))
          (http_error 400 "invalid device_id") in
      let ask : ℕ → Action (List Message) HttpError Claims =
        λ named. lift (require_auth h who named) in
      let choose = λ (named : ℕ) (c : Claims).
        or_raise {S = List Message} (deletion_device h named c)
          (http_error 400 "device_id is required") in
      let act : ℕ → Action (List Message) HttpError ℕ =
        λ device. served (delete_for_device h.svc now device) in
      let all : Action (List Message) HttpError ℕ =
        parsed >>= λ named. (ask named >>= λ c. (choose named c >>= act)) in
      let (u, t0, e0, r0) =
        of_>>= (raise_if (not (method == "DELETE")) (http_error 405 "method not allowed"))
          (λ _. all) t t' n e in
      let (named, t1, e1, r1) =
        of_>>= parsed (λ named. ask named >>= λ c. (choose named c >>= act)) t0 t' n r0 in
      let (c, t2, e2, r2) = of_>>= (ask named) (λ c. choose named c >>= act) t1 t' n r1 in
      let (device, t3, e3, r3) = of_>>= (choose named c) act t2 t' n r2 in
      let k0 =
        (of_raise_if (not (method == "DELETE")) (http_error 405 "method not allowed") t t0 u
          e0).1 in
      let k1 =
        (of_or_raise (optional h h.web.uuids.parse (trim_space raw))
          (http_error 400 "invalid device_id") t0 t1 named e1).1 in
      let (allowed, k2) = of_lift (require_auth h who named) t1 t2 c e2 in
      let (chosen, k3) =
        of_or_raise (deletion_device h named c) (http_error 400 "device_id is required") t2 t3
          device e3 in
      let start : t3 ≡ t = k3 ∙ k2 ∙ k1 ∙ k0 in
      let shape =
        of_delete_for_device now device n t3 t' laws
          (of_served h (delete_for_device h.svc now device) t3 t' n r3) in
      let (said, valid) = require_auth-verified h who named c allowed in
      (
        device,
        shape
            ∙ ap
                (update_live (touches device)
                  (λ m. record m { deleted_at = some (h.svc.timestamptz now) }))
                start,
        elim (Bool-cases (named == 0)) [
          | inl own ↦ inr (
            c,
            ap (h.web.verify (extract_token who)) (sym (eq_of_== named 0 own)) ∙ said,
            valid,
            ground (arith, own, chosen),
          )
          | inr other ↦
              let same : named ≡ device = ground (arith, other, chosen) in
              inl (subst (IsAuthorized h who) same (of_require_auth h who named c allowed other))
        ],
      )
