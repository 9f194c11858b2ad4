-- ===== src/Messages/Http/Guarded.antt =====
-- Who can send by services/messages/internal/transport/http/router.go.
use secu_msg_server.Common.{
  ℕ, true, false, ◌==◌, nat_eq, list_eq, string_eq, ◌||◌, not, some, List, [], ◌∷◌, ◌++◌, length,
  String, Action, ok, err, refl, Result-cases, Bool-cases, Option-cases, ◌≡◌, sym, ap, ◌∙◌, arith,
  inl, inr,
}
use secu_msg_server.Messages.Store.{Message, MessagesError, Laws, as_stored}
use secu_msg_server.Messages.Sent.{sent_as, enqueue-cases}
use secu_msg_server.Messages.Service.{SendInput, enqueue}
use secu_msg_server.Messages.Http.{
  Claims, Handler, Credentials, SendRequest, SendResponse, extract_token, require_auth, served,
  store_message, handle_send,
}

-- The auth service has said of the request's token that it is valid and may act for the device.
pub record IsAuthorized (h : Handler) (who : Credentials) (device : ℕ) : Type 0 where
  pub claims : Claims
  pub verified : h.web.verify (extract_token who) device ≡ ok claims
  pub valid : claims.valid ≡ true
  pub device_authorized : claims.device_authorized ≡ true

module _ (h : Handler) where
  -- A token that is let in is one that the auth service called valid.
  pub require_auth-verified :
      (who : Credentials) (device : ℕ) (c : Claims)
      → require_auth h who device ≡ ok c
      → (h.web.verify (extract_token who) device ≡ ok c) × (c.valid ≡ true)
  unfolding require_auth
  require_auth-verified who device c e = elim (Bool-cases h.auth) [
    | inr missing ↦ absurd (ground (arith, missing, e))
    | inl there ↦ elim (Bool-cases (extract_token who == [])) [
      | inl empty ↦ absurd (ground (arith, there, empty, e))
      | inr full ↦ elim (Result-cases (h.web.verify (extract_token who) device)) [
        | inr (x, failed) ↦ absurd (ground (arith, there, full, failed, e))
        | inl (claims, said) ↦ elim (Bool-cases claims.valid) [
          | inr invalid ↦ absurd (ground (arith, there, full, said, invalid, e))
          | inl valid ↦
              let same : claims ≡ c = ground (arith, there, full, said, valid, e) in
              (said ∙ ap ok same, ap (λ (x : Claims). x.valid) (sym same) ∙ valid)
        ]
      ]
    ]
  ]

  pub of_require_auth :
      (who : Credentials) (device : ℕ) (c : Claims)
      → require_auth h who device ≡ ok c
      → (device == 0) ≡ false
      → IsAuthorized h who device
  unfolding require_auth
  of_require_auth who device c e named =
      let (said, valid) = require_auth-verified who device c e in
      elim (Bool-cases c.device_authorized) [
        | inl mine ↦ record { claims = c; verified = said; valid = valid; device_authorized = mine }
        | inr other ↦ absurd (ground (arith, said, valid, other, named, e))
      ]

  pub of_served :
      {A : Type 0} (m : Action (List Message) MessagesError A) (t t' : List Message) (a : A)
      → served m t ≡ (ok a, t')
      → m t ≡ (ok a, t')
  of_served m t t' a e = elim (Result-cases (m t).0) [
    | inl (x, done) ↦
        let left : (m t).1 ≡ t' = ap (λ z. z.1) e in
        let same : x ≡ a = ground (arith, done, e) in λ i. ((done ∙ ap ok same) i, left i)
    | inr (x, failed) ↦ absurd (ground (arith, failed, e))
  ]

  -- A message that is stored is one row, from the device named, which is not the zero identifier.
  of_store_message :
      (now conv from to : ℕ) (req : SendRequest) (t t' : List Message) (m : Message)
      → Laws h.svc
      → store_message h now conv from to req t ≡ (ok m, t')
      → (row : Message) × (t' ≡ t ++ row ∷ []) × (row.from_device_id ≡ from) × ((from == 0) ≡ false)
  unfolding store_message
  of_store_message now conv from to req t t' m laws e =
      elim (Option-cases (h.web.base64_decode req.ciphertext)) [
        | inl bad ↦ absurd (ground (arith, bad, e))
        | inr (text, read) ↦
            let x : SendInput = record {
              conv_id = conv;
              from_device_id = from;
              to_device_id = to;
              ciphertext = text;
              header = req.header;
            } in
            let sent : served (enqueue h.svc now x) t ≡ (ok m, t') = ground (arith, read, e) in
            let done : enqueue h.svc now x t ≡ (ok m, t') =
              of_served (enqueue h.svc now x) t t' m sent in
            elim (enqueue-cases h.svc now x t laws) [
              | inl (y, failed) ↦
                  absurd (let no : err y ≡ ok m = ap (λ z. z.0) (sym failed ∙ done) in ground arith)
              | inr (id, rows, complete, valid, done', shape) ↦ (
                as_stored h.svc (sent_as h.svc now x id),
                sym (ap (λ z. z.1) (sym done' ∙ done)) ∙ shape,
                refl,
                ground (arith, complete),
              )
            ]
      ]

  -- The calls of a request to send that succeeds.
  of_handle_send :
      (now : ℕ) (method : String) (who : Credentials) (req : SendRequest) (resp : SendResponse)
      (t t' : List Message)
      → handle_send h now method who (some req) t ≡ (ok resp, t')
      → (conv : ℕ) × (from : ℕ) × (to : ℕ) × (c : Claims) × (m : Message) × (h.web.uuids.parse
            req.from_device_id
          ≡ some from)
        × (require_auth h who from ≡ ok c)
        × (store_message h now conv from to req t ≡ (ok m, t'))
  unfolding handle_send
  of_handle_send now method who req resp t t' e = elim (Bool-cases (method == "POST")) [
    | inr other ↦ absurd (ground (arith, other, e))
    | inl post ↦ elim (Option-cases (h.web.uuids.parse req.conv_id)) [
      | inl bad ↦ absurd (ground (arith, post, bad, e))
      | inr (conv, read_conv) ↦ elim (Option-cases (h.web.uuids.parse req.from_device_id)) [
        | inl bad ↦ absurd (ground (arith, post, read_conv, bad, e))
        | inr (from, read_from) ↦ elim (Option-cases (h.web.uuids.parse req.to_device_id)) [
          | inl bad ↦ absurd (ground (arith, post, read_conv, read_from, bad, e))
          | inr (to, read_to) ↦
              elim (Bool-cases (length req.header == 0 || not (h.svc.json_valid req.header))) [
                | inl bad ↦ absurd (ground (arith, post, read_conv, read_from, read_to, bad, e))
                | inr header ↦ elim (Result-cases (require_auth h who from)) [
                  | inr (x, refused) ↦
                      absurd
                        (ground (arith, post, read_conv, read_from, read_to, header, refused, e))
                  | inl (c, allowed) ↦
                      elim (Result-cases (store_message h now conv from to req t).0) [
                        | inr (x, failed) ↦ absurd (
                            ground (
                              arith, post, read_conv, read_from, read_to, header, allowed, failed,
                              e,
                            ))
                        | inl (m, done) ↦
                            let left : (store_message h now conv from to req t).1 ≡ t' = ground (
                              arith, post, read_conv, read_from, read_to, header, allowed, done, e,
                            ) in
                            (conv, from, to, c, m, read_from, allowed, λ i. (done i, left i))
                      ]
                ]
              ]
        ]
      ]
    ]
  ]

  -- A request to send that succeeds adds one message to the table, from the device that it names;
  -- the auth service has said of its token that it is valid and may act for that device. The
  -- database behaves as documented.
  pub handle_send-IsAuthorized :
      (now : ℕ) (method : String) (who : Credentials) (req : SendRequest) (resp : SendResponse)
      (t t' : List Message)
      → Laws h.svc
      → handle_send h now method who (some req) t ≡ (ok resp, t')
      → (from : ℕ) × (m : Message) × (h.web.uuids.parse req.from_device_id ≡ some from)
        × (t' ≡ t ++ m ∷ [])
        × (m.from_device_id ≡ from)
        × IsAuthorized h who from
  unfolding handle_send
  handle_send-IsAuthorized now method who req resp t t' laws e =
      let (conv, from, to, c, m, named, allowed, stored) =
        of_handle_send now method who req resp t t' e in
      let (row, shape, mine, set) = of_store_message now conv from to req t t' m laws stored in
      (from, row, named, shape, mine, of_require_auth who from c allowed set)
