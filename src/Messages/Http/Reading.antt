-- ===== src/Messages/Http/Reading.antt =====
-- Who can read the history by services/messages/internal/transport/http/router.go.
use secu_msg_server.Common.{
  ℕ, true, false, ◌==◌, nat_eq, list_eq, string_eq, some, List, [], map, get_elem?, String, Action,
  ok, Result-cases, Bool-cases, Option-cases, ◌≡◌, arith, inl, inr,
}
use secu_msg_server.Messages.Store.{
  Message, Laws, is_live, in_history, older, limit_of, find_history, HistoryFilter,
}
use secu_msg_server.Messages.Service.{history}
use secu_msg_server.Messages.Http.{
  Claims, Handler, Credentials, OutboundEnvelope, HistoryParams, HttpError, require_auth, served,
  envelope_of, optional, limit_param, handle_history,
}
use secu_msg_server.Messages.Http.Guarded.{IsAuthorized, of_require_auth, of_served}

module _ (h : Handler) where
  of_history :
      (device since conv limit : ℕ) (t t' ms : List Message)
      → Laws h.svc
      → history h.svc device since conv limit t ≡ (ok ms, t')
      → ((device == 0) ≡ false)
        × ((i : ℕ) (m : Message)
            → get_elem? ms i ≡ some m
            → (j : ℕ) × (get_elem? t j ≡ some m) × (is_live m ≡ true) × (m.to_device_id ≡ device))
  unfolding history find_history
  of_history device since conv limit t t' ms laws e = elim (Bool-cases (device == 0)) [
    | inl unnamed ↦ absurd (ground (arith, unnamed, e))
    | inr named ↦
        let f : HistoryFilter = record {
          device_id = device;
          conv_id = conv;
          since = since;
          limit = limit;
        } in
        let found : h.svc.find (in_history h.svc.timestamptz f) older (limit_of limit) t ≡ ok ms =
          ground (arith, named, e) in
        (
          named,
          λ i m at.
              let (j, there, live, passes) =
                laws.found (in_history h.svc.timestamptz f) older (limit_of limit) t ms i m found
                  at in
              (j, there, live, ground (arith, passes)),
        )
  ]

  -- The calls of a request for the history that succeeds.
  of_handle_history :
      (method : String) (who : Credentials) (params : HistoryParams) (es : List OutboundEnvelope)
      (t t' : List Message)
      → handle_history h method who params t ≡ (ok es, t')
      → (device : ℕ) × (conv : ℕ) × (since : ℕ) × (c : Claims) × (ms : List Message)
        × (h.web.uuids.parse params.device_id ≡ some device)
        × (require_auth h who device ≡ ok c)
        × (served (history h.svc device since conv (limit_param h params.limit)) t ≡ (ok ms, t'))
        × (es ≡ map (envelope_of h) ms)
  unfolding handle_history
  of_handle_history method who params es t t' e = elim (Bool-cases (method == "GET")) [
    | inr other ↦ absurd (ground (arith, other, e))
    | inl gets ↦ elim (Bool-cases (params.device_id == [])) [
      | inl missing ↦ absurd (ground (arith, gets, missing, e))
      | inr given ↦ elim (Option-cases (h.web.uuids.parse params.device_id)) [
        | inl bad ↦ absurd (ground (arith, gets, given, bad, e))
        | inr (device, read) ↦ elim (Option-cases (optional h h.web.uuids.parse params.conv_id)) [
          | inl bad ↦ absurd (ground (arith, gets, given, read, bad, e))
          | inr (conv, in_conv) ↦ elim (Option-cases (optional h h.web.parse_time params.since)) [
            | inl bad ↦ absurd (ground (arith, gets, given, read, in_conv, bad, e))
            | inr (since, from_time) ↦ elim (Result-cases (require_auth h who device)) [
              | inr (x, refused) ↦
                  absurd (ground (arith, gets, given, read, in_conv, from_time, refused, e))
              | inl (c, allowed) ↦
                  let m : Action (List Message) HttpError (List Message) =
                    served (history h.svc device since conv (limit_param h params.limit)) in
                  elim (Result-cases (m t).0) [
                    | inr (x, failed) ↦
                        absurd (
                          ground (arith, gets, given, read, in_conv, from_time, allowed, failed, e))
                    | inl (ms, done) ↦
                        let left : (m t).1 ≡ t' =
                          ground (arith, gets, given, read, in_conv, from_time, allowed, done, e) in
                        let shape : es ≡ map (envelope_of h) ms =
                          ground (arith, gets, given, read, in_conv, from_time, allowed, done, e) in
                        (device, conv, since, c, ms, read, allowed, λ i. (done i, left i), shape)
                  ]
            ]
          ]
        ]
      ]
    ]
  ]

  -- The envelopes that a request for the history gets with success are made of rows that are not
  -- deleted and are addressed to the device that it names; the auth service has said of its token
  -- that it is valid and may act for that device. The database behaves as documented.
  pub handle_history-IsAuthorized :
      (method : String) (who : Credentials) (params : HistoryParams) (es : List OutboundEnvelope)
      (t t' : List Message)
      → Laws h.svc
      → handle_history h method who params t ≡ (ok es, t')
      → (device : ℕ) × (ms : List Message) × (h.web.uuids.parse params.device_id ≡ some device)
        × IsAuthorized h who device
        × (es ≡ map (envelope_of h) ms)
        × ((i : ℕ) (m : Message)
            → get_elem? ms i ≡ some m
            → (j : ℕ) × (get_elem? t j ≡ some m) × (is_live m ≡ true) × (m.to_device_id ≡ device))
  handle_history-IsAuthorized method who params es t t' laws e =
      let (device, conv, since, c, ms, named, allowed, got, shape) =
        of_handle_history method who params es t t' e in
      let done =
        of_served h (history h.svc device since conv (limit_param h params.limit)) t t' ms got in
      let (set, rows) =
        of_history device since conv (limit_param h params.limit) t t' ms laws done in
      (device, ms, named, of_require_auth h who device c allowed set, shape, rows)
