-- ===== src/Messages/Refinement.antt =====
-- services/messages/internal/service/service.go keeps the contract of Messages/Mailbox.
use mathlib.Core.Path.{subst}
use secu_msg_server.Common.{
  ℕ, ◌==◌, nat_eq, none, some, List, [], ◌∷◌, Option, Result, ok, err, ◌≡◌, refl, sym, ap, ◌∙◌,
  arith, inl, inr, Result-cases, Bool-cases,
}
use secu_msg_server.Messages.Store.{
  Message, MessagesError, MessageDb, Laws, as_stored, is_pending, member, touches, older, limit_of,
  pending_for_device, set_delivered, soft_delete, delete_messages,
}
use secu_msg_server.Messages.Service.{
  SendInput, enqueue, pending, mark_delivered, delete_for_device,
}
use secu_msg_server.Messages.Sent.{sent_as, enqueue-cases}
use secu_msg_server.Messages.Mailbox.{
  Call, send, look, deliver, erase, Move, failed, sent, looked, delivered, erased, Moves, waiting,
  waiting-append, waiting-delivered, waiting-deleted, without-none, get_elem?-waiting,
}

-- The messages that a call returns, or none if it fails.
abbrev pub outcome_of :
    {A : Type 0} → (A → List Message) → Result MessagesError A → Option (List Message)
outcome_of f (ok a) = some (f a)
outcome_of f (err e) = none

abbrev pub no_messages : {A : Type 0} → A → List Message
no_messages a = []

module _ (db : MessageDb) where
  -- The call on the table: what it returns, and the table after it.
  abbrev pub perform : Call → List Message → Option (List Message) × List Message
  perform (send now x) t = let (r, t') = enqueue db now x t in (outcome_of (λ m. m ∷ []) r, t')
  perform (look device limit) t =
      let (r, t') = pending db device limit t in (outcome_of (λ ms. ms) r, t')
  perform (deliver now ids) t =
      let (r, t') = mark_delivered db now ids t in (outcome_of no_messages r, t')
  perform (erase now device) t =
      let (r, t') = delete_for_device db now device t in (outcome_of no_messages r, t')

  abbrev pub play : List Call → List Message → List Message
  play [] t = t
  play (c ∷ cs) t = play cs (perform c t).1

  abbrev pub outcomes : List Call → List Message → List (Option (List Message))
  outcomes [] t = []
  outcomes (c ∷ cs) t = (perform c t).0 ∷ outcomes cs (perform c t).1

module _ (db : MessageDb) (laws : Laws db) where
  abbrev Refines : Call → List Message → Type 0
  Refines c t = Move db c (perform db c t).0 (waiting t) (waiting (perform db c t).1)

  -- A call that ends in the way given refines what it may do.
  perform-Refines :
      (c : Call) (t t' : List Message) (o : Option (List Message))
      → perform db c t ≡ (o, t')
      → Move db c o (waiting t) (waiting t')
      → Refines c t
  perform-Refines c t t' o e move =
      subst (λ x. Move db c x.0 (waiting t) (waiting x.1)) (sym e) move

  send-Refines : (now : ℕ) (x : SendInput) (t : List Message) → Refines (send now x) t
  send-Refines now x t = elim (enqueue-cases db now x t laws) [
    | inl (e, left) ↦
        perform-Refines (send now x) t t none (rw left refl) (failed (send now x) (waiting t))
    | inr (id, t', complete, valid, done, rows) ↦
        let m : Message = sent_as db now x id in
        perform-Refines (send now x) t t' (some (m ∷ [])) (rw done refl) (
          sent now id x (waiting t) (waiting t') complete valid
            (ap waiting rows ∙ waiting-append t (as_stored db m) refl))
  ]

  look-Refines : (device limit : ℕ) (t : List Message) → Refines (look device limit) t
  unfolding pending pending_for_device
  look-Refines device limit t = elim (Bool-cases (device == 0)) [
    | inl unnamed ↦
        perform-Refines (look device limit) t t none (ground (arith, unnamed))
          (failed (look device limit) (waiting t))
    | inr named ↦ elim (Result-cases (db.find (is_pending device) older (limit_of limit) t)) [
      | inl (ms, got) ↦
          perform-Refines (look device limit) t t (some ms) (ground (arith, named, got)) (
            looked device limit ms (waiting t) (λ i m at.
              let (j, there, live, waits) =
                laws.found (is_pending device) older (limit_of limit) t ms i m got at in
              let (k, kept) = get_elem?-waiting t j m there (ground (arith, live, waits)) in
              (k, kept, ground (arith, waits))))
      | inr (e, broken) ↦
          perform-Refines (look device limit) t t none (ground (arith, named, broken))
            (failed (look device limit) (waiting t))
    ]
  ]

  deliver-Refines : (now : ℕ) (ids : List ℕ) (t : List Message) → Refines (deliver now ids) t
  unfolding mark_delivered set_delivered
  deliver-Refines now [] t =
      delivered now [] (waiting t) (waiting t) (sym (without-none (waiting t)))
  deliver-Refines now (id ∷ ids) t =
      let test = λ (x : Message). member x.id (id ∷ ids) in
      let at : ℕ = db.timestamptz now in
      let mark = λ (x : Message). record x { delivered_at = some at } in
      elim (Result-cases (db.update test mark t)) [
        | inl (t', done) ↦
            perform-Refines (deliver now (id ∷ ids)) t t' (some []) (ground (arith, done)) (
              delivered now (id ∷ ids) (waiting t) (waiting t')
                (ap waiting (laws.updated test mark t t' done) ∙ waiting-delivered (id ∷ ids) at t))
        | inr (e, broken) ↦
            perform-Refines (deliver now (id ∷ ids)) t t none (ground (arith, broken))
              (failed (deliver now (id ∷ ids)) (waiting t))
      ]

  erase-Refines : (now device : ℕ) (t : List Message) → Refines (erase now device) t
  unfolding delete_for_device delete_messages soft_delete
  erase-Refines now device t = elim (Bool-cases (device == 0)) [
    | inl unnamed ↦
        perform-Refines (erase now device) t t none (ground (arith, unnamed))
          (failed (erase now device) (waiting t))
    | inr named ↦ elim (Result-cases (db.delete now (touches device) t)) [
      | inl ((n, t'), done) ↦
          let rows = (laws.deleted now (touches device) n t t' done).0 in
          perform-Refines (erase now device) t t' (some []) (ground (arith, named, done)) (
            erased now device (waiting t) (waiting t') named
              (ap waiting rows ∙ waiting-deleted (touches device) (db.timestamptz now) t))
      | inr (e, broken) ↦
          perform-Refines (erase now device) t t none (ground (arith, named, broken))
            (failed (erase now device) (waiting t))
    ]
  ]

  call-Refines : (c : Call) (t : List Message) → Refines c t
  call-Refines (send now x) t = send-Refines now x t
  call-Refines (look device limit) t = look-Refines device limit t
  call-Refines (deliver now ids) t = deliver-Refines now ids t
  call-Refines (erase now device) t = erase-Refines now device t

  -- The service is a box of waiting messages, for every sequence of calls of Enqueue, Pending,
  -- MarkDelivered and DeleteForDevice: seen through the rows that are neither delivered nor
  -- deleted, a call that fails changes nothing; Enqueue returns the message of a complete
  -- request whose header is JSON, with an identifier and the time of sending as the column
  -- keeps it, and adds it with the header as the jsonb column gives it out; Pending changes
  -- nothing and returns waiting messages of its device; MarkDelivered takes away the messages
  -- with its identifiers, and DeleteForDevice those to and from its device. The database
  -- behaves as documented.
  pub mailbox_refinement :
      (cs : List Call) (t : List Message)
      → Moves db cs (outcomes db cs t) (waiting t) (waiting (play db cs t))
  mailbox_refinement [] t = refl
  mailbox_refinement (c ∷ cs) t =
      let t' : List Message = (perform db c t).1 in
      (waiting t', call-Refines c t, mailbox_refinement cs t')
