-- ===== src/Messages/Tests.antt =====
-- Witnesses for services/messages on a database that never fails.
use secu_msg_server.Common.{
  ℕ, ◌*◌, ◌/◌, zero, suc, ◌==◌, Bool, true, false, if◌then◌else◌, nat_eq, ◌&&◌, Option, none, some,
  List, [], ◌∷◌, ◌++◌, get_elem?, take, length, ok, ◌≡◌, refl, arith, inl, inr, Bool-cases, sym, ap,
  ◌∙◌,
}
use secu_msg_server.Messages.Store.{
  Message, MessageDb, Laws, is_null, is_live, as_stored, update_live, count_live, member, touches,
  create_message, pending_for_device, set_delivered, soft_delete, delete_messages,
}
use secu_msg_server.Messages.Service.{
  SendInput, message_of, enqueue, pending, mark_delivered, delete_for_device,
}
use secu_msg_server.Messages.Sent.{sent_as}
use secu_msg_server.Bytes.{Bytes}
use secu_msg_server.Messages.Json.{
  bytes, text, json_value, json_scan, marshal_json, unmarshal_json, json_scan-json_value,
}
use secu_msg_server.Messages.Mailbox.{Call, send, look, deliver, erase, Moves, waiting}
use secu_msg_server.Messages.Refinement.{outcomes, play, mailbox_refinement}
use secu_msg_server.Messages.Delivery.{pending_after_delivery, pending_after_deletion}

-- All that the tests compute with.
program : Unit {0}
unfolding create_message pending_for_device set_delivered soft_delete delete_messages enqueue
    pending mark_delivered delete_for_device
program = tt

abbrev pub live_rows : (Message → Bool) → List Message → List Message
live_rows test [] = []
live_rows test (m ∷ t) =
    let rest = live_rows test t in if is_live m && test m then m ∷ rest else rest

abbrev pub limited : Option ℕ → List Message → List Message
limited none ms = ms
limited (some n) ms = take n ms

abbrev pub conversation_ids : List Message → List ℕ
conversation_ids [] = []
conversation_ids (m ∷ t) = m.conv_id ∷ conversation_ids t

-- A document without its spaces.
abbrev pub compact : Bytes → Bytes
compact [] = []
compact (x ∷ s) = let rest = compact s in if x == 32 then rest else x ∷ rest

abbrev pub is_object : Bytes → Bool
is_object [] = false
is_object (x ∷ s) = x == 123

-- The row that Create makes, at the length of the table, and the message that it fills in.
abbrev pub filled : Message → ℕ → Message
filled m n = record m { id = suc n; sent_at = m.sent_at / 10 * 10 }

abbrev pub db : MessageDb
db = record {
  json_valid = is_object;
  jsonb = compact;
  timestamptz = λ at. at / 10 * 10;
  create = λ m t.
      let m' : Message = filled m (length t) in
      ok (m', t ++ record m' { header = compact m.header } ∷ []);
  find = λ test before limit t. ok (limited limit (live_rows test t));
  scan_conversations = λ test t. ok (conversation_ids (live_rows test t));
  update = λ test f t. ok (update_live test f t);
  delete = λ now test t.
      ok (
        count_live test t,
        update_live test (λ m. record m { deleted_at = some (now / 10 * 10) }) t,
      );
}

get_elem?-live_rows :
    (test : Message → Bool) (t : List Message) (i : ℕ) (m : Message)
    → get_elem? (live_rows test t) i ≡ some m
    → (j : ℕ) × (get_elem? t j ≡ some m) × (is_live m ≡ true) × (test m ≡ true)
get_elem?-live_rows test [] i m e = absurd (ground arith)
get_elem?-live_rows test (x ∷ t) zero m e = elim (Bool-cases (is_live x && test x)) [
  | inl kept ↦
      let same : x ≡ m = ground (arith, kept, e) in
      (0, ap some same, ground (arith, kept, ap is_live same), ground (arith, kept, ap test same))
  | inr dropped ↦
      let (j, at, live, passes) = get_elem?-live_rows test t zero m (ground (arith, dropped, e)) in
      (suc j, at, live, passes)
]
get_elem?-live_rows test (x ∷ t) (suc i) m e = elim (Bool-cases (is_live x && test x)) [
  | inl kept ↦
      let (j, at, live, passes) = get_elem?-live_rows test t i m (ground (arith, kept, e)) in
      (suc j, at, live, passes)
  | inr dropped ↦
      let (j, at, live, passes) =
        get_elem?-live_rows test t (suc i) m (ground (arith, dropped, e)) in
      (suc j, at, live, passes)
]

get_elem?-take :
    (n i : ℕ) (t : List Message) (m : Message)
    → get_elem? (take n t) i ≡ some m
    → get_elem? t i ≡ some m
get_elem?-take zero i t m e = absurd (ground arith)
get_elem?-take (suc n) i [] m e = absurd (ground arith)
get_elem?-take (suc n) zero (x ∷ t) m e = e
get_elem?-take (suc n) (suc i) (x ∷ t) m e = get_elem?-take n i t m e

get_elem?-limited :
    (limit : Option ℕ) (i : ℕ) (t : List Message) (m : Message)
    → get_elem? (limited limit t) i ≡ some m
    → get_elem? t i ≡ some m
get_elem?-limited none i t m e = e
get_elem?-limited (some n) i t m e = get_elem?-take n i t m e

live_rows_complete :
    (test : Message → Bool) (t : List Message) (j : ℕ) (m : Message)
    → get_elem? t j ≡ some m
    → is_live m ≡ true
    → test m ≡ true
    → (i : ℕ) × (get_elem? (live_rows test t) i ≡ some m)
live_rows_complete test [] j m e live passes = absurd (ground arith)
live_rows_complete test (x ∷ t) zero m e live passes =
    let same : m ≡ x = ground (arith, e) in
    let live' : is_live x ≡ true = sym (ap is_live same) ∙ live in
    let passes' : test x ≡ true = sym (ap test same) ∙ passes in
    (0, ground (arith, live', passes', e))
live_rows_complete test (x ∷ t) (suc j) m e live passes =
    let (i, at) = live_rows_complete test t j m e live passes in
    elim (Bool-cases (is_live x && test x)) [
      | inl kept ↦ (suc i, ground (arith, kept, at))
      | inr dropped ↦ (i, ground (arith, dropped, at))
    ]

pub db-Laws : Laws db
db-Laws = record {
  created = λ m m' t t' e.
      let same : filled m (length t) ≡ m' = ground (arith, e) in
      let rest : t ++ record (filled m (length t)) { header = compact m.header } ∷ [] ≡ t' =
        ground (arith, e) in
      (
        sym same ∙ ap (λ x. record m { id = x.id; sent_at = m.sent_at / 10 * 10 }) same,
        sym rest ∙ ap (λ (x : Message). t ++ record x { header = compact x.header } ∷ []) same,
      );
  found = λ test before limit t ms i m e at.
      let rows : limited limit (live_rows test t) ≡ ms = ground (arith, e) in
      get_elem?-live_rows test t i m
        (get_elem?-limited limit i (live_rows test t) m (ap (λ x. get_elem? x i) rows ∙ at));
  found_all = λ test before t ms j m e at live passes.
      let rows : live_rows test t ≡ ms = ground (arith, e) in
      let (i, there) = live_rows_complete test t j m at live passes in
      (i, sym (ap (λ x. get_elem? x i) rows) ∙ there);
  updated = λ test f t t' e. ground (arith, e);
  deleted = λ now test n t t' e. (ground (arith, e), ground (arith, e));
}

abbrev letter : SendInput
letter = record {
  conv_id = 1;
  from_device_id = 2;
  to_device_id = 3;
  ciphertext = 10 ∷ [];
  header = 123 ∷ 125 ∷ [];
}

-- A table with three messages for device 3, the second of them delivered.
abbrev pub row : ℕ → Option ℕ → Message
row id delivered = record (message_of 50 letter) { id = id; delivered_at = delivered }

abbrev pub rows : List Message
rows = row 1 none ∷ row 2 (some 60) ∷ row 3 none ∷ []

-- The document `{ }`.
abbrev spaced : SendInput
spaced = record letter { header = 123 ∷ 32 ∷ 125 ∷ [] }

-- The row has neither the space nor the last digit of the time.
spaced_stored :
    as_stored db (sent_as db 74 spaced 4)
    ≡ record (row 4 none) { sent_at = 70; header = 123 ∷ 125 ∷ [] }
spaced_stored = refl

first_delivered :
    mark_delivered db 80 (1 ∷ []) rows
    ≡ (ok tt, row 1 (some 80) ∷ row 2 (some 60) ∷ row 3 none ∷ [])
unfolding program
first_delivered = refl

third_pending :
    pending db 3 5 (row 1 (some 80) ∷ row 2 (some 60) ∷ row 3 none ∷ [])
    ≡ (ok (row 3 none ∷ []), row 1 (some 80) ∷ row 2 (some 60) ∷ row 3 none ∷ [])
unfolding program
third_pending = refl

pending_after_delivery_example :
    (member (row 3 none).id (1 ∷ []) ≡ false)
    × ((row 3 none).to_device_id ≡ 3)
    × (is_null (row 3 none).delivered_at ≡ true)
pending_after_delivery_example =
    pending_after_delivery db db-Laws 80 3 5 0 (1 ∷ []) (row 3 none) rows
      (row 1 (some 80) ∷ row 2 (some 60) ∷ row 3 none ∷ [])
      (row 1 (some 80) ∷ row 2 (some 60) ∷ row 3 none ∷ []) (row 3 none ∷ []) first_delivered
      third_pending refl

-- Two messages, of which device 4 has a part in the first.
abbrev two : List Message
two = record (row 1 none) { from_device_id = 4 } ∷ row 2 none ∷ []

abbrev one_left : List Message
one_left = record (row 1 none) { from_device_id = 4; deleted_at = some 90 } ∷ row 2 none ∷ []

first_deleted : delete_for_device db 90 4 two ≡ (ok 1, one_left)
unfolding program
first_deleted = refl

second_pending : pending db 3 0 one_left ≡ (ok (row 2 none ∷ []), one_left)
unfolding program
second_pending = refl

pending_after_deletion_example : touches 4 (row 2 none) ≡ false
pending_after_deletion_example =
    pending_after_deletion db db-Laws 90 4 3 0 0 1 (row 2 none) two one_left one_left
      (row 2 none ∷ []) first_deleted second_pending refl

abbrev any_document : Bytes → Bool
any_document b = true

braces_out : json_value any_document (123 ∷ 125 ∷ []) ≡ ok (123 ∷ 125 ∷ [])
unfolding json_value
braces_out = refl

json_scan-json_value_example :
    (json_scan any_document [] (bytes (123 ∷ 125 ∷ [])) ≡ ok (123 ∷ 125 ∷ []))
    × (json_scan any_document [] (text (123 ∷ 125 ∷ [])) ≡ ok (123 ∷ 125 ∷ []))
    × (marshal_json any_document (123 ∷ 125 ∷ []) ≡ ok (123 ∷ 125 ∷ []))
    × (unmarshal_json any_document [] (123 ∷ 125 ∷ []) ≡ ok (123 ∷ 125 ∷ []))
json_scan-json_value_example =
    json_scan-json_value any_document (123 ∷ 125 ∷ []) [] (123 ∷ 125 ∷ []) refl braces_out

abbrev mailbox_calls : List Call
mailbox_calls =
    send 74 spaced
    ∷ look 3 0
    ∷ deliver 80 (1 ∷ [])
    ∷ erase 90 4
    ∷ send 95 (record letter { conv_id = 0 })
    ∷ send 96 (record letter { header = 97 ∷ [] })
    ∷ []

mailbox_refinement_example :
    Moves db mailbox_calls
      (outcomes db mailbox_calls rows)
      (waiting rows)
      (waiting (play db mailbox_calls rows))
mailbox_refinement_example = mailbox_refinement db db-Laws mailbox_calls rows
