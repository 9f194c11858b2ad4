-- ===== src/Messages/Mailbox.antt =====
-- The contract of services/messages: a box of messages that wait. The tables of
-- services/messages/internal/store also keep what was delivered and what was deleted; the box forgets it.
use secu_msg_server.Common.{
  ℕ, zero, suc, Bool, true, false, if◌then◌else◌, ◌==◌, nat_eq, ◌&&◌, none, some, List, [], ◌∷◌,
  ◌++◌, get_elem?, Option, ◌≡◌, refl, ap, arith, inl, inr, Bool-cases,
}
use secu_msg_server.Messages.Store.{
  Message, MessageDb, as_stored, is_null, is_live, update_live, member, touches,
}
use secu_msg_server.Messages.Service.{SendInput, is_incomplete}
use secu_msg_server.Messages.Sent.{sent_as}

-- The calls of the service that read or write what waits.
pub data Call : Type 0 where
  send : ℕ → SendInput → Call
  look : ℕ → ℕ → Call
  deliver : ℕ → List ℕ → Call
  erase : ℕ → ℕ → Call

abbrev pub is_waiting : Message → Bool
is_waiting m = is_live m && is_null m.delivered_at

-- The box of a table.
abbrev pub waiting : List Message → List Message
waiting [] = []
waiting (m ∷ t) = let rest = waiting t in if is_waiting m then m ∷ rest else rest

abbrev pub without : (Message → Bool) → List Message → List Message
without test [] = []
without test (m ∷ b) = let rest = without test b in if test m then rest else m ∷ rest

-- What a call may do to the box: nothing if it fails, and otherwise what its name says. The messages
-- given are those that the call returns. A message that is sent is in the box as its row keeps it.
pub data Move (db : MessageDb)
    : Call → Option (List Message) → List Message → List Message → Type 0 where
  failed : (c : Call) (b : List Message) → Move db c none b b
  sent :
      (now id : ℕ) (x : SendInput) (b b' : List Message)
      → is_incomplete x ≡ false
      → db.json_valid x.header ≡ true
      → b' ≡ b ++ as_stored db (sent_as db now x id) ∷ []
      → Move db (send now x) (some (sent_as db now x id ∷ [])) b b'
  looked :
      (device limit : ℕ) (ms b : List Message)
      → ((i : ℕ) (m : Message)
          → get_elem? ms i ≡ some m
          → (j : ℕ) × (get_elem? b j ≡ some m) × (m.to_device_id ≡ device))
      → Move db (look device limit) (some ms) b b
  delivered :
      (now : ℕ) (ids : List ℕ) (b b' : List Message)
      → b' ≡ without (λ m. member m.id ids) b
      → Move db (deliver now ids) (some []) b b'
  erased :
      (now device : ℕ) (b b' : List Message)
      → (device == 0) ≡ false
      → b' ≡ without (touches device) b
      → Move db (erase now device) (some []) b b'

-- The calls one after the other, with what each returns.
abbrev pub Moves :
    MessageDb → List Call → List (Option (List Message)) → List Message → List Message → Type 0
Moves db [] [] b b' = b' ≡ b
Moves db [] (o ∷ os) b b' = ⊥
Moves db (c ∷ cs) [] b b'' = ⊥
Moves db (c ∷ cs) (o ∷ os) b b'' = (b' : List Message) × Move db c o b b' × Moves db cs os b' b''

pub waiting-append :
    (t : List Message) (m : Message)
    → is_waiting m ≡ true
    → waiting (t ++ m ∷ []) ≡ waiting t ++ m ∷ []
waiting-append [] m h = ground (arith, h)
waiting-append (x ∷ t) m h = ground (arith, waiting-append t m h)

pub waiting-delivered :
    (ids : List ℕ) (at : ℕ) (t : List Message)
    → waiting (update_live (λ m. member m.id ids) (λ m. record m { delivered_at = some at }) t)
      ≡ without (λ m. member m.id ids) (waiting t)
waiting-delivered ids at [] = refl
waiting-delivered ids at (m ∷ t) = ground (arith, waiting-delivered ids at t)

pub waiting-deleted :
    (test : Message → Bool) (at : ℕ) (t : List Message)
    → waiting (update_live test (λ m. record m { deleted_at = some at }) t)
      ≡ without test (waiting t)
waiting-deleted test at [] = refl
waiting-deleted test at (m ∷ t) = ground (arith, waiting-deleted test at t)

pub without-none : (b : List Message) → without (λ m. member m.id []) b ≡ b
without-none [] = refl
without-none (m ∷ b) = ground (arith, without-none b)

pub get_elem?-waiting :
    (t : List Message) (j : ℕ) (m : Message)
    → get_elem? t j ≡ some m
    → is_waiting m ≡ true
    → (k : ℕ) × (get_elem? (waiting t) k ≡ some m)
get_elem?-waiting [] j m at h = absurd (ground (arith, at))
get_elem?-waiting (x ∷ t) zero m at h =
    let same : x ≡ m = ground (arith, at) in
    (0, ground (arith, ap (λ (y : Message). is_waiting y) same, h, same))
get_elem?-waiting (x ∷ t) (suc j) m at h =
    let (k, there) = get_elem?-waiting t j m at h in
    elim (Bool-cases (is_waiting x)) [
      | inl kept ↦ (suc k, ground (arith, kept, there))
      | inr left ↦ (k, ground (arith, left, there))
    ]
