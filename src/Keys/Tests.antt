-- ===== src/Keys/Tests.antt =====
-- Witnesses for services/keys on a database that never fails and rolls failed transactions back.
use secu_msg_server.Common.{
  ℕ, zero, suc, nat_eq, Option, none, some, List, [], ◌∷◌, ok, ◌≡◌, ◌≢◌, refl, ap, String,
}
use secu_msg_server.Database.{Row, Table}
use secu_msg_server.Keys.Types.{
  OneTimePrekey, Tables, KeysError, database, PreKeyBundleResponse, OneTimePreKeyDto,
}
use secu_msg_server.Uuid.{Uuids, IsPrinted}
use secu_msg_server.Database.Sample.{db, db-Laws}
use secu_msg_server.Keys.Store.{get_identity_key, get_signed_pre_key, consume_next, consume_row}
use secu_msg_server.Keys.Service.{World, get_pre_key_bundle, read_bundle}
use secu_msg_server.Keys.HandOut.{Call, hand_out, run_calls, handed_out_once}

-- All that the tests compute with.
program : Unit {0}
unfolding get_identity_key get_signed_pre_key consume_next consume_row get_pre_key_bundle
    read_bundle
program = tt

abbrev refusal : KeysError
refusal = database "unique"

-- An identifier is printed as so many letters.
abbrev letters : ℕ → String
letters zero = String.[]
letters (suc n) = String.◌∷◌ "a" (letters n)

abbrev count : String → ℕ
count String.[] = 0
count (String.◌∷◌ c s) = suc (count s)

abbrev uuids : Uuids String
uuids = record { parse = λ s. some (count s); to_string = letters; drawn = λ n. suc n }

count-letters : (n : ℕ) → count (letters n) ≡ n
count-letters zero = refl
count-letters (suc n) = ap suc (count-letters n)

uuids-IsPrinted : IsPrinted uuids
uuids-IsPrinted id = ap some (count-letters id)

-- Device 3 of user 1 with its keys; the one-time prekey 8 is the only one that is open then.
abbrev tables : Table OneTimePrekey → Tables
tables keys = record {
  users = record { value = record { id = 1 }; created_at = 0 } ∷ [];
  devices = record { value = record { id = 3; user_id = 1 }; created_at = 0 } ∷ [];
  identity_keys =
      record {
        value = record { device_id = 3; public_key = "i"; signature_key = "s" };
        created_at = 0;
      }
      ∷ [];
  signed_pre_keys =
      record {
        value = record { device_id = 3; public_key = "p"; signature = "q"; created_at = 9 };
        created_at = 0;
      }
      ∷ [];
  one_time_prekeys = keys;
}

abbrev one_time : ℕ → Option ℕ → Row OneTimePrekey
one_time id at = record {
  value = record { id = id; device_id = 3; public_key = "k"; consumed_at = at };
  created_at = 0;
}

abbrev world : Table OneTimePrekey → World
world keys = record { tables = tables keys; draws = 0 }

abbrev dto : ℕ → OneTimePreKeyDto
dto id = record { id = letters id; public_key = "k" }

abbrev response : ℕ → PreKeyBundleResponse
response id = record {
  device_id = letters 3;
  identity_key = "i";
  identity_signature_key = "s";
  signed_pre_key = record { public_key = "p"; signature = "q"; created_at = 9 };
  one_time_pre_key = some (dto id);
}

abbrev after_first : World
after_first = world (one_time 7 (some 50) ∷ one_time 8 none ∷ [])

first_bundle :
    get_pre_key_bundle (db refusal) uuids 50 3 (world (one_time 7 none ∷ one_time 8 none ∷ []))
    ≡ (ok (response 7), after_first)
unfolding program
first_bundle = refl

-- A bundle of an unknown device in between.
abbrev calls : List Call
calls = hand_out 55 4 ∷ []

second_bundle :
    get_pre_key_bundle (db refusal) uuids 60 3 (run_calls (db refusal) uuids calls after_first)
    ≡ (ok (response 8), world (one_time 7 (some 50) ∷ one_time 8 (some 60) ∷ []))
unfolding program
second_bundle = refl

handed_out_once_example : (dto 7).id ≢ (dto 8).id
handed_out_once_example =
    handed_out_once (db refusal) (db-Laws refusal) uuids 50 60 3 3
      (world (one_time 7 none ∷ one_time 8 none ∷ [])) after_first
      (world (one_time 7 (some 50) ∷ one_time 8 (some 60) ∷ [])) (response 7) (response 8) (dto 7)
      (dto 8) calls uuids-IsPrinted first_bundle refl second_bundle refl
