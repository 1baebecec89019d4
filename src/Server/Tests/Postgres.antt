-- ===== src/Server/Tests/Postgres.antt =====
-- Runs of the Postgres repositories.
use voldepass.Prelude.{
  String, ◌≡◌, refl, some, none, false, true, [], ◌∷◌, ◌^◌, ◌+◌, ◌⊎◌, arith, Mem, eq_iff, List,
}
use voldepass.GoMap.{lookup, insert}
use voldepass.Domain.{Record, ok}
use voldepass.Server.Ports.{saved}
use voldepass.Server.Inmem.Tokens.{Entry, Store}
use voldepass.Server.Postgres.Records.{
  Table, Call, upserts, deletes, new, nextval, settle, upsert, bury, delete, get, selected, step,
  run,
}
use voldepass.Server.Postgres.Records.Versions.{selected-run}
use voldepass.Server.Postgres.Records.Overlap.{selected-skips}
use voldepass.Server.Postgres.Tokens.{rotate, rotate_again}

abbrev row : String → Record
row id = record {
  id = id;
  owner_id = "alice";
  data_type = 2;
  encrypted_meta = [];
  meta_nonce = [];
  ciphertext = 1 ∷ [];
  nonce = [];
  version = 0;
  updated_at = 0;
  deleted = false;
}

abbrev calls : List Call
calls =
    upserts false false 10 (row "r1") 0
    ∷ upserts true false 11 (row "r2") 0
    ∷ deletes false 12 "r1" "alice"
    ∷ []

abbrev buried : Record
buried = record (row "r1") { version = 2 ^ 63 + 2; updated_at = 12; deleted = true }

selected-run_example :
    (lookup "r1" new.rows ≡ some buried) ⊎ Mem buried (selected "alice" new.seq (run new calls))
unfolding new run step upsert settle delete bury nextval lookup insert
selected-run_example = selected-run new calls "r1" buried refl

-- The sequence has given 1 to the first, when the second starts.
abbrev drawn : Table
drawn = record { rows = []; seq = 2 ^ 63 + 1 }

selected-skips_example :
    (x : Record) × (t : Table) × (settle false 20
        (row "r1")
        0
        (2 ^ 63 + 1)
        (upsert false false 15 (row "r2") 0 drawn).1
      ≡ (saved x, t))
    × (get false "r1" "alice" t ≡ ok x)
    × (¬ Mem x (selected "alice" (2 ^ 63 + 2) t))
unfolding new upsert settle nextval lookup insert
selected-skips_example =
    selected-skips 20 15 (row "r1") (row "r2")
      (record (row "r2") { version = 2 ^ 63 + 2; updated_at = 15 }) 0 0 (2 ^ 63 + 1) new drawn refl
      (λ e. ground (arith, eq_iff "r2" "r1")) refl refl

abbrev token : Entry
token = record { user_id = "alice"; expires_at = 100; revoked = false }

abbrev tokens : Store
tokens = record { tokens = ("t0", token) ∷ [] }

rotate_again_example :
    let s = (rotate none "t0" "t1" "alice" 110 tokens).1 in
    let (r, s') = rotate none "t0" "t2" "alice" 111 s in
    (r ≡ ok tt)
    × (lookup "t1" s'.tokens
        ≡ some (record { user_id = "alice"; expires_at = 110; revoked = false }))
    × (lookup "t2" s'.tokens
        ≡ some (record { user_id = "alice"; expires_at = 111; revoked = false }))
unfolding lookup
rotate_again_example =
    rotate_again "t0" "t1" "t2" "alice" 110 111 tokens token refl refl refl
      (λ e. ground (arith, eq_iff "t1" "t2"))
