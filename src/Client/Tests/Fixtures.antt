-- ===== src/Client/Tests/Fixtures.antt =====
-- The data of the runs: a local edit, the server's change of the same record, and ids to draw.
use Prim.Native.String as Text
use text.Mathlib.TextLemmas.{length-append}
use voldepass.Prelude.{
  ℕ, zero, suc, ◌+◌, ◌^◌, String, ◌≡◌, refl, ap, true, false, [], ◌∷◌, arith, eq_iff,
}
use voldepass.GoMap.{lookup}
use voldepass.Domain.{
  RecordDto, int64_zero, PushResult, applied, SyncPullResponse, SyncPushResponse, Result, ok, err,
  internal,
}
use voldepass.Client.Storage.{StoredRecord, PendingBatch}
use voldepass.Client.Syncer.Local.{Local}
use voldepass.Client.Syncer.Run.{Transport}
use voldepass.Client.Syncer.Merge.{IsInjective, IsForeign, IsValid}

-- The ids "c", "cc", "ccc" and so on.
abbrev pub uuid : ℕ → String
uuid zero = "c"
uuid (suc n) = Text.◌++◌ "c" (uuid n)

count-uuid : (n : ℕ) → Text.count (uuid n) ≡ suc n
count-uuid zero = refl
count-uuid (suc n) = omega (arith, length-append "c" (uuid n), count-uuid n)

pub uuid-IsInjective : IsInjective uuid
uuid-IsInjective m n e = omega (arith, count-uuid m, count-uuid n, ap Text.count e)

-- What the server sends, and what stands here: a record on version 1 that was edited at 5.
abbrev pub theirs : RecordDto
theirs = record {
  id = "r1";
  data_type = 1;
  encrypted_meta = [];
  meta_nonce = [];
  ciphertext = 7 ∷ [];
  nonce = [];
  base_version = int64_zero;
  version = 2 ^ 63 + 2;
  updated_at = 8;
  is_deleted = false;
}

abbrev pub mine : StoredRecord
mine = record {
  dto = record theirs {
    ciphertext = 8 ∷ [];
    base_version = 2 ^ 63 + 1;
    version = 2 ^ 63 + 1;
    updated_at = 3;
  };
  dirty = true;
  dirty_at = 5;
}

pub uuid-IsForeign : IsForeign uuid theirs
uuid-IsForeign zero e = ground (arith, eq_iff "c" "r1")
uuid-IsForeign (suc zero) e = ground (arith, eq_iff "cc" "r1")
uuid-IsForeign (suc (suc n)) e = absurd (omega (arith, count-uuid (suc (suc n)), ap Text.count e))

abbrev pub holding : StoredRecord → Local
holding r = record {
  store = record {
    version = int64_zero + 1;
    kdf_salt = [];
    kdf_params = record { time = 0; memory = 0; threads = 0; key_len = 0 };
    wrapped_data_key = [];
    auth_token = "";
    refresh_token = "";
    last_sync_version = int64_zero;
    last_sync_at = 0;
    records = ("r1", r) ∷ [];
    pending_push = [];
  };
  uuids = 0;
}

holding-IsValid : (r : StoredRecord) → r.id ≡ "r1" → IsValid uuid (holding r)
unfolding lookup
holding-IsValid r e = record {
  keyed = λ k x f. ground (arith, eq_iff "r1" k);
  unused = λ n h. let other = uuid-IsForeign n in ground (arith, eq_iff "r1" (uuid n));
}

-- The edit, and the same as a deletion.
abbrev pub here : Local
here = holding mine

pub here-IsValid : IsValid uuid here
here-IsValid = holding-IsValid mine refl

abbrev pub deleted : StoredRecord
deleted = record mine { dto = record mine.dto { is_deleted = true } }

abbrev pub gone : Local
gone = holding deleted

pub gone-IsValid : IsValid uuid gone
gone-IsValid = holding-IsValid deleted refl

-- The answer to a push in which the server took the record, on version 3.
abbrev pub taken : RecordDto
taken = record theirs { ciphertext = 8 ∷ []; version = 2 ^ 63 + 3; updated_at = 10 }

abbrev pub took : PushResult
took = record { id = "r1"; status = applied; server_record = taken }

-- A server that always gives these answers.
abbrev pub steady : Result SyncPullResponse → Result SyncPushResponse → Transport
steady pulled pushed = record {
  Server = Unit;
  pull = λ since server. (pulled, server);
  push = λ key req server. (pushed, server);
}

abbrev pub working : Transport
working = steady (ok (record { records = theirs ∷ [] })) (ok (record { results = took ∷ [] }))

abbrev pub broken : Transport
broken = steady (err internal) (err internal)

-- A batch that was sent before the last run ended, and the state that still has it.
abbrev pub batch : PendingBatch
batch = record { idempotency_key = "k"; record_ids = "r1" ∷ [] }

abbrev pub interrupted : Local
interrupted = record here { store = record here.store { pending_push = batch ∷ [] } }
