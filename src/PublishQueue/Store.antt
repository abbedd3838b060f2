-- ===== src/PublishQueue/Store.antt =====
-- `MqttPublishQueueStore` (packages/uns-core/src/uns-mqtt/publish-queue-store.ts). The table
-- `pending` is the list of its rows by primary key; an SQL statement is read by what SQL says of it.
use uns_kit.Kit.{
  ℕ, suc, ◌+◌, ◌*◌, Bool, false, ◌&&◌, ◌||◌, Option, none, some, List, [], ◌∷◌, length, total, ltb,
  leb, ◌==◌, ◌===◌, if◌then◌else◌, Result, ok, err, ◌>>◌, throw_if,
}
use uns_kit.PublishQueue.Records.{Config, PublishRecord, validate_output_row}

pub record Summary : Type 0 where
  pub records : ℕ
  pub bytes : ℕ
  pub last_seq : ℕ

pub record Store : Type 0 where
  pub pending : List PublishRecord
  pub final_summary : Option Summary

-- What `put` reads of the file system, before and after a WAL checkpoint, and the length of a
-- record's JSON text.
pub record Disk : Type 0 where
  pub free_bytes : ℕ
  pub physical_bytes : ℕ
  pub truncated_bytes : ℕ
  pub serialized_bytes : PublishRecord → ℕ

abbrev pub row_bytes : PublishRecord → ℕ
row_bytes r = r.bytes

-- `MAX(seq)`, or 0
unfoldable pub max_seq : List PublishRecord → ℕ
max_seq [] = 0
max_seq (r ∷ rows) = let rest = max_seq rows in if ltb rest r.seq then r.seq else rest

unfoldable pub summary : Store → Summary
unfolding max_seq
summary s = elim s.final_summary [
  | some final ↦ final
  | none ↦ record {
    records = length s.pending;
    bytes = total row_bytes s.pending;
    last_seq = max_seq s.pending;
  }
]

-- `ORDER BY seq LIMIT 1`, and the check of the row.
unfoldable pub head : Store → Result (Option PublishRecord)
head s = elim s.pending [
  | [] ↦ ok none
  | r ∷ _ ↦
      if validate_output_row r
      then ok (some r)
      else err "MQTT outbox integrity check failed; pending work preserved"
]

-- A row takes its place by primary key.
unfoldable pub insert_row : PublishRecord → List PublishRecord → List PublishRecord
insert_row r [] = r ∷ []
insert_row r (x ∷ rows) =
    let rest = insert_row r rows in if ltb r.seq x.seq then r ∷ x ∷ rows else x ∷ rest

-- The PRIMARY KEY and UNIQUE constraints of an INSERT.
unfoldable pub violates_key : PublishRecord → List PublishRecord → Bool
violates_key r [] = false
violates_key r (x ∷ rows) = r.seq == x.seq || r.id === x.id || violates_key r rows

unfoldable pub put : Config → Disk → Store → PublishRecord → Result Store
unfolding summary insert_row violates_key
put config disk s r = do
  throw_if (ltb disk.free_bytes config.min_free_bytes) "MQTT outbox free-space reserve exhausted"
  let reserve = 2 * disk.serialized_bytes r + 65536
  throw_if
      (ltb config.max_disk_bytes (disk.physical_bytes + reserve)
        && ltb config.max_disk_bytes (disk.truncated_bytes + reserve))
      "MQTT physical disk budget reached; admission rejected"
  throw_if
      (leb config.max_records (summary s).records
        || ltb config.max_bytes ((summary s).bytes + r.bytes))
      "MQTT disk queue capacity reached; admission rejected"
  throw_if (violates_key r s.pending) "UNIQUE constraint failed"
  ok (record s { pending = insert_row r s.pending })

-- `DELETE FROM pending WHERE seq=? AND id=?`: the rows that stay, and how many went.
unfoldable pub delete_row : PublishRecord → List PublishRecord → List PublishRecord × ℕ
delete_row r [] = ([], 0)
delete_row r (x ∷ rows) =
    let (rest, n) = delete_row r rows in
    if r.seq == x.seq && r.id === x.id then (rest, suc n) else (x ∷ rest, n)

unfoldable pub complete : Store → PublishRecord → Result Store
unfolding delete_row
complete s r =
    let (rows, changes) = delete_row r s.pending in
    if changes == 1
    then ok (record s { pending = rows })
    else err "MQTT outbox checkpoint differs; completion not confirmed"

unfoldable pub close : Store → Store
unfolding summary
close s = elim s.final_summary [
  | some final ↦ s
  | none ↦ record s { final_summary = some (summary s) }
]
