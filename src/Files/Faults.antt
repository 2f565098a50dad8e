-- ===== src/Files/Faults.antt =====
-- packages/file-metadata/inmem.go: updates that leave what they should not.
use flametrench_go.Base.{
  ℕ, ◌≡◌, true, false, ◌&&◌, ◌||◌, none, some, arith, Text, ◌==◌, lookup, insert, eq_iff,
  lookup-insert_self,
}
use flametrench_go.Base.Result.{ok, err}
use flametrench_go.Files.{
  FileMetadata, Store, UpdateFileMetadataInput, status_pending, status_active, status_deleted,
  put_file, with_facts, has_facts, change_status, apply_status, rename, is_name,
  update_file_metadata, invalid_format,
}
use flametrench_go.Files.Facts.{is_known, statuses_differ}

abbrev pub only_status : Text → Text → UpdateFileMetadataInput
only_status id to = record {
  id = id;
  name = none;
  status = some to;
  size_bytes = none;
  checksum = none;
  storage_ref = none;
}

-- A move that none of the three cases of the switch stops.
moved :
    (rune_count : Text → ℕ) (id to : Text) (f : FileMetadata) (t : ℕ) (s : Store)
    → lookup id s.files ≡ some f
    → (f.status == status_deleted || (f.status == status_active && to == status_pending)) ≡ false
    → (f.status == status_pending && to == status_active) ≡ false
    → lookup id (update_file_metadata rune_count (only_status id to) t s).1.files
      ≡ some (record f { status = to; updated_at = t })
unfolding update_file_metadata apply_status change_status rename put_file
moved rune_count id to f t s stored free plain =
    let g : FileMetadata = record f { status = to } in
    let step : apply_status (only_status id to) f ≡ ok g = ground arith in
    ground (arith, step, lookup-insert_self id (record g { updated_at = t }) (insert id g s.files))

-- UpdateFileMetadata does not look at the name of the new status: a pending file that is moved to a
-- status that is none of the three, and from there to active, is active with the facts it had, which
-- no test has seen.
pub unknown_status_skips_facts :
    (rune_count : Text → ℕ) (id odd : Text) (f : FileMetadata) (t1 t2 : ℕ) (s : Store)
    → lookup id s.files ≡ some f
    → f.status ≡ status_pending
    → is_known odd ≡ false
    → let s' = (update_file_metadata rune_count (only_status id odd) t1 s).1 in
      let s'' = (update_file_metadata rune_count (only_status id status_active) t2 s').1 in
      lookup id s''.files ≡ some (record f { status = status_active; updated_at = t2 })
unknown_status_skips_facts rune_count id odd f t1 t2 s stored waits strange =
    let g : FileMetadata = record f { status = odd; updated_at = t1 } in
    let first =
      moved rune_count id odd f t1 s stored
        (ground
          (arith, eq_iff f.status status_deleted, eq_iff f.status status_active, statuses_differ))
        (ground arith) in
    moved rune_count id status_active g t2
      (update_file_metadata rune_count (only_status id odd) t1 s).1 first
      (ground (arith, eq_iff status_active status_pending, statuses_differ)) (ground arith)

-- UpdateFileMetadata writes the status and the facts before it looks at the name: a call that
-- activates a pending file and brings a bad name is refused, and the file is active all the same.
pub refused_name_activates :
    (rune_count : Text → ℕ) (i : UpdateFileMetadataInput) (f : FileMetadata) (name : Text) (now : ℕ)
    (s : Store)
    → lookup i.id s.files ≡ some f
    → f.status ≡ status_pending
    → i.status ≡ some status_active
    → has_facts i.size_bytes i.checksum i.storage_ref ≡ true
    → i.name ≡ some name
    → is_name rune_count name ≡ false
    → let (r, s') = update_file_metadata rune_count i now s in
      (r ≡ err invalid_format)
      × (lookup i.id s'.files ≡ some (record (with_facts i f) { status = status_active }))
unfolding update_file_metadata apply_status change_status rename put_file
refused_name_activates rune_count i f name now s stored waits asks all_there given bad =
    let g : FileMetadata = record (with_facts i f) { status = status_active } in
    let step : apply_status i f ≡ ok g = ground (
      arith,
      eq_iff f.status status_deleted,
      eq_iff f.status status_active,
      eq_iff f.status status_pending,
      eq_iff status_active status_active,
      statuses_differ,
    ) in
    (ground (arith, step), ground (arith, step, lookup-insert_self i.id g s.files))
