-- ===== src/Files/Tests.antt =====
-- packages/file-metadata: the theorems at a small store.
use flametrench_go.Files.{delete_file_metadata}
use flametrench_go.Base.{insert}
use flametrench_go.Files.{put_file}
use flametrench_go.Patterns.{is_checksum_value}
use flametrench_go.Files.{validate_checksum}
use flametrench_go.Ids.{is_registered}
use flametrench_go.Ids.{decode}
use flametrench_go.Ids.{is_valid}
use flametrench_go.Files.{create_file_metadata}
use flametrench_go.Files.History.{run}
use flametrench_go.Base.{
  ◌≡◌, refl, inl, true, none, some, Option, [], ◌∷◌, length, Text, bytes, lookup, pos, ◌==◌,
}
use flametrench_go.Base.Result.{err}
use flametrench_go.Ids.{Uuids, generate}
use flametrench_go.Files.{
  FileMetadata, Store, Checksum, empty, CreateFileMetadataInput, UpdateFileMetadataInput,
  status_pending, status_active, status_deleted, has_facts, new_file, with_facts,
  update_file_metadata, invalid_format,
}
use flametrench_go.Files.Facts.{IsSettled, SameFacts}
use flametrench_go.Files.History.{
  create, delete, Run, done, next, facts_are_final, active_files_have_facts,
}
use flametrench_go.Files.Faults.{only_status, unknown_status_skips_facts, refused_name_activates}

abbrev draw : Uuids
draw = record { new_v7 = some (bytes "0190f2a8-1b3c-7abc-8123-456789abcdef"); parses = λ t. true }

abbrev file_id : Text
file_id = bytes "file_0190f2a81b3c7abc8123456789abcdef"

abbrev sum : Checksum
sum = record {
  algo = bytes "sha-256";
  value = bytes "e3b0c44298fc1c149afbf4c8996fb92427ae41e4649b934ca495991b7852b855";
}

abbrev input : Text → Option Checksum → CreateFileMetadataInput
input status checksum = record {
  scope = bytes "org_0190f2a81b3c7abc8123456789abcdef";
  owner_usr_id = bytes "usr_0190f2a81b3c7abc8123456789abcdef";
  name = bytes "a.txt";
  content_type = bytes "text/plain";
  size_bytes = some (pos 0);
  checksum = checksum;
  storage_ref = some (bytes "s3://b/a");
  status = status;
}

abbrev active_file : FileMetadata
active_file = new_file file_id (input status_active (some sum)) 5

abbrev stored : Store
stored = record { files = (file_id, active_file) ∷ [] }

created : Run length empty stored
unfolding new_file lookup run create_file_metadata is_valid decode is_registered ◌==◌ status_active
    status_pending has_facts validate_checksum is_checksum_value generate put_file insert
created =
    next empty stored stored (create (input status_active (some sum)) draw 5) (λ id e. refl) refl
      (done stored)

active_files_have_facts_example :
    has_facts (some (pos 0)) (some sum) (some (bytes "s3://b/a")) ≡ true
unfolding new_file lookup ◌==◌
active_files_have_facts_example =
    active_files_have_facts length stored file_id active_file created refl refl

-- The file is deleted.
abbrev deleted_file : FileMetadata
deleted_file = record active_file { status = status_deleted; updated_at = 9 }

abbrev after : Store
after = record { files = (file_id, deleted_file) ∷ [] }

deleted : Run length stored after
unfolding new_file lookup run delete_file_metadata ◌==◌ status_active status_deleted put_file insert
deleted = next stored after after (delete file_id 9) tt refl (done after)

facts_are_final_example :
    (g : FileMetadata) × (lookup file_id after.files ≡ some g)
    × IsSettled g
    × SameFacts active_file g
unfolding new_file lookup ◌==◌
facts_are_final_example =
    facts_are_final length stored after file_id active_file deleted refl (inl refl)

abbrev pending_file : FileMetadata
pending_file = new_file file_id (input status_pending none) 5

abbrev waiting : Store
waiting = record { files = (file_id, pending_file) ∷ [] }

unknown_status_skips_facts_example :
    let s' = (update_file_metadata length (only_status file_id (bytes "archived")) 6 waiting).1 in
    let s'' = (update_file_metadata length (only_status file_id status_active) 7 s').1 in
    lookup file_id s''.files ≡ some (record pending_file { status = status_active; updated_at = 7 })
unfolding new_file lookup ◌==◌ status_pending status_active status_deleted
unknown_status_skips_facts_example =
    unknown_status_skips_facts length file_id (bytes "archived") pending_file 6 7 waiting refl refl
      refl

abbrev activation : UpdateFileMetadataInput
activation = record {
  id = file_id;
  name = some [];
  status = some status_active;
  size_bytes = some (pos 3);
  checksum = some sum;
  storage_ref = some (bytes "s3://b/a");
}

refused_name_activates_example :
    let (r, s') = update_file_metadata length activation 8 waiting in
    (r ≡ err invalid_format)
    × (lookup file_id s'.files
        ≡ some (record (with_facts activation pending_file) { status = status_active }))
unfolding new_file lookup ◌==◌ has_facts validate_checksum is_checksum_value
refused_name_activates_example =
    refused_name_activates length activation pending_file [] 8 waiting refl refl refl refl refl refl
