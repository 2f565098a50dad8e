-- ===== src/Files.antt =====
-- packages/file-metadata: the metadata of files (types.go, store.go, errors.go, inmem.go). A status is
-- a string, so an update may bring any; utf8.RuneCountInString is a parameter.
pub mod Facts
pub mod History
pub mod Faults
mod Tests
use flametrench_go.Base.{
  ℕ, suc, Bool, true, false, not, ◌&&◌, ◌||◌, Option, none, some, List, [], ◌∷◌, ltb, if◌then◌else◌,
  present, Text, bytes, ◌==◌, Map, lookup, insert, select, before, ℤ, pos, negsuc,
}
use flametrench_go.Base.Result.{Result, ok, err}
use flametrench_go.Base.Action.{Action, ◌>>=◌, ◌>>◌, pure, lift, gets, or_raise, raise_if, modify}
use flametrench_go.Ids.{IdError, Uuids, generate, is_valid}
use flametrench_go.Paging.{Page, page_limit, sort_slice, first_page, after_cursor}
use flametrench_go.Patterns.{is_checksum_value}

-- Status
unfoldable pub status_pending : Text
status_pending = bytes "pending"

unfoldable pub status_active : Text
status_active = bytes "active"

unfoldable pub status_deleted : Text
status_deleted = bytes "deleted"

pub record Checksum : Type 0 where
  pub algo : Text
  pub value : Text

pub record FileMetadata : Type 0 where
  pub id : Text
  pub scope : Text
  pub owner_usr_id : Text
  pub name : Text
  pub content_type : Text
  pub size_bytes : Option ℤ
  pub checksum : Option Checksum
  pub storage_ref : Option Text
  pub status : Text
  pub created_at : ℕ
  pub updated_at : ℕ

pub data Error : Type 0 where
  not_found invalid_format precondition : Error
  id_error : IdError → Error

pub record Store : Type 0 where
  pub files : Map FileMetadata

-- NewInMemoryFileMetadataStore
abbrev pub empty : Store
empty = record { files = [] }

abbrev pub Method : Type 0 → Type 0
Method A = Action Store Error A

pub record CreateFileMetadataInput : Type 0 where
  pub scope : Text
  pub owner_usr_id : Text
  pub name : Text
  pub content_type : Text
  pub size_bytes : Option ℤ
  pub checksum : Option Checksum
  pub storage_ref : Option Text
  pub status : Text

pub record UpdateFileMetadataInput : Type 0 where
  pub id : Text
  pub name : Option Text
  pub status : Option Text
  pub size_bytes : Option ℤ
  pub checksum : Option Checksum
  pub storage_ref : Option Text

pub record ListFileMetadataOptions : Type 0 where
  pub scope : Text
  pub owner_usr_id : Option Text
  pub status : Option Text
  pub content_type : Option Text
  pub cursor : Option Text
  pub limit : ℕ

-- validateChecksum returns nil
unfoldable pub validate_checksum : Checksum → Bool
validate_checksum c = c.algo == bytes "sha-256" && is_checksum_value c.value

abbrev pub has_size : Option ℤ → Bool
has_size none = false
has_size (some (pos n)) = true
has_size (some (negsuc n)) = false

abbrev pub has_checksum : Option Checksum → Bool
has_checksum none = false
has_checksum (some c) = validate_checksum c

abbrev pub has_ref : Option Text → Bool
has_ref none = false
has_ref (some t) = not (t == [])

-- The three tests on the byte facts that an active file needs.
unfoldable pub has_facts : Option ℤ → Option Checksum → Option Text → Bool
has_facts size checksum ref = has_size size && (has_checksum checksum && has_ref ref)

unfoldable pub new_file : Text → CreateFileMetadataInput → ℕ → FileMetadata
new_file id i now = record {
  id = id;
  scope = i.scope;
  owner_usr_id = i.owner_usr_id;
  name = i.name;
  content_type = i.content_type;
  size_bytes = i.size_bytes;
  checksum = i.checksum;
  storage_ref = i.storage_ref;
  status = i.status;
  created_at = now;
  updated_at = now;
}

abbrev from_ids : Result IdError Text → Result Error Text
from_ids (ok id) = ok id
from_ids (err e) = err (id_error e)

-- s.files[id] = f, or a write through the pointer that s.files[id] is.
unfoldable pub put_file : Text → FileMetadata → Store → Store
put_file id f s = record s { files = insert id f s.files }

unfoldable pub get_file_metadata : Text → Method FileMetadata
get_file_metadata id = do or_raise (← gets (λ s. lookup id s.files)) not_found

abbrev fits : Option Text → Text → Bool
fits none t = true
fits (some want) t = t == want

-- The tests of the loop of ListFileMetadata.
unfoldable pub matching : ListFileMetadataOptions → FileMetadata → Bool
matching o f =
    f.scope == o.scope
    && (fits o.owner_usr_id f.owner_usr_id
        && (fits o.status f.status && fits o.content_type f.content_type))

unfoldable pub list_file_metadata : ListFileMetadataOptions → Method (Page FileMetadata)
unfolding matching select sort_slice after_cursor first_page page_limit
list_file_metadata o = gets (λ s.
    first_page (λ f. f.id) (page_limit o.limit)
      (after_cursor (λ f. f.id) o.cursor
        (sort_slice (λ (f g : FileMetadata). before f.id g.id) (select (matching o) s.files))))

-- The first half of UpdateFileMetadata: what it makes of the status and the byte facts.
unfoldable pub with_facts : UpdateFileMetadataInput → FileMetadata → FileMetadata
with_facts i f = record f {
  size_bytes = i.size_bytes;
  checksum = i.checksum;
  storage_ref = i.storage_ref;
}

unfoldable pub change_status :
    UpdateFileMetadataInput → Text → FileMetadata → Result Error FileMetadata
unfolding with_facts
change_status i to f =
    if f.status == status_deleted || (f.status == status_active && to == status_pending)
    then err precondition
    else if f.status == status_pending && to == status_active
    then if has_facts i.size_bytes i.checksum i.storage_ref
      then ok (record (with_facts i f) { status = to })
      else err invalid_format
    else ok (record f { status = to })

unfoldable pub keep_status : UpdateFileMetadataInput → FileMetadata → Result Error FileMetadata
keep_status i f =
    if f.status == status_active
      && (present i.size_bytes || (present i.checksum || present i.storage_ref))
    then err precondition
    else ok f

unfoldable pub apply_status : UpdateFileMetadataInput → FileMetadata → Result Error FileMetadata
unfolding change_status keep_status
apply_status i f = elim i.status [ none ↦ keep_status i f | some to ↦ change_status i to f ]

unfoldable pub delete_file_metadata : Text → ℕ → Method (Unit {0})
delete_file_metadata id now = do
  f ← or_raise (← gets (λ s. lookup id s.files)) not_found
  modify (λ s.
      if f.status == status_deleted
      then s
      else put_file id (record f { status = status_deleted; updated_at = now }) s)

module _ (rune_count : Text → ℕ) where
  abbrev pub is_name : Text → Bool
  is_name t = not (ltb (rune_count t) 1 || ltb 255 (rune_count t))

  unfoldable pub create_file_metadata : CreateFileMetadataInput → Uuids → ℕ → Method FileMetadata
  create_file_metadata i u now = do
    raise_if (not (is_valid i.scope (bytes "org" ∷ []))) invalid_format
    raise_if (not (is_valid i.owner_usr_id (bytes "usr" ∷ []))) invalid_format
    raise_if (not (is_name i.name)) invalid_format
    raise_if (i.content_type == []) invalid_format
    raise_if (not (i.status == status_pending || i.status == status_active)) invalid_format
    raise_if (i.status == status_active && not (has_facts i.size_bytes i.checksum i.storage_ref))
        invalid_format
    id ← lift (from_ids (generate u (bytes "file")))
    modify (put_file id (new_file id i now))
    pure (new_file id i now)

  -- The second half: the new name, if there is one.
  unfoldable pub rename : Option Text → FileMetadata → Result Error FileMetadata
  rename none f = ok f
  rename (some t) f = if is_name t then ok (record f { name = t }) else err invalid_format

  unfoldable pub update_file_metadata : UpdateFileMetadataInput → ℕ → Method FileMetadata
  unfolding apply_status rename
  update_file_metadata i now = do
    f ← or_raise (← gets (λ s. lookup i.id s.files)) not_found
    g ← lift (apply_status i f)
    modify (put_file i.id g)
    k ← lift (rename i.name g)
    let done : FileMetadata = record k { updated_at = now }
    modify (put_file i.id done)
    pure done
