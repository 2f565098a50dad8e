-- ===== src/Files/Facts.antt =====
-- packages/file-metadata/inmem.go: the byte facts of a file over its life.
use flametrench_go.Base.{
  ℕ, ◌≡◌, ◌≢◌, ◌⊎◌, refl, sym, subst, inl, inr, Bool, true, not, ◌&&◌, ◌||◌, Option, none, some, [],
  ◌∷◌, arith, if◌then◌else◌, Text, bytes, ◌==◌, lookup, insert, eq_iff, lookup-insert, Option-cases,
  Bool-cases,
}
use flametrench_go.Base.Result.{ok, Result-cases}
use flametrench_go.Ids.{Uuids, generate, is_valid}
use flametrench_go.Files.{
  FileMetadata, Store, CreateFileMetadataInput, UpdateFileMetadataInput, status_pending,
  status_active, status_deleted, has_facts, is_name, new_file, put_file, with_facts, change_status,
  keep_status, apply_status, rename, create_file_metadata, update_file_metadata,
  delete_file_metadata,
}

-- One of the three statuses.
abbrev pub is_known : Text → Bool
is_known t = t == status_pending || (t == status_active || t == status_deleted)

-- A file has a known status, and the byte facts if it is active.
pub record IsSound (f : FileMetadata) : Type 0 where
  pub known : is_known f.status ≡ true
  pub facts : f.status ≡ status_active → has_facts f.size_bytes f.checksum f.storage_ref ≡ true

-- The byte facts of two files agree.
abbrev pub SameFacts : FileMetadata → FileMetadata → Type 0
SameFacts f g =
    (g.size_bytes ≡ f.size_bytes) × (g.checksum ≡ f.checksum) × (g.storage_ref ≡ f.storage_ref)

-- A file is settled once it is active or deleted.
abbrev pub IsSettled : FileMetadata → Type 0
IsSettled f = (f.status ≡ status_active) ⊎ (f.status ≡ status_deleted)

pub statuses_differ :
    (status_pending ≢ status_active)
    × (status_pending ≢ status_deleted)
    × (status_active ≢ status_deleted)
unfolding status_pending status_active status_deleted
statuses_differ = (λ e. ground (arith, e), λ e. ground (arith, e), λ e. ground (arith, e))

-- An update brings a known status, or none.
abbrev pub IsAccepted : UpdateFileMetadataInput → Type 0
IsAccepted i = (t : Text) → i.status ≡ some t → is_known t ≡ true

module _ (i : UpdateFileMetadataInput) (f g : FileMetadata) (known : IsAccepted i)
    (made : apply_status i f ≡ ok g) where
  pub apply_status-IsSound : IsSound f → IsSound g
  unfolding apply_status change_status keep_status with_facts
  apply_status-IsSound h = elim (Option-cases i.status) [
    | inl none_given ↦ let same : g ≡ f = ground arith in subst (λ x. IsSound x) (sym same) h
    | inr (to, given) ↦
        let fine = known to given in
        elim (Bool-cases (f.status == status_pending && to == status_active)) [
          | inl opens ↦
              let all_there : has_facts i.size_bytes i.checksum i.storage_ref ≡ true = ground (
                arith,
                eq_iff f.status status_pending,
                eq_iff f.status status_deleted,
                eq_iff to status_active,
                eq_iff to status_pending,
                statuses_differ,
              ) in
              let same : g ≡ record (with_facts i f) { status = to } = ground (
                arith,
                all_there,
                eq_iff f.status status_pending,
                eq_iff f.status status_deleted,
                statuses_differ,
              ) in
              subst (λ x. IsSound x) (sym same) (record { known = fine; facts = λ e. all_there })
          | inr moves ↦
              let same : g ≡ record f { status = to } = ground arith in
              subst (λ x. IsSound x) (sym same)
                (record {
                  known = fine;
                  facts = λ e. ground (
                    arith,
                    h.known,
                    h.facts,
                    eq_iff f.status status_pending,
                    eq_iff f.status status_active,
                    eq_iff f.status status_deleted,
                    eq_iff to status_active,
                  );
                })
        ]
  ]

  pub apply_status-IsSettled : IsSettled f → IsSettled g × SameFacts f g
  unfolding apply_status change_status keep_status
  apply_status-IsSettled (inl live) = elim (Option-cases i.status) [
    | inl none_given ↦ (inl (ground arith), (ground arith, ground arith, ground arith))
    | inr (to, given) ↦
        let fine = known to given in
        let same : g ≡ record f { status = to } = ground (
          arith,
          eq_iff f.status status_pending,
          eq_iff f.status status_active,
          eq_iff f.status status_deleted,
          statuses_differ,
        ) in
        elim (Bool-cases (to == status_active)) [
          | inl again ↦ (
            inl (ground (arith, same, eq_iff to status_active)),
            (ground (arith, same), ground (arith, same), ground (arith, same)),
          )
          | inr ends ↦ (
            inr (
                ground (
                  arith,
                  same,
                  fine,
                  eq_iff f.status status_active,
                  eq_iff to status_deleted,
                  eq_iff to status_pending,
                )),
            (ground (arith, same), ground (arith, same), ground (arith, same)),
          )
        ]
  ]
  apply_status-IsSettled (inr gone) = elim (Option-cases i.status) [
    | inl none_given ↦ (inr (ground arith), (ground arith, ground arith, ground arith))
    | inr (to, given) ↦ absurd (ground (arith, eq_iff f.status status_deleted))
  ]

module _ (rune_count : Text → ℕ) where
  -- What UpdateFileMetadata does to the files: nothing, or one write, with the status and the facts
  -- that the first half makes.
  pub update-effect :
      (i : UpdateFileMetadataInput) (now : ℕ) (s : Store) (f : FileMetadata)
      → lookup i.id s.files ≡ some f
      → ((update_file_metadata rune_count i now s).1 ≡ s)
        ⊎ ((g : FileMetadata) × (h : FileMetadata) × (apply_status i f ≡ ok g)
            × (h.status ≡ g.status)
            × SameFacts g h
            × ((j : Text)
                → lookup j (update_file_metadata rune_count i now s).1.files
                  ≡ (if i.id == j then some h else lookup j s.files)))
  unfolding update_file_metadata put_file
  update-effect i now s f stored = elim (Result-cases (apply_status i f)) [
    | inr (e, failed) ↦ inl (ground arith)
    | inl (g, made) ↦ elim (Result-cases (rename rune_count i.name g)) [
      | inr (e, failed) ↦ inr (
        g,
        g,
        made,
        refl,
        (refl, refl, refl),
        λ j. ground (arith, lookup-insert i.id j g s.files),
      )
      | inl (k, named) ↦
          let kept = rename_keeps i.name g k named in
          let done : FileMetadata = record k { updated_at = now } in
          inr (
            g,
            done,
            made,
            kept.0,
            kept.1,
            λ j. ground (
              arith,
              lookup-insert i.id j g s.files,
              lookup-insert i.id j done (insert i.id g s.files),
            ),
          )
    ]
  ]
    where
      rename_keeps :
          (name : Option Text) (g k : FileMetadata)
          → rename rune_count name g ≡ ok k
          → (k.status ≡ g.status) × SameFacts g k
      rename_keeps none g k e =
          unfold rename in (ground arith, (ground arith, ground arith, ground arith))
      rename_keeps (some t) g k e =
          unfold rename in (ground arith, (ground arith, ground arith, ground arith))

  pub update_missing :
      (i : UpdateFileMetadataInput) (now : ℕ) (s : Store)
      → lookup i.id s.files ≡ none
      → (update_file_metadata rune_count i now s).1 ≡ s
  unfolding update_file_metadata
  update_missing i now s missing = ground arith

  -- CreateFileMetadata changes nothing, or it adds a file under the new id.
  pub create-effect :
      (i : CreateFileMetadataInput) (u : Uuids) (now : ℕ) (s : Store)
      → ((create_file_metadata rune_count i u now s).1 ≡ s)
        ⊎ ((id : Text) × (generate u (bytes "file") ≡ ok id)
            × IsSound (new_file id i now)
            × ((create_file_metadata rune_count i u now s).1 ≡ put_file id (new_file id i now) s))
  unfolding create_file_metadata new_file
  create-effect i u now s =
      let tests =
        is_valid i.scope (bytes "org" ∷ [])
        && (is_valid i.owner_usr_id (bytes "usr" ∷ [])
            && (is_name rune_count i.name
                && (not (i.content_type == [])
                    && ((i.status == status_pending || i.status == status_active)
                        && not (
                            i.status == status_active
                            && not (has_facts i.size_bytes i.checksum i.storage_ref)))))) in
      elim (Bool-cases tests) [
        | inr bad ↦ inl (ground arith)
        | inl good ↦ elim (Result-cases (generate u (bytes "file"))) [
          | inr (e, failed) ↦ inl (ground arith)
          | inl (id, drawn) ↦ inr (
            id,
            drawn,
            record {
              known = ground arith;
              facts = λ e. ground (arith, eq_iff i.status status_active);
            },
            ground arith,
          )
        ]
      ]

pub delete-effect :
    (id : Text) (now : ℕ) (s : Store) (f : FileMetadata)
    → lookup id s.files ≡ some f
    → let f' : FileMetadata = record f { status = status_deleted; updated_at = now } in
      (((delete_file_metadata id now s).1 ≡ s) × (f.status ≡ status_deleted))
      ⊎ ((delete_file_metadata id now s).1 ≡ put_file id f' s)
unfolding delete_file_metadata
delete-effect id now s f stored = elim (Bool-cases (f.status == status_deleted)) [
  | inl gone ↦ inl (ground arith, (eq_iff f.status status_deleted).0 gone)
  | inr live ↦ inr (ground arith)
]

pub delete_missing :
    (id : Text) (now : ℕ) (s : Store)
    → lookup id s.files ≡ none
    → (delete_file_metadata id now s).1 ≡ s
unfolding delete_file_metadata
delete_missing id now s missing = ground arith
