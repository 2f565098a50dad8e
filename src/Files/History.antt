-- ===== src/Files/History.antt =====
-- packages/file-metadata/inmem.go: files over all sequences of calls.
use flametrench_go.Base.{
  ℕ, ◌≡◌, ◌⊎◌, refl, sym, subst, ◌∙◌, inl, inr, true, none, some, arith, if◌then◌else◌, Text, bytes,
  ◌==◌, lookup, eq_iff, eq_refl, lookup-insert, Option-cases, Bool-cases,
}
use flametrench_go.Base.Result.{ok}
use flametrench_go.Ids.{Uuids, generate}
use flametrench_go.Files.{
  FileMetadata, Store, empty, CreateFileMetadataInput, UpdateFileMetadataInput, status_active,
  status_deleted, has_facts, new_file, put_file, create_file_metadata, update_file_metadata,
  delete_file_metadata,
}
use flametrench_go.Files.Facts.{
  IsSound, IsAccepted, IsSettled, SameFacts, apply_status-IsSound, apply_status-IsSettled,
  update-effect, update_missing, create-effect, delete-effect, delete_missing, statuses_differ,
}

module _ (rune_count : Text → ℕ) where
  -- The calls that write.
  pub data Op : Type 0 where
    create : CreateFileMetadataInput → Uuids → ℕ → Op
    update : UpdateFileMetadataInput → ℕ → Op
    delete : Text → ℕ → Op

  unfoldable pub run : Op → Store → Store
  run (create i u now) s = (create_file_metadata rune_count i u now s).1
  run (update i now) s = (update_file_metadata rune_count i now s).1
  run (delete id now) s = (delete_file_metadata id now s).1

  -- A minted id is not in use, and an update brings a known status, or none.
  abbrev pub IsAllowed : Op → Store → Type 0
  IsAllowed (create i u now) s =
      (id : Text) → generate u (bytes "file") ≡ ok id → lookup id s.files ≡ none
  IsAllowed (update i now) s = IsAccepted i
  IsAllowed (delete id now) s = Unit {0}

  -- A sequence of calls.
  pub data Run : Store → Store → Type 0 where
    done : (s : Store) → Run s s
    next : (s mid s' : Store) (op : Op) → IsAllowed op s → mid ≡ run op s → Run mid s' → Run s s'

  -- What a call leaves of a file.
  abbrev Keeps : Op → Store → Text → Type 0
  Keeps op s id =
      (f : FileMetadata)
      → lookup id s.files ≡ some f
      → IsSettled f
      → (g : FileMetadata) × (lookup id (run op s).files ≡ some g) × IsSettled g × SameFacts f g

  update-Keeps :
      (i : UpdateFileMetadataInput) (now : ℕ) (s : Store) (id : Text)
      → IsAccepted i
      → Keeps (update i now) s id
  unfolding run
  update-Keeps i now s id known f stored settled = elim (Bool-cases (i.id == id)) [
    | inl here ↦
        let found : lookup i.id s.files ≡ some f = ground (arith, eq_iff i.id id) in
        elim (update-effect rune_count i now s f found) [
          | inl same ↦ (f, ground (arith, same), settled, (refl, refl, refl))
          | inr (g, h, made, status, facts, read) ↦
              let kept = apply_status-IsSettled i f g known made settled in
              (
                h,
                ground (arith, read id),
                subst (λ t. (t ≡ status_active) ⊎ (t ≡ status_deleted)) (sym status) kept.0,
                (facts.0 ∙ kept.1.0, facts.1 ∙ kept.1.1, facts.2 ∙ kept.1.2),
              )
        ]
    | inr other ↦ elim (Option-cases (lookup i.id s.files)) [
      | inl missing ↦ (
        f,
        ground (arith, update_missing rune_count i now s missing),
        settled,
        (refl, refl, refl),
      )
      | inr (x, found) ↦ elim (update-effect rune_count i now s x found) [
        | inl same ↦ (f, ground (arith, same), settled, (refl, refl, refl))
        | inr (g, h, made, status, facts, read) ↦
            (f, ground (arith, read id), settled, (refl, refl, refl))
      ]
    ]
  ]

  create-Keeps :
      (i : CreateFileMetadataInput) (u : Uuids) (now : ℕ) (s : Store) (id : Text)
      → IsAllowed (create i u now) s
      → Keeps (create i u now) s id
  unfolding run put_file
  create-Keeps i u now s id fresh f stored settled = elim (create-effect rune_count i u now s) [
    | inl same ↦ (f, ground (arith, same), settled, (refl, refl, refl))
    | inr (new, drawn, sound, made) ↦ (
      f,
      ground (
        arith,
        made,
        fresh new drawn,
        eq_iff new id,
        lookup-insert new id (new_file new i now) s.files,
      ),
      settled,
      (refl, refl, refl),
    )
  ]

  delete-Keeps : (gone : Text) (now : ℕ) (s : Store) (id : Text) → Keeps (delete gone now) s id
  unfolding run put_file
  delete-Keeps gone now s id f stored settled = elim (Option-cases (lookup gone s.files)) [
    | inl missing ↦
        (f, ground (arith, delete_missing gone now s missing), settled, (refl, refl, refl))
    | inr (x, found) ↦ elim (delete-effect gone now s x found) [
      | inl (same, already) ↦ (f, ground (arith, same), settled, (refl, refl, refl))
      | inr made ↦
          let x' : FileMetadata = record x { status = status_deleted; updated_at = now } in
          elim (Bool-cases (gone == id)) [
            | inl here ↦
                let same : x ≡ f = ground (arith, eq_iff gone id) in
                (
                  x',
                  ground (arith, made, lookup-insert gone id x' s.files),
                  inr refl,
                  subst (λ y. SameFacts y x') same (refl, refl, refl),
                )
            | inr other ↦ (
              f,
              ground (arith, made, lookup-insert gone id x' s.files),
              settled,
              (refl, refl, refl),
            )
          ]
    ]
  ]

  run-Keeps : (op : Op) (s : Store) (id : Text) → IsAllowed op s → Keeps op s id
  run-Keeps (create i u now) s id ok_ = create-Keeps i u now s id ok_
  run-Keeps (update i now) s id ok_ = update-Keeps i now s id ok_
  run-Keeps (delete gone now) s id ok_ = delete-Keeps gone now s id

  -- Whatever calls follow, with minted ids that are not in use and updates to known statuses only, a
  -- file that is active or deleted stays stored, stays one of the two, and keeps its size, its
  -- checksum and its storage reference.
  pub facts_are_final :
      (s s' : Store) (id : Text) (f : FileMetadata)
      → Run s s'
      → lookup id s.files ≡ some f
      → IsSettled f
      → (g : FileMetadata) × (lookup id s'.files ≡ some g) × IsSettled g × SameFacts f g
  facts_are_final s _ id f (done _) stored settled = (f, stored, settled, (refl, refl, refl))
  facts_are_final s s' id f (next _ mid _ op allowed made rest) stored settled =
      let (g, kept, still, facts) = run-Keeps op s id allowed f stored settled in
      let there : lookup id mid.files ≡ some g = rw made kept in
      let (h, last, end_, facts') = facts_are_final mid s' id g rest there still in
      (h, last, end_, (facts'.0 ∙ facts.0, facts'.1 ∙ facts.1, facts'.2 ∙ facts.2))

  -- Every stored file is sound.
  abbrev AllSound : Store → Type 0
  AllSound s = (id : Text) (f : FileMetadata) → lookup id s.files ≡ some f → IsSound f

  -- One write of a sound file.
  written-AllSound :
      (s s' : Store) (at : Text) (h : FileMetadata)
      → AllSound s
      → IsSound h
      → ((j : Text) → lookup j s'.files ≡ (if at == j then some h else lookup j s.files))
      → AllSound s'
  written-AllSound s s' at h all good read id f stored = elim (Bool-cases (at == id)) [
    | inl here ↦ let same : h ≡ f = ground (arith, read id) in subst (λ x. IsSound x) same good
    | inr other ↦ all id f (ground (arith, read id))
  ]

  run-AllSound : (op : Op) (s : Store) → IsAllowed op s → AllSound s → AllSound (run op s)
  unfolding run put_file
  run-AllSound (create i u now) s fresh all = elim (create-effect rune_count i u now s) [
    | inl same ↦ subst AllSound (sym same) all
    | inr (new, drawn, sound, made) ↦
        written-AllSound s (create_file_metadata rune_count i u now s).1 new (new_file new i now)
          all sound (λ j. ground (arith, made, lookup-insert new j (new_file new i now) s.files))
  ]
  run-AllSound (update i now) s known all = elim (Option-cases (lookup i.id s.files)) [
    | inl missing ↦ subst AllSound (sym (update_missing rune_count i now s missing)) all
    | inr (x, found) ↦ elim (update-effect rune_count i now s x found) [
      | inl same ↦ subst AllSound (sym same) all
      | inr (g, h, made, status, facts, read) ↦
          let good = apply_status-IsSound i x g known made (all i.id x found) in
          written-AllSound s (update_file_metadata rune_count i now s).1 i.id h all
            (record {
              known = ground (arith, status, good.known);
              facts = λ e. ground (arith, status, facts, good.facts);
            })
            read
    ]
  ]
  run-AllSound (delete gone now) s free all = elim (Option-cases (lookup gone s.files)) [
    | inl missing ↦ subst AllSound (sym (delete_missing gone now s missing)) all
    | inr (x, found) ↦ elim (delete-effect gone now s x found) [
      | inl (same, already) ↦ subst AllSound (sym same) all
      | inr made ↦
          let x' : FileMetadata = record x { status = status_deleted; updated_at = now } in
          written-AllSound s (delete_file_metadata gone now s).1 gone x' all (deleted-IsSound x now)
            (λ j. ground (arith, made, lookup-insert gone j x' s.files))
    ]
  ]
    where
      deleted-IsSound :
          (x : FileMetadata) (now : ℕ)
          → IsSound (record x { status = status_deleted; updated_at = now })
      deleted-IsSound x now = record {
        known = ground (arith, eq_refl status_deleted);
        facts = λ e. absurd (ground (arith, e, statuses_differ));
      }

  history-AllSound : (s s' : Store) → Run s s' → AllSound s → AllSound s'
  history-AllSound s _ (done _) all = all
  history-AllSound s s' (next _ mid _ op allowed made rest) all =
      history-AllSound mid s' rest (subst AllSound (sym made) (run-AllSound op s allowed all))

  -- From the empty store, after any calls with minted ids that are not in use and updates to known
  -- statuses only: an active file has a size that is not negative, a valid checksum and a storage
  -- reference that is not empty.
  pub active_files_have_facts :
      (s : Store) (id : Text) (f : FileMetadata)
      → Run empty s
      → lookup id s.files ≡ some f
      → f.status ≡ status_active
      → has_facts f.size_bytes f.checksum f.storage_ref ≡ true
  active_files_have_facts s id f r stored live =
      (history-AllSound empty s r none_stored id f stored).facts live
    where
      none_stored : AllSound empty
      none_stored id f e = absurd (unfold lookup in (ground arith))
