-- ===== src/Publications/Artifacts.antt =====
-- What a publication holds besides its row: the references to encrypted documents
-- (`release_terminal_document_artifact_references` of apps/publications/document_artifacts.py), the pinned
-- contents (`pin_source` of apps/file_library/publication.py) and the key grants
-- (`revoke_publication_dataset_key_grants` of apps/publications/manifests.py).
use fire_dash_server.Prelude.{
  ℕ, ◌==◌, Bool, not, ◌&&◌, some, if◌then◌else◌, ◌>>=◌, ◌>>◌, List, ◌++◌, map, length, pure,
  raise_if, gets, modify, when, any, select, update,
}
use fire_dash_server.Tablets.Models.{KeyGrant, GrantStatus, is_live}
use fire_dash_server.Tablets.Store.{Db}
use fire_dash_server.Publications.Models.{
  DatasetType, Publication, DocumentArtifact, ArtifactReference, is_terminal,
}
use fire_dash_server.Publications.Registry.{is_file_dataset}
use fire_dash_server.Publications.Store.{PublicationDb, Lifecycle, PublicationError, Builders}

-- The documents that only this publication refers to.
abbrev pub is_unreachable : ℕ → List ArtifactReference → DocumentArtifact → Bool
is_unreachable pk references d =
    any (λ r. r.publication_id == pk && r.document_artifact_id == d.id) references
    && not (any (λ r. not (r.publication_id == pk) && r.document_artifact_id == d.id) references)

abbrev pub release_references : ℕ → PublicationDb → PublicationDb
release_references pk db = record db {
  document_artifacts = select (λ d. not (is_unreachable pk db.references d)) db.document_artifacts;
  removals =
      map (λ (d : DocumentArtifact). d.artifact_path)
        (select (is_unreachable pk db.references) db.document_artifacts)
      ++ db.removals;
  references = select (λ r. not (r.publication_id == pk)) db.references;
}

-- The number of files that are to be removed.
unfoldable pub release_terminal_document_artifact_references :
    DatasetType → Publication → Lifecycle ℕ
release_terminal_document_artifact_references dataset p = do
  raise_if (not (is_terminal p.status)) PublicationError.value_error
  when (is_file_dataset dataset) (
      modify
        λ db. record db { contents = select (λ c. not (c.publication_id == p.id)) db.contents })
  queued ← gets λ db. length (select (is_unreachable p.id db.references) db.document_artifacts)
  modify (release_references p.id)
  pure queued

-- The contents that a snapshot names, which the library still holds.
unfoldable pub pin_source : Builders → ℕ → ℕ → Lifecycle (Unit {0})
pin_source b pk snapshot = modify λ db. record db {
  contents =
      map (λ content_id. record { publication_id = pk; content_id = content_id })
        (b.snapshot_contents snapshot)
      ++ db.contents;
}

abbrev revoked : ℕ → KeyGrant → KeyGrant
revoked now g = record g { status = GrantStatus.revoked; revoked_at = some now }

abbrev pub revoke_live : ℕ → ℕ → List KeyGrant → List KeyGrant
revoke_live now pk = update (λ g. g.publication_id == pk && is_live g.status) (revoked now)

-- The grants of the publication are revoked: those of a file library's documents are not touched.
abbrev pub revoke_grants_of : ℕ → DatasetType → ℕ → Db → Db
revoke_grants_of now dataset pk base = record base {
  document_grants =
      if is_file_dataset dataset
      then base.document_grants
      else revoke_live now pk base.document_grants;
  dataset_grants = revoke_live now pk base.dataset_grants;
}

-- The count that it returns has no reader.
unfoldable pub revoke_publication_dataset_key_grants : ℕ → DatasetType → ℕ → Lifecycle (Unit {0})
revoke_publication_dataset_key_grants now dataset pk =
    modify λ db. record db { base = revoke_grants_of now dataset pk db.base }
