-- ===== src/Tablets/Lifecycle/Grants.antt =====
-- The key grants and manifests that a withdrawal of installations cuts.
use fire_dash_server.Prelude.{
  ℕ, ◌≤◌, ◌≡◌, List, [], ◌∷◌, arith, ◌==◌, Bool, true, false, not, ◌&&◌, count, any, update, some,
}
use fire_dash_server.Prelude.TableLaws.{count-update_to, count_never, count_same}
use fire_dash_server.Tablets.Models.{
  AppInstallation, KeyGrant, GrantStatus, SignedManifest, ManifestStatus, is_live,
}
use fire_dash_server.Tablets.Store.{Db}
use fire_dash_server.Tablets.Guards.{revoke_dataset_key_grants}
use fire_dash_server.Tablets.Lifecycle.{revoke_grants_of_all, withdraw_access}

-- A live grant to one of these installations.
abbrev pub is_live_for : List AppInstallation → KeyGrant → Bool
is_live_for is g = any (λ i. i.id == g.app_installation_id) is && is_live g.status

abbrev pub is_obsolete : ManifestStatus → Bool
is_obsolete ManifestStatus.obsolete = true
is_obsolete ManifestStatus.pending = false
is_obsolete ManifestStatus.running = false
is_obsolete ManifestStatus.ready = false
is_obsolete ManifestStatus.failed = false

-- A manifest of one of these installations that still stands.
abbrev pub is_standing_for : List AppInstallation → SignedManifest → Bool
is_standing_for is m = any (λ i. i.id == m.app_installation_id) is && not (is_obsolete m.status)

-- No live grant of either kind to these installations.
abbrev pub NoGrants : List AppInstallation → Db → Type 0
NoGrants is db =
    (count (is_live_for is) db.dataset_grants ≡ 0) × (count (is_live_for is) db.document_grants ≡ 0)

-- A live grant to an installation that `q` picks out, and to none of these installations.
abbrev left : (ℕ → Bool) → List AppInstallation → KeyGrant → Bool
left q is g =
    q g.app_installation_id && not (any (λ i. i.id == g.app_installation_id) is) && is_live g.status

module _ (now : ℕ) (q : ℕ → Bool) (i : AppInstallation) (is : List AppInstallation) where
  cut_one :
      (gs : List KeyGrant)
      → count (left q is) (
          update
            (λ g. g.app_installation_id == i.id && is_live g.status)
            (λ g. record g { status = GrantStatus.revoked; revoked_at = some now })
            gs)
        ≤ count (left q (i ∷ is)) gs
  cut_one =
      count-update_to (left q is) (left q (i ∷ is))
        (λ g. g.app_installation_id == i.id && is_live g.status) _ (λ g e m. ground arith)
        (λ g e m. ground arith)

module _ (now : ℕ) (q : ℕ → Bool) where
  dataset_left :
      (is : List AppInstallation) (db : Db)
      → count (left q []) (revoke_grants_of_all now is db).dataset_grants
        ≤ count (left q is) db.dataset_grants
  unfolding revoke_grants_of_all revoke_dataset_key_grants
  dataset_left [] db = omega arith
  dataset_left (i ∷ is) db = omega (
    arith,
    dataset_left is (revoke_dataset_key_grants now i.id db),
    cut_one now q i is db.dataset_grants,
  )

  document_left :
      (is : List AppInstallation) (db : Db)
      → count (left q []) (revoke_grants_of_all now is db).document_grants
        ≤ count (left q is) db.document_grants
  unfolding revoke_grants_of_all revoke_dataset_key_grants
  document_left [] db = omega arith
  document_left (i ∷ is) db = omega (
    arith,
    document_left is (revoke_dataset_key_grants now i.id db),
    cut_one now q i is db.document_grants,
  )

-- The state after the body of the loop of `deactivate_tablet`, for one installation.
abbrev withdrawn_one : ℕ → AppInstallation → Db → Db
withdrawn_one now i db = record db {
  manifests =
      update (λ m. m.app_installation_id == i.id)
        (λ m. record m { status = ManifestStatus.obsolete; completed_at = some now }) db.manifests;
}

abbrev standing : (ℕ → Bool) → List AppInstallation → SignedManifest → Bool
standing q is m =
    q m.app_installation_id
    && not (any (λ i. i.id == m.app_installation_id) is)
    && not (is_obsolete m.status)

module _ (now : ℕ) (q : ℕ → Bool) where
  withdrawn_dataset :
      (is : List AppInstallation) (db : Db)
      → count (left q []) (withdraw_access now is db).dataset_grants
        ≤ count (left q is) db.dataset_grants
  unfolding withdraw_access revoke_dataset_key_grants
  withdrawn_dataset [] db = omega arith
  withdrawn_dataset (i ∷ is) db = omega (
    arith,
    withdrawn_dataset is (withdrawn_one now i (revoke_dataset_key_grants now i.id db)),
    cut_one now q i is db.dataset_grants,
  )

  withdrawn_document :
      (is : List AppInstallation) (db : Db)
      → count (left q []) (withdraw_access now is db).document_grants
        ≤ count (left q is) db.document_grants
  unfolding withdraw_access revoke_dataset_key_grants
  withdrawn_document [] db = omega arith
  withdrawn_document (i ∷ is) db = omega (
    arith,
    withdrawn_document is (withdrawn_one now i (revoke_dataset_key_grants now i.id db)),
    cut_one now q i is db.document_grants,
  )

  obsolete_one :
      (i : AppInstallation) (is : List AppInstallation) (ms : List SignedManifest)
      → count (standing q is) (
          update
            (λ m. m.app_installation_id == i.id)
            (λ m. record m { status = ManifestStatus.obsolete; completed_at = some now })
            ms)
        ≤ count (standing q (i ∷ is)) ms
  obsolete_one i is =
      count-update_to (standing q is) (standing q (i ∷ is)) (λ m. m.app_installation_id == i.id) _
        (λ m e k. ground arith) (λ m e k. ground arith)

  withdrawn_manifests :
      (is : List AppInstallation) (db : Db)
      → count (standing q []) (withdraw_access now is db).manifests
        ≤ count (standing q is) db.manifests
  unfolding withdraw_access revoke_dataset_key_grants
  withdrawn_manifests [] db = omega arith
  withdrawn_manifests (i ∷ is) db = omega (
    arith,
    withdrawn_manifests is (withdrawn_one now i (revoke_dataset_key_grants now i.id db)),
    obsolete_one i is db.manifests,
  )

nothing_left :
    (is : List AppInstallation) (gs hs : List KeyGrant)
    → count (left (λ k. any (λ i. i.id == k) is) []) hs
      ≤ count (left (λ k. any (λ i. i.id == k) is) is) gs
    → count (is_live_for is) hs ≡ 0
nothing_left is gs hs h = omega (
  arith,
  h,
  count_never (left (λ k. any (λ i. i.id == k) is) is) (λ g. ground arith) gs,
  count_same (is_live_for is) (left (λ k. any (λ i. i.id == k) is) []) (λ g. ground arith) hs,
)

pub revoke_grants_of_all-NoGrants :
    (now : ℕ) (is : List AppInstallation) (db : Db) → NoGrants is (revoke_grants_of_all now is db)
revoke_grants_of_all-NoGrants now is db = (
  nothing_left is db.dataset_grants _ (dataset_left now (λ k. any (λ i. i.id == k) is) is db),
  nothing_left is db.document_grants _ (document_left now (λ k. any (λ i. i.id == k) is) is db),
)

pub withdraw_access-NoGrants :
    (now : ℕ) (is : List AppInstallation) (db : Db)
    → NoGrants is (withdraw_access now is db)
      × (count (is_standing_for is) (withdraw_access now is db).manifests ≡ 0)
withdraw_access-NoGrants now is db = (
  (
    nothing_left is db.dataset_grants _
        (withdrawn_dataset now (λ k. any (λ i. i.id == k) is) is db),
    nothing_left is db.document_grants _
        (withdrawn_document now (λ k. any (λ i. i.id == k) is) is db),
  ),
  omega (
    arith,
    withdrawn_manifests now (λ k. any (λ i. i.id == k) is) is db,
    count_never (standing (λ k. any (λ i. i.id == k) is) is) (λ g. ground arith) db.manifests,
    count_same (is_standing_for is) (standing (λ k. any (λ i. i.id == k) is) []) (λ g. ground arith)
        (withdraw_access now is db).manifests,
  ),
)
