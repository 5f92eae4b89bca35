-- ===== src/Group/Uploads.antt =====
-- What `syncGroupBlob` promises: nobody's changes are overwritten unseen, and the stored blob can
-- be read.
use Prim.Native.String.{String}
use text.Mathlib.Text.{◌==◌ as str_eq}
use mathlib.Core.Option.{some-injective}
use coldfi.Prelude.{
  ap, sym, ◌∙◌, ℕ, ◌+◌, ◌≤◌, ◌==◌, ==_iff, ==_refl, ◌≡◌, ◌≢◌, ◌⊎◌, refl, true, false, some, List,
  [], ◌∷◌, find, is_some, if◌then◌else◌, arith, Bool-cases, Option-cases, inl, inr,
}
use coldfi.Database.{Result, ok}
use coldfi.Clock.{Clock, entry, detect_conflict, merge_clocks, tick}
use coldfi.Clock.Laws.{detect_conflict_iff, no_conflict-le, tick-merge_clocks}
use coldfi.Blob.{Aead, decrypt_group_blob}
use coldfi.Group.State.{Group, Sync, Db, Error, find_group, find_sync}
use coldfi.Group.Sync.{SyncResult, stored, clock_of, new_sync, upsert_sync, sync_group_blob}
use coldfi.Group.Readable.{AllReadable}

find-upsert_sync :
    (new : Sync) (rows : List Sync) (h : ℕ)
    → find (λ (r : Sync). r.group_id == h) (upsert_sync new rows)
      ≡ (if new.group_id == h then some new else find (λ (r : Sync). r.group_id == h) rows)
find-upsert_sync new [] h = ground arith
find-upsert_sync new (r ∷ rows) h = ground (arith, find-upsert_sync new rows h)

no_conflict-nil : (clock : Clock) → detect_conflict [] clock ≡ false
no_conflict-nil clock = elim (Bool-cases (detect_conflict [] clock)) [
  | inl clash ↦ let (user, behind) = (detect_conflict_iff [] clock).0 clash in absurd (omega arith)
  | inr fine ↦ fine
]

module _ (c : Aead) (now : ℕ) (group : ℕ) (blob : String) (clock : Clock) (user : ℕ) (db : Db) where
  -- the clock and the row that an accepted upload stores
  abbrev pub next_clock : Clock
  next_clock = tick user (merge_clocks (clock_of (find_sync group db)) clock)

  abbrev pub next_syncs : List Sync
  next_syncs = upsert_sync (new_sync now group blob next_clock user) db.syncs

  -- what an upload needs to be stored
  abbrev pub Accepted : Type 0
  Accepted =
      (str_eq blob "" ≡ false)
      × ((g : Group) × (find_group group db ≡ some g)
          × (is_some (decrypt_group_blob c g.encryption_key blob) ≡ true))
      × (detect_conflict (clock_of (find_sync group db)) clock ≡ false)

  -- `sync_group_blob` either stores the upload, or changes nothing and does not say so.
  pub sync_group_blob-effect :
      ((Accepted)
        × ((sync_group_blob c now group blob clock user db)
            ≡ (ok (stored next_clock now), record db { syncs = next_syncs })))
      ⊎ (((sync_group_blob c now group blob clock user db).1 ≡ db)
          × ((m : Clock) (t : ℕ)
              → (sync_group_blob c now group blob clock user db).0 ≢ ok (stored m t)))
  unfolding sync_group_blob
  sync_group_blob-effect = elim (Bool-cases (str_eq blob "")) [
    | inl empty ↦ inr (ground arith, λ m t. ground arith)
    | inr full ↦ elim (Option-cases (find_group group db)) [
      | inl e ↦ inr (ground arith, λ m t. ground arith)
      | inr (g, e) ↦ elim (Bool-cases (is_some (decrypt_group_blob c g.encryption_key blob))) [
        | inl opens ↦ elim (Option-cases (find_sync group db)) [
          | inl new ↦ inl ((full, (g, e, opens), rw new (no_conflict-nil clock)), ground arith)
          | inr (r, old) ↦ elim (Bool-cases (detect_conflict r.vector_clock clock)) [
            | inl clash ↦ inr (ground arith, λ m t. ground arith)
            | inr fine ↦ inl ((full, (g, e, opens), rw old fine), ground arith)
          ]
        ]
        | inr stale ↦ elim (Option-cases (find_sync group db)) [
          | inl new ↦ inr (ground arith, λ m t. ground arith)
          | inr (r, old) ↦ inr (ground arith, λ m t. ground arith)
        ]
      ]
    ]
  ]

  -- If an upload is reported as stored, then the client had seen all that the server has, entry by
  -- entry; the stored clock is the client's, with one more for the user; and the row of the group
  -- holds the uploaded blob with that clock.
  pub sync_group_blob-stored :
      (m : Clock) (t : ℕ)
      → (sync_group_blob c now group blob clock user db).0 ≡ ok (stored m t)
      → ((j : ℕ) → entry (clock_of (find_sync group db)) j ≤ entry clock j)
        × ((j : ℕ) → entry m j ≡ (if user == j then entry clock j + 1 else entry clock j))
        × (find_sync group (sync_group_blob c now group blob clock user db).1
            ≡ some (new_sync now group blob m user))
  sync_group_blob-stored m t h = elim sync_group_blob-effect [
    | inr (same, never) ↦ absurd (never m t h)
    | inl ((full, opens, fine), e) ↦
        let said : Path (Result Error SyncResult) (ok (stored next_clock now)) (ok (stored m t)) =
          sym (ap (λ (x : Result Error SyncResult × Db). x.0) e) ∙ h in
        let it : next_clock ≡ m = cc in
        (
          λ j. no_conflict-le (clock_of (find_sync group db)) clock j fine,
          λ j. rw (← it) (tick-merge_clocks (clock_of (find_sync group db)) clock user fine j),
          rw (e, ← it)
              (find-upsert_sync (new_sync now group blob next_clock user) db.syncs group
                ∙ rw (==_refl group) refl),
        )
  ]

  -- If every stored blob decrypts under its group's key and is not empty, then so it is after an
  -- upload, accepted or not.
  pub sync_group_blob-AllReadable :
      AllReadable c db → AllReadable c (sync_group_blob c now group blob clock user db).1
  sync_group_blob-AllReadable v h g r = elim sync_group_blob-effect [
    | inr (same, never) ↦ rw same (v h g r)
    | inl ((full, (k, ek, opens), fine), e) ↦ rw e λ fg fr.
        let fr' =
          sym (find-upsert_sync (new_sync now group blob next_clock user) db.syncs h) ∙ fr in
        elim (Bool-cases (group == h)) [
          | inr other ↦ v h g r fg (rw other at fr')
          | inl same ↦
              let mine = some-injective _ _ (rw same at fr') in
              let kr : r.encrypted_blob ≡ blob = sym (ap (λ (x : Sync). x.encrypted_blob) mine) in
              let here = ap (λ x. find_group x db) ((==_iff _ _).0 same) in
              let kg : k ≡ g = some-injective k g (sym ek ∙ here ∙ fg) in
              rw kr (full, rw (← kg) opens)
        ]
  ]
