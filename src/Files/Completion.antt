-- ===== src/Files/Completion.antt =====
-- The two ways a call of `completeUpload` of src/files/files.service.ts ends.
use e_commerce_order_platfor.Common.{
  ◌≡◌, refl, true, ◌||◌, none, ok, err, Exception, inl, inr, ◌⊎◌, Result-cases, ap, ◌∙◌,
}
use e_commerce_order_platfor.Database.{Uuid, Session, FileRecord}
use e_commerce_order_platfor.Auth.{AuthUser, is_staff}
use e_commerce_order_platfor.Files.{Env, FileView, is_own, to_public_view}
use e_commerce_order_platfor.Files.Complete.{complete_in_tx, complete_upload}
use e_commerce_order_platfor.Files.Uploads.{IsComplete, complete_in_tx_lem}

pub committed :
    (env : Env) (u : AuthUser) (i : Uuid) (s : Session) (v : FileView)
    → (complete_in_tx env u i s.db).0 ≡ ok v
    → complete_upload env u i s
      ≡ (ok v, record s { db = (complete_in_tx env u i s.db).1; tx = none })
unfolding complete_upload
committed env u i s v h = rw h refl

rolled_back :
    (env : Env) (u : AuthUser) (i : Uuid) (s : Session) (e : Exception)
    → (complete_in_tx env u i s.db).0 ≡ err e
    → complete_upload env u i s ≡ (err e, record s { tx = none })
unfolding complete_upload
rolled_back env u i s e h = rw h refl

-- A call that completes an upload either fails, and what is committed stays as it was; or the file with the
-- id is complete in what is committed (it is ready, and the avatar of its user or the images of its product
-- refer to it), the caller is staff or the file's user, the answer is the file's view, and the same call
-- made later, with any clock and any new ids, gives the same answer and changes nothing.
pub complete_upload_outcome :
    (env env' : Env) (u : AuthUser) (i : Uuid) (s : Session)
    → env'.s3 ≡ env.s3
    → ((e : Exception) × (complete_upload env u i s ≡ (err e, record s { tx = none })))
      ⊎ ((v : FileView) × (f : FileRecord) × (s' : Session) × (complete_upload env u i s
            ≡ (ok v, s'))
          × (f.id ≡ i)
          × ((is_staff u.roles || is_own u f) ≡ true)
          × IsComplete f s'.db
          × (v ≡ to_public_view env.s3 f)
          × (complete_upload env' u i s' ≡ (ok v, s')))
complete_upload_outcome env env' u i s s3 = elim (Result-cases (complete_in_tx env u i s.db).0) [
  | inr (e, failed) ↦ inl (e, rolled_back env u i s e failed)
  | inl (v, done) ↦
      let d' = (complete_in_tx env u i s.db).1 in
      let run : complete_in_tx env u i s.db ≡ (ok v, d') = ap (λ r. (r, d')) done in
      let (f, id, allowed, complete, viewed, again) =
        complete_in_tx_lem env env' u i s.db d' v s3 run in
      let s' = record s { db = d'; tx = none } in
      let second = committed env' u i s' v (ap (λ (r, d). r) again) in
      inr (
        v,
        f,
        s',
        committed env u i s v done,
        id,
        allowed,
        complete,
        viewed,
        second ∙ ap (λ (r, d). (ok v, record s { db = d; tx = none })) again,
      )
]
