-- ===== src/Files/Uploads.antt =====
-- What a complete upload leaves behind (src/files/files.service.ts).
use e_commerce_order_platfor.Common.{
  ◌≡◌, ◌≢◌, ==_iff, refl, sym, subst, ◌∙◌, Bool, true, false, ◌||◌, none, some, ok, find, any,
  arith, inl, inr, Bool-cases, Option-cases, Result-cases, ⊤, any-eq-is_some-find,
  find-update_where, any-update_where, any-find, find-set, bind-eq-ok, pure, find_holds,
  any-append_new, update_where_twice, [], ◌∷◌, ◌++◌, update_where, length, select,
}
use e_commerce_order_platfor.Database.{
  Uuid, Database, FileRecord, EFileStatus, EFileOwnerType, User,
}
use e_commerce_order_platfor.Auth.{AuthUser, is_staff}
use e_commerce_order_platfor.Files.{
  Env, FileView, has_id, is_own, is_user, is_product, to_public_view, on_files,
}
use e_commerce_order_platfor.Files.S3.{object_exists}
use e_commerce_order_platfor.Files.Complete.{
  complete_in_tx, links, as_ready, bind_file_to_domain, bind_by_owner, bound_view,
  complete_by_status, with_avatar, image_of, new_image, bind_user_avatar, bind_product_image,
}

-- The place of the domain where a file belongs refers to it.
pub IsBoundTo : FileRecord → EFileOwnerType → Database → Type 0
IsBoundTo f EFileOwnerType.user d =
    (v : User) × (find (is_user f.owner_id) d.users ≡ some v) × (v.avatar_file_id ≡ some f.id)
IsBoundTo f EFileOwnerType.product d = any (links f.owner_id f.id) d.product_images ≡ true
IsBoundTo f EFileOwnerType.order d = ⊤
IsBoundTo f EFileOwnerType.payment d = ⊤

abbrev pub IsBound : FileRecord → Database → Type 0
IsBound f d = IsBoundTo f f.owner_type d

abbrev pub is_active : EFileStatus → Bool
is_active EFileStatus.pending = true
is_active EFileStatus.ready = true
is_active EFileStatus.failed = false

bind_user_avatar_lem :
    (f : FileRecord) (d d' : Database)
    → bind_user_avatar f d ≡ (ok tt, d')
    → (v : User) × (find (is_user f.owner_id) d'.users ≡ some v)
      × (v.avatar_file_id ≡ some f.id)
      × (d'.files ≡ d.files)
      × (bind_user_avatar f d' ≡ (ok tt, d'))
bind_user_avatar_lem f d d' h = elim (Option-cases (find (is_user f.owner_id) d.users)) [
  | inl none_found ↦ absurd (ground (arith, any-eq-is_some-find (is_user f.owner_id) d.users))
  | inr (v, e) ↦
      let p = is_user f.owner_id in
      let g = with_avatar f.id in
      let found = find-update_where p p g (λ x. refl) d.users in
      let hit = any-find p d.users v e in
      let written : d' ≡ record d { users = update_where p g d.users } = ground arith in
      let again = update_where_twice p g (λ x. refl) (λ x. refl) d.users in
      let still = any-update_where p p g (λ x. refl) d.users in
      let own = find_holds p d.users v e in
      rw (written, found, still, again, hit, e, own) (g v, refl, refl, refl, refl)
]

bind_product_image_lem :
    (env : Env) (f : FileRecord) (d d' : Database)
    → bind_product_image env f d ≡ (ok tt, d')
    → (any (links f.owner_id f.id) d'.product_images ≡ true)
      × (d'.files ≡ d.files)
      × ((env' : Env) → bind_product_image env' f d' ≡ (ok tt, d'))
bind_product_image_lem env f d d' h =
    elim (Option-cases (find (is_product f.owner_id) d.products)) [
      | inl none_found ↦ absurd (ground arith)
      | inr (v, e) ↦ elim (Bool-cases (any (links f.owner_id f.id) d.product_images)) [
        | inl linked ↦
            let same : d' ≡ d = ground arith in rw same (linked, refl, λ env'. rw (e, linked) refl)
        | inr fresh ↦
            let n = length (select (image_of f.owner_id) d.product_images) in
            let x = new_image env f n in
            let written : d' ≡ record d { product_images = d.product_images ++ x ∷ [] } =
              ground arith in
            let hit = any-append_new (links f.owner_id f.id) d.product_images x (ground arith) in
            rw written (hit, refl, λ env'. rw (e, hit) refl)
      ]
    ]

bind_by_owner_lem :
    (env : Env) (k : EFileOwnerType) (f : FileRecord) (d d' : Database)
    → bind_by_owner env k f d ≡ (ok tt, d')
    → IsBoundTo f k d'
      × (d'.files ≡ d.files)
      × ((env' : Env) → bind_by_owner env' k f d' ≡ (ok tt, d'))
unfolding IsBoundTo
bind_by_owner_lem env EFileOwnerType.user f d d' h =
    let (v, found, set, kept, again) = bind_user_avatar_lem f d d' h in
    ((v, found, set), kept, λ env'. again)
bind_by_owner_lem env EFileOwnerType.product f d d' h = bind_product_image_lem env f d d' h
bind_by_owner_lem env EFileOwnerType.order f d d' h = (tt, ground arith, λ env'. ground arith)
bind_by_owner_lem env EFileOwnerType.payment f d d' h = (tt, ground arith, λ env'. ground arith)

-- A complete upload, seen in the tables.
pub IsComplete : FileRecord → Database → Type 0
IsComplete f d =
    (find (has_id f.id) d.files ≡ some f) × (f.status ≡ EFileStatus.ready) × IsBound f d

bound_view_lem :
    (env : Env) (f : FileRecord) (d d' : Database) (v : FileView)
    → bound_view env f d ≡ (ok v, d')
    → IsBound f d'
      × (d'.files ≡ d.files)
      × (v ≡ to_public_view env.s3 f)
      × ((env' : Env) → bound_view env' f d' ≡ (ok (to_public_view env'.s3 f), d'))
bound_view_lem env f d d' v h =
    let (r, t, bound, viewed) =
      bind-eq-ok (bind_file_to_domain env f) (λ u. pure (to_public_view env.s3 f)) d d' v h in
    let same : d' ≡ t = ground arith in
    let (is_bound, kept, again) = bind_by_owner_lem env f.owner_type f d t bound in
    rw same (is_bound, kept, ground arith, λ env'. rw (again env') refl)

missing_file :
    (env : Env) (u : AuthUser) (i : Uuid) (d d' : Database) (v : FileView)
    → find (has_id i) d.files ≡ none
    → complete_in_tx env u i d ≢ (ok v, d')
unfolding complete_in_tx
missing_file env u i d d' v e h = ground arith

refused_file :
    (env : Env) (u : AuthUser) (i : Uuid) (d d' : Database) (v : FileView) (f : FileRecord)
    → find (has_id i) d.files ≡ some f
    → (is_staff u.roles || is_own u f) ≡ false
    → complete_in_tx env u i d ≢ (ok v, d')
unfolding complete_in_tx
refused_file env u i d d' v f e k h = ground arith

-- A file found, and what is left of the call.
pub complete_rest :
    (env : Env) (u : AuthUser) (i : Uuid) (d : Database) (f : FileRecord)
    → find (has_id i) d.files ≡ some f
    → (is_staff u.roles || is_own u f) ≡ true
    → complete_in_tx env u i d ≡ complete_by_status env f.status f d
unfolding complete_in_tx
complete_rest env u i d f e allowed = ground arith

complete_status_lem :
    (env : Env) (k : EFileStatus) (f : FileRecord) (d d' : Database) (v : FileView)
    → f.status ≡ k
    → find (has_id f.id) d.files ≡ some f
    → complete_by_status env k f d ≡ (ok v, d')
    → (g : FileRecord) × (g.id ≡ f.id)
      × (g.owner_type ≡ f.owner_type)
      × (g.owner_id ≡ f.owner_id)
      × IsComplete g d'
      × (v ≡ to_public_view env.s3 g)
      × ((env' : Env) → bound_view env' g d' ≡ (ok (to_public_view env'.s3 g), d'))
unfolding IsComplete
complete_status_lem env EFileStatus.failed f d d' v k e h = absurd (ground arith)
complete_status_lem env EFileStatus.ready f d d' v k e h =
    let (is_bound, kept, viewed, again) = bound_view_lem env f d d' v h in
    (f, refl, refl, refl, (rw kept e, k, is_bound), viewed, again)
complete_status_lem env EFileStatus.pending f d d' v k e h =
    elim (Result-cases (object_exists env.s3 f.key)) [
      | inr (x, failed) ↦ absurd (ground arith)
      | inl (b, answered) ↦ elim (Bool-cases b) [
        | inr missing ↦ absurd (ground arith)
        | inl there ↦
            let g = as_ready env.now f in
            let d1 = on_files (update_where (has_id f.id) (λ x. g)) d in
            let rest : bound_view env g d1 ≡ (ok v, d') = ground arith in
            let (is_bound, kept, viewed, again) = bound_view_lem env g d1 d' v rest in
            let found = find-set (has_id f.id) d.files f g e (ground arith) in
            (g, refl, refl, refl, (rw kept found, refl, is_bound), viewed, again)
      ]
    ]

complete_found :
    (g : FileRecord) (d : Database) → IsComplete g d → find (has_id g.id) d.files ≡ some g
unfolding IsComplete
complete_found g d h = h.0

complete_ready : (g : FileRecord) (d : Database) → IsComplete g d → g.status ≡ EFileStatus.ready
unfolding IsComplete
complete_ready g d h = h.1

-- An upload that completed is complete, and the answer shows the file; who asked had the right to; and the
-- call made again, at any later time, gives the same answer and changes nothing.
pub complete_in_tx_lem :
    (env env' : Env) (u : AuthUser) (i : Uuid) (d d' : Database) (v : FileView)
    → env'.s3 ≡ env.s3
    → complete_in_tx env u i d ≡ (ok v, d')
    → (f : FileRecord) × (f.id ≡ i)
      × (is_staff u.roles || is_own u f ≡ true)
      × IsComplete f d'
      × (v ≡ to_public_view env.s3 f)
      × (complete_in_tx env' u i d' ≡ (ok v, d'))
complete_in_tx_lem env env' u i d d' v s3 h = elim (Option-cases (find (has_id i) d.files)) [
  | inl none_found ↦ absurd (missing_file env u i d d' v none_found h)
  | inr (f, e) ↦ elim (Bool-cases (is_staff u.roles || is_own u f)) [
    | inr refused ↦ absurd (refused_file env u i d d' v f e refused h)
    | inl allowed ↦
        let id : f.id ≡ i = (==_iff f.id i).0 (find_holds (has_id i) d.files f e) in
        let e' : find (has_id f.id) d.files ≡ some f =
          subst (λ k. find (has_id k) d.files ≡ some f) (sym id) e in
        let rest = sym (complete_rest env u i d f e allowed) ∙ h in
        let (g, same, kind, owner, complete, viewed, again) =
          complete_status_lem env f.status f d d' v refl e' rest in
        let allowed' : (is_staff u.roles || is_own u g) ≡ true = rw (kind, owner) allowed in
        let found : find (has_id i) d'.files ≡ some g =
          subst (λ k. find (has_id k) d'.files ≡ some g) (same ∙ id)
            (complete_found g d' complete) in
        let second = complete_rest env' u i d' g found allowed' in
        (
          g,
          same ∙ id,
          allowed',
          complete,
          viewed,
          rw (second, complete_ready g d' complete, again env', viewed, s3) refl,
        )
  ]
]
