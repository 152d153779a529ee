-- ===== src/Files/Images.antt =====
-- The images of the products (`bindProductImage` of src/files/files.service.ts) over the calls of
-- `completeUpload`.
use e_commerce_order_platfor.Common.{
  ◌≡◌, ap, ◌∙◌, ⊤, ℕ, suc, ◌+◌, List, [], ◌∷◌, ◌++◌, find, any, append-nil, update_where, not, ◌&&◌,
  length, select, select-append, ◌==◌, ==_iff, arith, inl, inr, Bool-cases, Option-cases,
  Result-cases,
}
use e_commerce_order_platfor.Database.{
  Uuid, Database, FileRecord, ProductImage, EFileStatus, EFileOwnerType,
}
use e_commerce_order_platfor.Auth.{AuthUser, is_staff}
use e_commerce_order_platfor.Files.{Env, is_product, is_own, has_id, on_files}
use e_commerce_order_platfor.Files.S3.{object_exists}
use e_commerce_order_platfor.Files.Complete.{
  complete_in_tx, image_of, links, new_image, bind_product_image, bind_by_owner, complete_by_status,
  bound_view, bind_file_to_domain, as_ready,
}

-- Numbered from `n` on, one after the other, and only the image with the number 0 is primary.
unfoldable pub IsNumberedFrom : ℕ → List ProductImage → Type 0
IsNumberedFrom n [] = ⊤
IsNumberedFrom n (x ∷ xs) =
    (x.sort_order ≡ n) × (x.is_primary ≡ (n == 0)) × IsNumberedFrom (suc n) xs

shift : (n m : ℕ) → n + suc m ≡ suc n + m
shift n m = omega arith

from_zero : (n : ℕ) → n ≡ 0 + n
from_zero n = omega arith

IsNumberedFrom-append :
    (n : ℕ) (xs : List ProductImage) (x : ProductImage)
    → IsNumberedFrom n xs
    → x.sort_order ≡ n + length xs
    → x.is_primary ≡ ((n + length xs) == 0)
    → IsNumberedFrom n (xs ++ x ∷ [])
unfolding IsNumberedFrom
IsNumberedFrom-append n [] x h k p = (ground arith, ground arith, tt)
IsNumberedFrom-append n (y ∷ ys) x (a, b, h) k p = (
  a,
  b,
  IsNumberedFrom-append (suc n) ys x h (ground arith) (p ∙ ap (λ k. k == 0) (shift n (length ys))),
)

-- The images of each product, in the order of the table.
unfoldable pub IsNumbered : List ProductImage → Type 0
IsNumbered xs = (p : Uuid) → IsNumberedFrom 0 (select (image_of p) xs)

IsNumbered-new_image :
    (env : Env) (f : FileRecord) (xs : List ProductImage)
    → IsNumbered xs
    → IsNumbered (xs ++ new_image env f (length (select (image_of f.owner_id) xs)) ∷ [])
unfolding IsNumbered
IsNumbered-new_image env f xs h p =
    let n = length (select (image_of f.owner_id) xs) in
    let x = new_image env f n in
    elim (Bool-cases (f.owner_id == p)) [
      | inl same ↦
          let e : f.owner_id ≡ p = (==_iff f.owner_id p).0 same in
          rw (select-append (image_of p) xs (x ∷ []), same)
            (IsNumberedFrom-append 0 (select (image_of p) xs) x (h p)
              (ap (λ q. length (select (image_of q) xs)) e
                ∙ from_zero (length (select (image_of p) xs)))
              (ap (λ q. length (select (image_of q) xs) == 0) e
                ∙ ap (λ k. k == 0) (from_zero (length (select (image_of p) xs)))))
      | inr other ↦
          rw (select-append (image_of p) xs (x ∷ []), other, append-nil (select (image_of p) xs))
            (h p)
    ]

bind_product_image-IsNumbered :
    (env : Env) (f : FileRecord) (d : Database)
    → IsNumbered d.product_images
    → IsNumbered (bind_product_image env f d).1.product_images
bind_product_image-IsNumbered env f d h =
    elim (Option-cases (find (is_product f.owner_id) d.products)) [
      | inl none_found ↦ rw none_found h
      | inr (v, e) ↦ elim (Bool-cases (any (links f.owner_id f.id) d.product_images)) [
        | inl linked ↦ rw (e, linked) h
        | inr fresh ↦ rw (e, fresh) (IsNumbered-new_image env f d.product_images h)
      ]
    ]

bind_by_owner-IsNumbered :
    (env : Env) (k : EFileOwnerType) (f : FileRecord) (d : Database)
    → IsNumbered d.product_images
    → IsNumbered (bind_by_owner env k f d).1.product_images
bind_by_owner-IsNumbered env EFileOwnerType.user f d h = h
bind_by_owner-IsNumbered env EFileOwnerType.product f d h = bind_product_image-IsNumbered env f d h
bind_by_owner-IsNumbered env EFileOwnerType.order f d h = h
bind_by_owner-IsNumbered env EFileOwnerType.payment f d h = h

bound_view-IsNumbered :
    (env : Env) (f : FileRecord) (d : Database)
    → IsNumbered d.product_images
    → IsNumbered (bound_view env f d).1.product_images
bound_view-IsNumbered env f d h =
    let step = bind_by_owner-IsNumbered env f.owner_type f d h in
    elim (Result-cases (bind_file_to_domain env f d).0) [
      | inl (u, done) ↦ rw done step
      | inr (e, failed) ↦ rw failed step
    ]

complete_by_status-IsNumbered :
    (env : Env) (k : EFileStatus) (f : FileRecord) (d : Database)
    → IsNumbered d.product_images
    → IsNumbered (complete_by_status env k f d).1.product_images
complete_by_status-IsNumbered env EFileStatus.failed f d h = h
complete_by_status-IsNumbered env EFileStatus.ready f d h = bound_view-IsNumbered env f d h
complete_by_status-IsNumbered env EFileStatus.pending f d h =
    elim (Result-cases (object_exists env.s3 f.key)) [
      | inr (e, failed) ↦ rw failed h
      | inl (b, answered) ↦ elim (Bool-cases b) [
        | inr missing ↦ rw (answered, missing) h
        | inl there ↦
            rw (answered, there)
              (bound_view-IsNumbered env (as_ready env.now f)
                (on_files (update_where (has_id f.id) (λ x. as_ready env.now f)) d) h)
      ]
    ]

pub complete_in_tx-IsNumbered :
    (env : Env) (u : AuthUser) (i : Uuid) (d : Database)
    → IsNumbered d.product_images
    → IsNumbered (complete_in_tx env u i d).1.product_images
unfolding complete_in_tx
complete_in_tx-IsNumbered env u i d h = elim (Option-cases (find (has_id i) d.files)) [
  | inl none_found ↦ rw none_found h
  | inr (f, e) ↦ elim (Bool-cases (not (is_staff u.roles) && not (is_own u f))) [
    | inl refused ↦ rw (e, refused) h
    | inr allowed ↦ rw (e, allowed) (complete_by_status-IsNumbered env f.status f d h)
  ]
]
