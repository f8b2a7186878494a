-- ===== src/Encode/Sorted.antt =====
-- The order in which demo/encode.go puts cosignatures.
use mathlib.Core.List.{Perm}
use mathlib.Core.List.Perm
use merkle_tree_certs.Prelude.{List, [], ◌∷◌, ◌≡◌, ◌≢◌, refl, All}
use merkle_tree_certs.Log.Hash.{Bytes}
use merkle_tree_certs.Config.Structs.{Cosignature}
use merkle_tree_certs.Encode.Certificate.{
  Comparison, less, equal, greater, compare_cosigner_ids, place, insert_sorted, sort_cosignatures,
}
use merkle_tree_certs.Encode.Order.{
  compare_cosigner_ids-equal, compare_cosigner_ids_swap, Ascending, AreDistinct, Ascending_before,
  AreOrdered, Ascending-AreOrdered,
}

abbrev pub ids : List Cosignature → List Bytes
ids [] = []
ids (c ∷ cs) = c.cosigner_id ∷ ids cs

place-All :
    (P : Bytes → Type 0) (o : Comparison) (c d : Cosignature) (ds later : List Cosignature)
    → P c.cosigner_id
    → P d.cosigner_id
    → All P (ids ds)
    → All P (ids later)
    → All P (ids (place o c d ds later))
place-All P less c d ds later p q a b = (p, (q, a))
place-All P equal c d ds later p q a b = (p, (q, a))
place-All P greater c d ds later p q a b = (q, b)

insert_sorted-All :
    (P : Bytes → Type 0) (c : Cosignature) (ds : List Cosignature)
    → P c.cosigner_id
    → All P (ids ds)
    → All P (ids (insert_sorted c ds))
insert_sorted-All P c [] p a = (p, tt)
insert_sorted-All P c (d ∷ ds) p (q, a) =
    place-All P (compare_cosigner_ids c.cosigner_id d.cosigner_id) c d ds (insert_sorted c ds) p q a
      (insert_sorted-All P c ds p a)

place-Perm :
    (o : Comparison) (c d : Cosignature) (ds later : List Cosignature)
    → Perm later (c ∷ ds)
    → Perm (place o c d ds later) (c ∷ d ∷ ds)
place-Perm less c d ds later p = Perm.rfl
place-Perm equal c d ds later p = Perm.rfl
place-Perm greater c d ds later p = Perm.trans (Perm.cons d p) (Perm.swap c d ds)

insert_sorted-Perm : (c : Cosignature) (ds : List Cosignature) → Perm (insert_sorted c ds) (c ∷ ds)
insert_sorted-Perm c [] = Perm.rfl
insert_sorted-Perm c (d ∷ ds) =
    place-Perm (compare_cosigner_ids c.cosigner_id d.cosigner_id) c d ds (insert_sorted c ds)
      (insert_sorted-Perm c ds)

place-Ascending :
    (o : Comparison) (c d : Cosignature) (ds later : List Cosignature)
    → compare_cosigner_ids c.cosigner_id d.cosigner_id ≡ o
    → c.cosigner_id ≢ d.cosigner_id
    → Ascending (ids (d ∷ ds))
    → Ascending (ids later)
    → (compare_cosigner_ids d.cosigner_id c.cosigner_id ≡ less
        → All (λ b. compare_cosigner_ids d.cosigner_id b ≡ less) (ids later))
    → Ascending (ids (place o c d ds later))
place-Ascending less c d ds later e differ (below, up) up' below' =
    ((e, Ascending_before c.cosigner_id d.cosigner_id (ids ds) e below), (below, up))
place-Ascending equal c d ds later e differ up up' below' =
    absurd (differ (compare_cosigner_ids-equal c.cosigner_id d.cosigner_id e))
place-Ascending greater c d ds later e differ up up' below' =
    (below' (compare_cosigner_ids_swap c.cosigner_id d.cosigner_id e), up')

insert_sorted-Ascending :
    (c : Cosignature) (ds : List Cosignature)
    → All (λ b. c.cosigner_id ≢ b) (ids ds)
    → Ascending (ids ds)
    → Ascending (ids (insert_sorted c ds))
insert_sorted-Ascending c [] differ up = (tt, tt)
insert_sorted-Ascending c (d ∷ ds) (differ, differs) (below, up) =
    place-Ascending (compare_cosigner_ids c.cosigner_id d.cosigner_id) c d ds (insert_sorted c ds)
      refl differ (below, up) (insert_sorted-Ascending c ds differs up)
      (λ h. insert_sorted-All (λ b. compare_cosigner_ids d.cosigner_id b ≡ less) c ds h below)

pub sort_cosignatures-All :
    (P : Bytes → Type 0) (cs : List Cosignature)
    → All P (ids cs)
    → All P (ids (sort_cosignatures cs))
unfolding sort_cosignatures
sort_cosignatures-All P [] a = tt
sort_cosignatures-All P (c ∷ cs) (p, a) =
    insert_sorted-All P c (sort_cosignatures cs) p (sort_cosignatures-All P cs a)

pub sort_cosignatures-Ascending :
    (cs : List Cosignature)
    → AreDistinct (ids cs)
    → Perm (sort_cosignatures cs) cs × Ascending (ids (sort_cosignatures cs))
unfolding sort_cosignatures
sort_cosignatures-Ascending [] differ = (Perm.rfl, tt)
sort_cosignatures-Ascending (c ∷ cs) (differ, differs) =
    let (perm, up) = sort_cosignatures-Ascending cs differs in
    (
      Perm.trans (insert_sorted-Perm c (sort_cosignatures cs)) (Perm.cons c perm),
      insert_sorted-Ascending c (sort_cosignatures cs)
          (sort_cosignatures-All (λ b. c.cosigner_id ≢ b) cs differ) up,
    )

-- Where no two of the cosignatures have one cosigner ID, the sorted cosignatures are the given ones
-- in another order, and each cosigner ID is before all that follow it: it has fewer bytes, or as
-- many and the smaller byte at the first place where they differ.
pub sort_cosignatures-AreOrdered :
    (cs : List Cosignature)
    → AreDistinct (ids cs)
    → Perm (sort_cosignatures cs) cs × AreOrdered (ids (sort_cosignatures cs))
sort_cosignatures-AreOrdered cs differ =
    let (perm, up) = sort_cosignatures-Ascending cs differ in
    (perm, Ascending-AreOrdered (ids (sort_cosignatures cs)) up)
