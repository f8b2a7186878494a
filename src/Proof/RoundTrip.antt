-- ===== src/Proof/RoundTrip.antt =====
-- Reading with `parseMTCProof` of demo/verify_proof.go what `CreateCertificate` of demo/encode.go
-- wrote.
use mathlib.Core.List.{append_assoc, append-nil}
use merkle_tree_certs.Prelude.{
  ℕ, zero, suc, ◌<◌, ◌≤◌, ◌^◌, List, [], ◌∷◌, ◌++◌, length, All, All-weaken, ◌==◌, true, not,
  if◌then◌else◌, Option, none, some, ◌≡◌, refl, sym, ap, subst, ◌∙◌, arith, Bool-cases, inl, inr,
}
use merkle_tree_certs.Prelude.{Outcome, ok, found-some, ok_subst}
use merkle_tree_certs.Log.Hash.{Bytes}
use merkle_tree_certs.Config.Version.{
  DraftVersion, version_davidben09, version_davidben10, version_plants01, version_plants02,
  version_plants04, version_plants05, version_plants06, version_plants07, version_le, version_lt,
}
use merkle_tree_certs.Config.Structs.{Cosignature}
use merkle_tree_certs.Cryptobyte.{
  Cryptobyte, IsCryptobyte, Build, BuildError, around, +++-ok, around-ok,
}
use merkle_tree_certs.Encode.{add_mtc_entry_extensions, add_mtc_proof_signatures}
use merkle_tree_certs.Encode.Certificate.{
  less, compare_cosigner_ids, add_cosignatures, add_coordinates, add_mtc_proof,
}
use merkle_tree_certs.Encode.Order.{Ascending}
use merkle_tree_certs.Encode.Sorted.{ids}
use merkle_tree_certs.Proof.{
  is_less, ParsedSignature, ParsedEntryExtension, ParsedProof, ProofError, comes_after,
  read_signatures, read_extensions, read_exts_raw, read_coordinate, read_mtc_proof_signatures,
  parse_signature,
}

module _ (cb : Cryptobyte) where
  read_signatures_step :
      (f : ℕ) (prev : Option Bytes) (s id s1 sig rest : Bytes) (sigs : List ParsedSignature)
      → 0 < length s
      → cb.read_uint8_prefixed s ≡ some (id, s1)
      → not (length id == 0) ≡ true
      → cb.read_uint16_prefixed s1 ≡ some (sig, rest)
      → comes_after prev id ≡ true
      → read_signatures cb f (some id) rest ≡ ok sigs
      → read_signatures cb (suc f) prev s ≡ ok (record { cosigner_id = id; signature = sig } ∷ sigs)
  unfolding read_signatures
  read_signatures_step f prev [] id s1 sig rest sigs p r8 ne r16 after more = absurd (omega arith)
  read_signatures_step f prev (b ∷ bs) id s1 sig rest sigs p r8 ne r16 after more =
      rw (r8, ne, r16, after, more) refl

abbrev pub parsed_of : List Cosignature → List ParsedSignature
parsed_of [] = []
parsed_of (c ∷ cs) = record { cosigner_id = c.cosigner_id; signature = c.signature } ∷ parsed_of cs

-- What is parsed of the fields of an MTCProof.
abbrev pub proof_of :
    Bytes → List ParsedEntryExtension → ℕ → ℕ → Bytes → List Cosignature → ParsedProof
proof_of exts es start end proof cosigs = record {
  entry_exts_raw = exts;
  entry_exts = es;
  start = start;
  end = end;
  inclusion_proof = proof;
  signatures = parsed_of cosigs;
}

-- The bits of a coordinate.
abbrev pub coordinate_bits : DraftVersion → ℕ
coordinate_bits version = if version_lt version version_plants04 then 64 else 48

le-lt : (v : DraftVersion) → version_le version_plants04 v ≡ not (version_lt v version_plants04)
le-lt version_davidben09 = refl
le-lt version_davidben10 = refl
le-lt version_plants01 = refl
le-lt version_plants02 = refl
le-lt version_plants04 = refl
le-lt version_plants05 = refl
le-lt version_plants06 = refl
le-lt version_plants07 = refl

-- IDs that the parser takes in turn after `prev`.
abbrev TakenAfter : Option Bytes → List Bytes → Type 0
TakenAfter prev [] = Unit {0}
TakenAfter prev (a ∷ rest) =
    (not (length a == 0) ≡ true) × (comes_after prev a ≡ true) × TakenAfter (some a) rest

Ascending-TakenAfter :
    (prev : Option Bytes) (rest : List Bytes)
    → All (λ a. not (length a == 0) ≡ true) rest
    → Ascending rest
    → All (λ a. comes_after prev a ≡ true) rest
    → TakenAfter prev rest
Ascending-TakenAfter prev [] full up after = tt
Ascending-TakenAfter prev (a ∷ rest) (f, full) (below, up) (h, after) = (
  f,
  h,
  Ascending-TakenAfter (some a) rest full up (
      All-weaken (λ b. compare_cosigner_ids a b ≡ less) (λ b. comes_after (some a) b ≡ true) rest
        (λ b e. ap is_less e) below),
)

pred : (f : ℕ) → 0 < f → (g : ℕ) × (f ≡ suc g)
pred zero p = absurd (omega arith)
pred (suc g) p = (g, refl)

module _ (cb : Cryptobyte) (laws : IsCryptobyte cb) where
  read_signatures-add_cosignatures :
      (cs : List Cosignature) (f : ℕ) (prev : Option Bytes) (bs : Bytes)
      → TakenAfter prev (ids cs)
      → add_cosignatures cb cs ≡ ok bs
      → length bs ≤ f
      → read_signatures cb f prev bs ≡ ok (parsed_of cs)
  unfolding add_cosignatures
  read_signatures-add_cosignatures [] f prev bs taken e h =
      ok_subst (λ t. read_signatures cb f prev t ≡ ok []) e (unfold read_signatures in refl)
  read_signatures-add_cosignatures (c ∷ cs) f prev bs (full, after, taken) e h =
      let (x, y, ex, ey, exy) = +++-ok _ _ bs e in
      let (z, w, ez, ew, ezw) = +++-ok _ (add_cosignatures cb cs) y ey in
      let ax = found-some BuildError.too_long (cb.add_uint8_prefixed c.cosigner_id) x ex in
      let az = found-some BuildError.too_long (cb.add_uint16_prefixed c.signature) z ez in
      let r8 = laws.uint8_prefixed.back c.cosigner_id x (z ++ w) ax in
      let r16 = laws.uint16_prefixed.back c.signature z w az in
      let m8 = laws.uint8_prefixed.more (x ++ (z ++ w)) c.cosigner_id (z ++ w) r8 in
      let m16 = laws.uint16_prefixed.more (z ++ w) c.signature w r16 in
      let same : x ++ (z ++ w) ≡ bs = ap (λ t. x ++ t) ezw ∙ exy in
      let size : length (x ++ (z ++ w)) ≡ length bs = ap length same in
      let (g, p) = pred f (omega arith) in
      let deeper =
        read_signatures-add_cosignatures cs g (some c.cosigner_id) w taken ew (omega arith) in
      subst (λ t. read_signatures cb f prev t ≡ ok (parsed_of (c ∷ cs))) same
        (rw p (
          read_signatures_step cb g prev (x ++ (z ++ w)) c.cosigner_id (z ++ w) c.signature w
            (parsed_of cs) (omega arith) r8 full r16 after deeper))

  read_exts_raw-add :
      (v : DraftVersion) (exts x rest : Bytes)
      → (version_lt v version_plants04 ≡ true → exts ≡ [])
      → add_mtc_entry_extensions cb v exts ≡ ok x
      → read_exts_raw cb v (x ++ rest) ≡ ok (exts, rest)
  unfolding add_mtc_entry_extensions
  read_exts_raw-add v exts x rest bare e = elim (Bool-cases (version_lt v version_plants04)) [
    | inl t ↦
        let nothing : ◌≡◌ {A = Build} (ok []) (ok x) = rw (le-lt v, t) at e in
        rw t (
          ok_subst
            (λ s.
              ◌≡◌ {A = Outcome ProofError (Bytes × Bytes)} (ok ([], s ++ rest)) (ok (exts, rest)))
            nothing (ap (λ s. ok (s, rest)) (sym (bare t))))
    | inr f ↦
        let some_field : around cb.add_uint16_prefixed (ok exts) ≡ ok x = rw (le-lt v, f) at e in
        let read =
          laws.uint16_prefixed.back exts x rest
            (found-some BuildError.too_long (cb.add_uint16_prefixed exts) x some_field) in
        rw (f, read) refl
  ]

  -- One coordinate as it was added.
  abbrev added : DraftVersion → ℕ → Bytes
  added v c = if version_lt v version_plants04 then cb.add_uint64 c else cb.add_uint48 c

  add_coordinates-added :
      (v : DraftVersion) (start end : ℕ)
      → add_coordinates cb v start end ≡ ok (added v start ++ added v end)
  unfolding add_coordinates
  add_coordinates-added v start end = elim (Bool-cases (version_lt v version_plants04)) [
    | inl t ↦ rw (le-lt v, t) refl
    | inr f ↦ rw (le-lt v, f) refl
  ]

  read_coordinate-added :
      (v : DraftVersion) (c : ℕ) (rest : Bytes)
      → c < 2 ^ coordinate_bits v
      → read_coordinate cb v (added v c ++ rest) ≡ ok (c, rest)
  read_coordinate-added v c rest h = elim (Bool-cases (version_lt v version_plants04)) [
    | inl t ↦ let small : c < 2 ^ 64 = rw t at h in rw (t, laws.uint64.back c rest small) refl
    | inr f ↦ let small : c < 2 ^ 48 = rw f at h in rw (f, laws.uint48.back c rest small) refl
  ]

  read_mtc_proof_signatures-add :
      (v : DraftVersion) (child : Build) (x rest : Bytes)
      → add_mtc_proof_signatures cb v child ≡ ok x
      → (c : Bytes) × (child ≡ ok c) × (read_mtc_proof_signatures cb v (x ++ rest) ≡ some (c, rest))
  unfolding add_mtc_proof_signatures
  read_mtc_proof_signatures-add v child x rest e =
      elim (Bool-cases (version_le version_plants06 v)) [
        | inl t ↦
            let (c, ec, ac) = around-ok cb.add_uint24_prefixed child x (rw t at e) in
            (c, ec, rw (t, laws.uint24_prefixed.back c x rest ac) refl)
        | inr f ↦
            let (c, ec, ac) = around-ok cb.add_uint16_prefixed child x (rw f at e) in
            (c, ec, rw (f, laws.uint16_prefixed.back c x rest ac) refl)
      ]

  -- An MTCProof that was built for cosignatures in ascending order of their IDs, none of them empty,
  -- with extensions that the parser accepts and coordinates that fit, is parsed back to its parts.
  pub parse_signature-add_mtc_proof :
      (v : DraftVersion) (exts : Bytes) (start end : ℕ) (proof : Bytes) (cosigs : List Cosignature)
      (es : List ParsedEntryExtension) (bs : Bytes)
      → (version_lt v version_plants04 ≡ true → exts ≡ [])
      → read_extensions cb (length exts) 0 exts ≡ ok es
      → start < 2 ^ coordinate_bits v
      → end < 2 ^ coordinate_bits v
      → All (λ id. not (length id == 0) ≡ true) (ids cosigs)
      → Ascending (ids cosigs)
      → add_mtc_proof cb v exts start end proof cosigs ≡ ok bs
      → parse_signature cb v bs ≡ ok (proof_of exts es start end proof cosigs)
  unfolding add_mtc_proof
  parse_signature-add_mtc_proof v exts start end proof cosigs es bs bare parsed hs he full up e =
      let (x, y, ex, ey, exy) = +++-ok (add_mtc_entry_extensions cb v exts) _ bs e in
      let (c, d, ec, ed, ecd) = +++-ok (add_coordinates cb v start end) _ y ey in
      let (p, q, ep, eq, epq) = +++-ok (around cb.add_uint16_prefixed (ok proof)) _ d ed in
      let sp = added v start in
      let ep' = added v end in
      let same : x ++ ((sp ++ ep') ++ (p ++ q)) ≡ bs =
        ap (λ t. x ++ ((sp ++ ep') ++ t)) epq
        ∙ ap (λ t. x ++ t)
            (ok_subst (λ t. t ++ d ≡ y) (sym ec ∙ add_coordinates-added v start end) ecd)
        ∙ exy in
      let (s, es', rs) = read_mtc_proof_signatures-add v (add_cosignatures cb cosigs) q [] eq in
      let r1 = read_exts_raw-add v exts x ((sp ++ ep') ++ (p ++ q)) bare ex in
      let r2 = read_coordinate-added v start (ep' ++ (p ++ q)) hs in
      let r3 = read_coordinate-added v end (p ++ q) he in
      let r4 =
        laws.uint16_prefixed.back proof p q
          (found-some BuildError.too_long (cb.add_uint16_prefixed proof) p ep) in
      let r5 : read_mtc_proof_signatures cb v q ≡ some (s, []) = rw append-nil at rs in
      let r6 =
        read_signatures-add_cosignatures cosigs (length s) none s
          (Ascending-TakenAfter none (ids cosigs) full up (every cosigs)) es' (omega arith) in
      subst (λ t. parse_signature cb v t ≡ ok (proof_of exts es start end proof cosigs)) same
        (unfold parse_signature in rw (r1, append_assoc, r2, r3, parsed, r4, r5, r6) refl)
    where
      every : (cs : List Cosignature) → All (λ a. comes_after none a ≡ true) (ids cs)
      every [] = tt
      every (c ∷ cs) = (refl, every cs)
