-- ===== src/Cosign/Injective.antt =====
-- `cosignedMessage` of demo/cosign.go: what two equal messages agree on.
use mathlib.Core.List.{append_assoc}
use merkle_tree_certs.Prelude.{
  ℕ, ◌<◌, ◌^◌, [], ◌∷◌, ◌++◌, length, drop, drop-append, true, Option, some, codes, ◌≡◌, refl, sym,
  ap, ◌∙◌, ◌==◌, not, ◌&&◌, ◌||◌,
}
use merkle_tree_certs.Prelude.{ok, err, panic, stuck, check, >>=-eq-ok, found-some}
use merkle_tree_certs.Log.Hash.{Bytes, HashValue}
use merkle_tree_certs.Log.Subtree.{is_valid_subtree}
use merkle_tree_certs.Config.Version.{DraftVersion, version_plants04, version_le}
use merkle_tree_certs.Config.AnchorId.{id_string}
use merkle_tree_certs.Config.FromText.AnchorIds.{IsId, id_string-injective}
use merkle_tree_certs.Cryptobyte.{
  Cryptobyte, IsCryptobyte, Build, BuildError, ◌+++◌, around, +++-ok,
}
use merkle_tree_certs.Cosign.Message.{
  CosignError, built, tlog_origin, named_header, cosigned_message,
}

built-ok : (m : Build) (bs : Bytes) → built m ≡ ok bs → m ≡ ok bs
built-ok (ok x) bs e = cc
built-ok (err d) bs e = cc
built-ok panic bs e = cc
built-ok stuck bs e = cc

-- The fixed bytes at the front.
abbrev magic : Bytes
magic = codes "subtree/v1" ++ (10 ∷ 0 ∷ [])

glue :
    (p n u o t m r2 r1 h : Bytes)
    → u ++ o ≡ r2
    → n ++ r2 ≡ r1
    → p ++ r1 ≡ h
    → h ++ t ≡ m
    → p ++ (n ++ (u ++ (o ++ t))) ≡ m
glue p n u o t m r2 r1 h e2 e1 eh em =
    let front : p ++ (n ++ (u ++ o)) ≡ h = ap (λ x. p ++ (n ++ x)) e2 ∙ ap (λ x. p ++ x) e1 ∙ eh in
    simp append_assoc at (ap (λ x. x ++ t) front ∙ em)

value : (x y : Bytes) → ◌≡◌ {A = Build} (ok x) (ok y) → x ≡ y
value x y e = cc

-- Different IDs have different origins.
tlog_origin-injective :
    (id id' : Bytes) → IsId id → IsId id' → tlog_origin id ≡ tlog_origin id' → id ≡ id'
unfolding tlog_origin
tlog_origin-injective id id' a b e =
    let prefix = codes "oid/1.3.6.1.4.1." in
    id_string-injective id id' a b (
      sym (drop-append (length prefix) prefix (id_string id) refl)
      ∙ ap (drop (length prefix)) e
      ∙ drop-append (length prefix) prefix (id_string id') refl)

-- Reading two equal inputs gives equal values and rests.
read_same :
    {A : Type 0} (read : Bytes → Option (A × Bytes)) (s s' : Bytes) (a a' : A) (rest rest' : Bytes)
    → read s ≡ some (a, rest)
    → read s' ≡ some (a', rest')
    → s ≡ s'
    → (a ≡ a') × (rest ≡ rest')
read_same read s s' a a' rest rest' e e' same =
    let both : some (a, rest) ≡ some (a', rest') = sym e ∙ ap read same ∙ e' in (cc, cc)

module _ (cb : Cryptobyte) (laws : IsCryptobyte cb) where
  -- The fields of a message from draft plants-04 on.
  record MessageParts (cosigner log m : Bytes) (timestamp start end : ℕ) (hash : HashValue)
      : Type 0 where
    name : Bytes
    origin : Bytes
    is_name : cb.add_uint8_prefixed (tlog_origin cosigner) ≡ some name
    is_origin : cb.add_uint8_prefixed (tlog_origin log) ≡ some origin
    joined :
        magic
          ++ (name
              ++ (cb.add_uint64 timestamp
                  ++ (origin ++ (cb.add_uint64 start ++ (cb.add_uint64 end ++ hash)))))
        ≡ m

  message_parts :
      (v : DraftVersion) (cosigner log m : Bytes) (timestamp start end : ℕ) (hash : HashValue)
      → version_le version_plants04 v ≡ true
      → cosigned_message cb v cosigner log timestamp start end hash ≡ ok m
      → MessageParts cosigner log m timestamp start end hash
  unfolding cosigned_message named_header
  message_parts v cosigner log m timestamp start end hash late e =
      let (u1, _, f1) =
        >>=-eq-ok
          (check (not (not (timestamp == 0) && not (start == 0))) CosignError.timestamp_on_subtree)
          _ e in
      let (u2, _, f2) =
        >>=-eq-ok
          (check (version_le version_plants04 v || timestamp == 0) CosignError.timestamp_too_early)
          _ f1 in
      let (u3, _, f3) =
        >>=-eq-ok (check (is_valid_subtree start end) CosignError.bad_subtree) _ f2 in
      let header = named_header cb cosigner log timestamp in
      let tail = ok (cb.add_uint64 start) +++ (ok (cb.add_uint64 end) +++ ok hash) in
      let whole = built-ok (header +++ tail) m (rw late at f3) in
      let (h, t, eh, et, j) = +++-ok header tail m whole in
      let (p, r1, ep, e1, j1) = +++-ok (ok magic) _ h eh in
      let (name, r2, en, e2, j2) =
        +++-ok (around cb.add_uint8_prefixed (ok (tlog_origin cosigner))) _ r1 e1 in
      let (ts, origin, ets, eo, j3) =
        +++-ok (ok (cb.add_uint64 timestamp)) (around cb.add_uint8_prefixed (ok (tlog_origin log)))
          r2 e2 in
      let front : magic ≡ p = value magic p ep in
      let time : cb.add_uint64 timestamp ≡ ts = value (cb.add_uint64 timestamp) ts ets in
      let back : cb.add_uint64 start ++ (cb.add_uint64 end ++ hash) ≡ t =
        value (cb.add_uint64 start ++ (cb.add_uint64 end ++ hash)) t et in
      record {
        name = name;
        origin = origin;
        is_name =
            found-some BuildError.too_long (cb.add_uint8_prefixed (tlog_origin cosigner)) name en;
        is_origin =
            found-some BuildError.too_long (cb.add_uint8_prefixed (tlog_origin log)) origin eo;
        joined =
            glue magic name (cb.add_uint64 timestamp) origin
              (cb.add_uint64 start ++ (cb.add_uint64 end ++ hash)) m r2 r1 h
              (ap (λ x. x ++ origin) time ∙ j3) j2 (ap (λ x. x ++ r1) front ∙ j1)
              (ap (λ x. h ++ x) back ∙ j);
      }

  -- From draft plants-04 on, two equal messages are about the same cosigner ID and log ID, and the
  -- same timestamp, subtree and hash, where the IDs are of one or more uint32 components and the
  -- numbers are of 64 bits.
  pub cosigned_message-injective :
      (v : DraftVersion) (c c' log log' m : Bytes) (t t' start start' end end' : ℕ)
      (hash hash' : HashValue)
      → version_le version_plants04 v ≡ true
      → IsId c
      → IsId c'
      → IsId log
      → IsId log'
      → t < 2 ^ 64
      → t' < 2 ^ 64
      → start < 2 ^ 64
      → start' < 2 ^ 64
      → end < 2 ^ 64
      → end' < 2 ^ 64
      → cosigned_message cb v c log t start end hash ≡ ok m
      → cosigned_message cb v c' log' t' start' end' hash' ≡ ok m
      → (c ≡ c') × (log ≡ log') × (t ≡ t') × (start ≡ start') × (end ≡ end') × (hash ≡ hash')
  cosigned_message-injective v c c' log log' m t t' start start' end end' hash hash' late ic ic' il
        il' ht ht' hs hs' he he' made made' =
      let a = message_parts v c log m t start end hash late made in
      let b = message_parts v c' log' m t' start' end' hash' late made' in
      let r8 = laws.uint8_prefixed.back in
      let r64 = laws.uint64.back in
      let tail1 = cb.add_uint64 end ++ hash in
      let tail2 = cb.add_uint64 end' ++ hash' in
      let s1 = cb.add_uint64 start ++ tail1 in
      let s2 = cb.add_uint64 start' ++ tail2 in
      let o1 = a.origin ++ s1 in
      let o2 = b.origin ++ s2 in
      let t1 = cb.add_uint64 t ++ o1 in
      let t2 = cb.add_uint64 t' ++ o2 in
      let rest : a.name ++ t1 ≡ b.name ++ t2 =
        sym (drop-append (length magic) magic (a.name ++ t1) refl)
        ∙ ap (drop (length magic)) (a.joined ∙ sym b.joined)
        ∙ drop-append (length magic) magic (b.name ++ t2) refl in
      let (names, e1) =
        read_same cb.read_uint8_prefixed (a.name ++ t1) (b.name ++ t2) (tlog_origin c)
          (tlog_origin c') t1 t2 (r8 (tlog_origin c) a.name t1 a.is_name)
          (r8 (tlog_origin c') b.name t2 b.is_name) rest in
      let (times, e2) =
        read_same cb.read_uint64 t1 t2 t t' o1 o2 (r64 t o1 ht) (r64 t' o2 ht') e1 in
      let (logs, e3) =
        read_same cb.read_uint8_prefixed o1 o2 (tlog_origin log) (tlog_origin log') s1 s2
          (r8 (tlog_origin log) a.origin s1 a.is_origin)
          (r8 (tlog_origin log') b.origin s2 b.is_origin) e2 in
      let (starts, e4) =
        read_same cb.read_uint64 s1 s2 start start' tail1 tail2 (r64 start tail1 hs)
          (r64 start' tail2 hs') e3 in
      let (ends, e5) =
        read_same cb.read_uint64 tail1 tail2 end end' hash hash' (r64 end hash he)
          (r64 end' hash' he') e4 in
      (
        tlog_origin-injective c c' ic ic' names,
        tlog_origin-injective log log' il il' logs,
        times,
        starts,
        ends,
        e5,
      )
