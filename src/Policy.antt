-- ===== src/Policy.antt =====
-- demo/policy.go: the relying party's policy. A map of Go is an association list with byte strings
-- for keys, the last write first; reading a nil map finds nothing, so it is the empty list. An
-- operation that returns an error leaves the policy as it was.
pub mod Evaluate
pub mod Invariant
pub mod Computed
pub mod Fixpoint
pub mod Build
pub mod Monotone
pub mod AddCa
pub mod File
use merkle_tree_certs.Prelude.{
  ℕ, zero, suc, ◌+◌, ◌-◌, ◌^◌, Bool, true, false, ltb, leb, ◌==◌, ◌&&◌, not, if◌then◌else◌,
}
use merkle_tree_certs.Prelude.{List, [], ◌∷◌, ◌++◌, length, get_elem?, Option, none, some}
use merkle_tree_certs.Prelude.{Outcome, ok, err, ◌>>=◌, ◌>>◌, check, must}
use merkle_tree_certs.Prelude.{ℤ, bytes_eq, found, absent}
use merkle_tree_certs.Log.Hash.{Bytes, HashValue}
use merkle_tree_certs.Log.Subtree.{is_valid_subtree}
use merkle_tree_certs.Config.Version.{DraftVersion}
use merkle_tree_certs.Config.Algorithm.{SignatureAlgorithm}
use merkle_tree_certs.Config.AnchorId.{id_string}
use merkle_tree_certs.Cosign.{KeyLibrary, CosignerPublic, PolicyError, new_cosigner_public}

pub record PolicyIndex : Type 0 where
  pub is_group : Bool
  pub index : ℕ

pub record PolicyGroup : Type 0 where
  pub name : Bytes
  pub num : ℤ
  pub members : List PolicyIndex

pub record RevokedRange : Type 0 where
  pub min_serial : ℕ
  pub max_serial : ℕ

pub record TrustedSubtree : Type 0 where
  pub log : ℕ
  pub start : ℕ
  pub end : ℕ
  pub hash : HashValue

-- Maps.
abbrev pub lookup {ℓ} : {A : Type ℓ} → Bytes → List (Bytes × A) → Option A
lookup key [] = none
lookup key ((k, a) ∷ rest) = if bytes_eq key k then some a else lookup key rest

-- A change through the pointer that the map holds for a key.
abbrev pub update {ℓ} : {A : Type ℓ} → Bytes → (A → A) → List (Bytes × A) → List (Bytes × A)
update key f [] = []
update key f ((k, a) ∷ rest) =
    let others = update key f rest in if bytes_eq key k then (k, f a) ∷ rest else (k, a) ∷ others

-- The indices of the members of a new group.
unfoldable pub member_indices :
    List (Bytes × PolicyIndex) → List Bytes → Outcome PolicyError (List PolicyIndex)
member_indices names [] = ok []
member_indices names (m ∷ ms) = do
  idx ← found PolicyError.unknown_member (lookup m names)
  rest ← member_indices names ms
  ok (idx ∷ rest)

-- `[0, minSerial-1]` and `[maxSerial+1, math.MaxUint64]` are revoked, where they are not empty.
abbrev pub outside_ranges : ℕ → ℕ → List RevokedRange
outside_ranges min_serial max_serial =
    let low : RevokedRange = record { min_serial = 0; max_serial = min_serial - 1 } in
    let high : RevokedRange = record { min_serial = max_serial + 1; max_serial = 2 ^ 64 - 1 } in
    (if ltb 0 min_serial then low ∷ [] else [])
    ++ (if ltb max_serial (2 ^ 64 - 1) then high ∷ [] else [])

module _ (Certificate : Type 0) where
  pub record TrustedCa : Type 0 where
    pub certificate : Certificate
    pub cosigner_index : ℕ
    pub requirements : List PolicyIndex
    pub revoked_ranges : List RevokedRange
    pub trusted_subtrees : List TrustedSubtree

-- The first trusted subtree of a CA with the log number and the ends that are asked for.
unfoldable pub find_trusted_subtree : List TrustedSubtree → ℕ → ℕ → ℕ → Option HashValue
find_trusted_subtree [] log start end = none
find_trusted_subtree (t ∷ ts) log start end =
    let others = find_trusted_subtree ts log start end in
    if t.log == log && t.start == start && t.end == end then some t.hash else others

module _ (keys : KeyLibrary) (Certificate : Type 0) where
  pub record Policy : Type 0 where
    pub version : DraftVersion
    pub names : List (Bytes × PolicyIndex)
    pub cosigners : List (CosignerPublic keys)
    pub groups : List PolicyGroup
    pub requirements_for_all_cas : List PolicyIndex
    pub cas : List (Bytes × TrustedCa Certificate)

  unfoldable pub add_cosigner :
      Policy → Bytes → SignatureAlgorithm → Bytes → Outcome PolicyError Policy
  add_cosigner p id sig_alg spki = do
    absent PolicyError.already_defined (lookup (id_string id) p.names)
    pub_key ← found PolicyError.malformed_key (keys.parse_pkix_public_key spki)
    cosigner ← new_cosigner_public keys p.version id sig_alg pub_key
    let cosigners = p.cosigners ++ (cosigner ∷ [])
    let idx : PolicyIndex = record { is_group = false; index = length cosigners - 1 }
    ok (record p { names = (id_string id, idx) ∷ p.names; cosigners = cosigners })

  unfoldable pub add_group : Policy → Bytes → ℤ → List Bytes → Outcome PolicyError Policy
  add_group p name num members = do
    absent PolicyError.already_defined (lookup name p.names)
    indices ← member_indices p.names members
    let group : PolicyGroup = record { name = name; num = num; members = indices }
    let idx : PolicyIndex = record { is_group = true; index = length p.groups }
    ok (record p { names = (name, idx) ∷ p.names; groups = p.groups ++ (group ∷ []) })

  -- The change of the entry of a CA through its pointer.
  abbrev pub with_ca : Policy → Bytes → (TrustedCa Certificate → TrustedCa Certificate) → Policy
  with_ca p ca f = record p { cas = update ca f p.cas }

  unfoldable pub require_cosigners_for_ca : Policy → Bytes → Bytes → Outcome PolicyError Policy
  require_cosigners_for_ca p ca name = do
    idx ← found PolicyError.unknown_name (lookup name p.names)
    entry ← found PolicyError.unknown_ca (lookup (id_string ca) p.cas)
    ok (with_ca p (id_string ca) (λ t. record t { requirements = t.requirements ++ (idx ∷ []) }))

  unfoldable pub require_cosigners_for_all_cas : Policy → Bytes → Outcome PolicyError Policy
  require_cosigners_for_all_cas p name = do
    idx ← found PolicyError.unknown_name (lookup name p.names)
    ok (record p { requirements_for_all_cas = p.requirements_for_all_cas ++ (idx ∷ []) })

  unfoldable pub revoke_range : Policy → Bytes → ℕ → ℕ → Outcome PolicyError Policy
  revoke_range p ca min_serial max_serial = do
    check (not (ltb max_serial min_serial)) PolicyError.reversed_range
    entry ← found PolicyError.unknown_ca (lookup (id_string ca) p.cas)
    let range : RevokedRange = record { min_serial = min_serial; max_serial = max_serial }
    ok (
        with_ca p (id_string ca)
          (λ t. record t { revoked_ranges = t.revoked_ranges ++ (range ∷ []) }))

  unfoldable pub add_trusted_subtree :
      Policy → Bytes → ℕ → ℕ → ℕ → HashValue → Outcome PolicyError Policy
  add_trusted_subtree p ca log start end hash = do
    check (is_valid_subtree start end) PolicyError.invalid_subtree
    entry ← found PolicyError.unknown_ca (lookup (id_string ca) p.cas)
    let subtree : TrustedSubtree = record { log = log; start = start; end = end; hash = hash }
    ok (
        with_ca p (id_string ca)
          (λ t. record t { trusted_subtrees = t.trusted_subtrees ++ (subtree ∷ []) }))

  -- `AddCA` from where the CA ID is known, for a certificate whose extension gave the algorithm and
  -- the serial numbers.
  unfoldable pub register_ca :
      Policy → Certificate → Bytes → SignatureAlgorithm → Bytes → ℕ → ℕ → Outcome PolicyError Policy
  register_ca p certificate ca_id sig_alg spki min_serial max_serial = do
    absent PolicyError.already_defined (lookup (id_string ca_id) p.cas)
    q ← add_cosigner p ca_id sig_alg spki
    let entry : TrustedCa Certificate = record {
      certificate = certificate;
      cosigner_index = length q.cosigners - 1;
      requirements = [];
      revoked_ranges = outside_ranges min_serial max_serial;
      trusted_subtrees = [];
    }
    ok (record q { cas = (id_string ca_id, entry) ∷ q.cas })

  unfoldable pub name_for_index : Policy → PolicyIndex → Outcome PolicyError Bytes
  name_for_index p idx =
      if idx.is_group
      then (do g ← must (get_elem? p.groups idx.index); ok g.name)
      else (do c ← must (get_elem? p.cosigners idx.index); ok (id_string c.id))
