-- ===== src/Encode/Properties.antt =====
-- `MarshalCertificatePropertyList` of demo/encode.go.
use merkle_tree_certs.Prelude.{ℕ, List, [], ◌∷◌, length, ◌==◌, not, if◌then◌else◌, ok}
use merkle_tree_certs.Log.Hash.{Bytes}
use merkle_tree_certs.Config.Structs.{CertificatePropertyList}
use merkle_tree_certs.Cryptobyte.{Cryptobyte, Build, ◌+++◌, around}

abbrev pub property_trust_anchor_id : ℕ
property_trust_anchor_id = 0

abbrev pub property_trust_anchor_groups : ℕ
property_trust_anchor_groups = 1

abbrev pub property_trust_anchor_negotiation : ℕ
property_trust_anchor_negotiation = 2

module _ (cb : Cryptobyte) where
  -- A property: its number and its data with a length.
  abbrev pub property : ℕ → Build → Build
  property number data_of = ok (cb.add_uint16 number) +++ around cb.add_uint16_prefixed data_of

  unfoldable pub add_patterns : List Bytes → Build
  add_patterns [] = ok []
  add_patterns (p ∷ ps) = around cb.add_uint8_prefixed (ok p) +++ add_patterns ps

  unfoldable pub marshal_certificate_property_list : CertificatePropertyList → Build
  marshal_certificate_property_list l =
      let id = property property_trust_anchor_id (ok l.trust_anchor_id) in
      let groups =
        property property_trust_anchor_groups
          (around cb.add_uint16_prefixed (add_patterns l.trust_anchor_groups)) in
      let negotiation = property property_trust_anchor_negotiation (ok []) in
      around cb.add_uint16_prefixed (
        (if not (length l.trust_anchor_id == 0) then id else ok [])
        +++ ((if not (length l.trust_anchor_groups == 0) then groups else ok [])
            +++ (if l.trust_anchor_negotiation then negotiation else ok [])))
