-- ===== src/Config/Structs.antt =====
-- The configuration of demo/config.go: what the JSON file holds. Times are values of Go's time
-- package, which the parameter stands for.
use merkle_tree_certs.Prelude.{ℕ, ℤ, Bool, List, Option}
use merkle_tree_certs.Log.Hash.{Bytes}
use merkle_tree_certs.Cryptobyte.{Oid}
use merkle_tree_certs.Config.Version.{DraftVersion}
use merkle_tree_certs.Config.Algorithm.{SignatureAlgorithm}

pub record SerialConfig : Type 0 where
  pub log : ℕ
  pub index : ℕ

pub record CosignerConfig : Type 0 where
  pub cosigner_id : Bytes
  pub signature_algorithm : SignatureAlgorithm
  pub private_key : Bytes

pub record SubjectConfig : Type 0 where
  pub country : List Bytes
  pub organization : List Bytes
  pub organizational_unit : List Bytes
  pub locality : List Bytes
  pub province : List Bytes
  pub street_address : List Bytes
  pub postal_code : List Bytes
  pub serial_number : Bytes
  pub common_name : Bytes

pub record Cosignature : Type 0 where
  pub cosigner_id : Bytes
  pub signature : Bytes

pub record CertificatePropertyList : Type 0 where
  pub trust_anchor_id : Bytes
  pub trust_anchor_groups : List Bytes
  pub trust_anchor_negotiation : Bool

pub record CertificateConfig : Type 0 where
  pub subtree_start : ℕ
  pub subtree_end : ℕ
  pub checkpoint : Bytes
  pub cosigners : List Bytes
  pub extra_cosignatures : List Cosignature
  pub bit_flip_proof : Bool
  pub unused_bit : Bool
  pub dont_sort_cosigners : Bool
  pub override_signature_algorithm : Bytes
  pub override_tbs_signature_algorithm : Bytes
  pub override_certificate_property_list : Option CertificatePropertyList

-- Go's time.Time with `t.UTC().Year()`, its two ASN.1 forms, `pkix.Name` and `asn1.BitString`: what
-- encoding them adds, or nothing on an error.
pub record X509 : Type 1 where
  pub Time : Type 0
  pub utc_year : Time → ℕ
  pub add_asn1_utc_time : Time → Option Bytes
  pub add_asn1_generalized_time : Time → Option Bytes
  pub marshal_name : SubjectConfig → Option Bytes
  pub marshal_bit_string : Bytes → ℕ → Option Bytes

module _ (x509 : X509) where
  pub record CertConfigBase : Type 0 where
    pub not_before : x509.Time
    pub not_after : x509.Time
    pub dns_names : List Bytes
    pub key_usage : ℕ
    pub ext_key_usage : List Oid
    pub is_ca : Option Bool
    pub max_path_len : Option ℤ

  pub record CaCertConfig : Type 0 where
    pub base : CertConfigBase
    pub min_serial : SerialConfig
    pub max_serial : SerialConfig
    pub override_mtc_ca_extension_oid : Oid
    pub override_mtc_ca_extension_value : Bytes

  pub record EntryConfig : Type 0 where
    pub repeat : ℕ
    pub null : Bool
    pub subject : SubjectConfig
    pub public_key : Bytes
    pub base : CertConfigBase
    pub checkpoints : List Bytes
    pub certificates : List CertificateConfig
    pub mtc_entry_extensions : Bytes

  pub record CaConfig : Type 0 where
    pub version : DraftVersion
    pub id : Bytes
    pub log_number : ℕ
    pub cosigners : List CosignerConfig
    pub ca_cert : CaCertConfig
    pub entries : List EntryConfig
