-- ===== src/Config/Version.antt =====
-- `DraftVersion` of demo/config.go.
use merkle_tree_certs.Prelude.{ℕ, Bool, ltb, leb}

pub data DraftVersion : Type 0 where
  version_davidben09 version_davidben10 version_plants01 version_plants02 : DraftVersion
  version_plants04 version_plants05 version_plants06 version_plants07 : DraftVersion

-- The constants are numbered by `iota`.
abbrev pub number : DraftVersion → ℕ
number version_davidben09 = 0
number version_davidben10 = 1
number version_plants01 = 2
number version_plants02 = 3
number version_plants04 = 4
number version_plants05 = 5
number version_plants06 = 6
number version_plants07 = 7

-- `v < w` and `v <= w`.
abbrev pub version_lt : DraftVersion → DraftVersion → Bool
version_lt v w = ltb (number v) (number w)

abbrev pub version_le : DraftVersion → DraftVersion → Bool
version_le v w = leb (number v) (number w)
