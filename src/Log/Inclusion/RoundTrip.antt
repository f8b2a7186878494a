-- ===== src/Log/Inclusion/RoundTrip.antt =====
-- An inclusion proof evaluates to the hash of its subtree: generator and evaluator, level by level.
use native.Mathlib.Nat.{pow-suc}
use native.Mathlib.Decide.{dec_lt}
use mathlib.Core.List.{append_assoc, append-nil}
use merkle_tree_certs.Prelude.{ℕ, zero, suc, ◌+◌, ◌-◌, ◌*◌, ◌/◌, ◌%◌, ◌^◌, ◌≤◌, ◌<◌}
use merkle_tree_certs.Prelude.{◌≡◌, refl, sym, ap, ◌∙◌, arith, inl, inr}
use merkle_tree_certs.Prelude.{==_iff, le→ltb, lt→ltb}
use merkle_tree_certs.Prelude.{[], ◌++◌, length, length-append}
use merkle_tree_certs.Prelude.{ok}
use merkle_tree_certs.Bits.Powers.{mul-two-pow-suc, shift-even, parity}
use merkle_tree_certs.Log.Hash.{Bytes, HashValue, Digest, hash_size, hash_node}
use merkle_tree_certs.Log.Tree.{MerkleTree}
use merkle_tree_certs.Log.Mth.{Mth, Mth-ends, IsTreeOf}
use merkle_tree_certs.Log.Inclusion.{add_neighbor, inclusion_loop, evaluate_loop}
use merkle_tree_certs.Log.Inclusion.Neighbors.{
  IsLast, IsNode, IsLast-next, neighbor_left, neighbor_right, neighbor_none,
}
use merkle_tree_certs.Log.Inclusion.Evaluate.{
  evaluate_loop-climb, evaluate_loop-left, evaluate_loop-right,
}

module _ (sha256 : Digest) where
  -- A round of the evaluator that takes a hash needs one unit of fuel.
  take_left :
      (f fn sn : ℕ) (r h : HashValue) (rest : Bytes)
      → length h ≡ hash_size
      → 0 < sn
      → fn % 2 ≡ 1
      → length (h ++ rest) ≤ f
      → evaluate_loop sha256 f fn sn r (h ++ rest)
        ≡ evaluate_loop sha256 (f - 1) (fn / 2) (sn / 2) (hash_node sha256 h r) rest
  take_left zero fn sn r h rest len p odd enough = absurd (omega (arith, length-append h rest))
  take_left (suc f) fn sn r h rest len p odd enough =
      let e : suc f - 1 ≡ f = omega arith in
      rw e (evaluate_loop-left sha256 f fn sn r h rest len p odd)

  take_right :
      (f fn sn : ℕ) (r h : HashValue) (rest : Bytes)
      → length h ≡ hash_size
      → fn < sn
      → fn % 2 ≡ 0
      → length (h ++ rest) ≤ f
      → evaluate_loop sha256 f fn sn r (h ++ rest)
        ≡ evaluate_loop sha256 (f - 1) (fn / 2) (sn / 2) (hash_node sha256 r h) rest
  take_right zero fn sn r h rest len p even enough = absurd (omega (arith, length-append h rest))
  take_right (suc f) fn sn r h rest len p even enough =
      let e : suc f - 1 ≡ f = omega arith in
      rw e (evaluate_loop-right sha256 f fn sn r h rest len p even)

  evaluate_done : (f fn sn : ℕ) (r : HashValue) → sn ≡ 0 → evaluate_loop sha256 f fn sn r [] ≡ ok r
  unfolding evaluate_loop
  evaluate_done zero fn sn r e = rw ((==_iff sn 0).1 e) refl
  evaluate_done (suc f) fn sn r e = rw ((==_iff sn 0).1 e) refl

module _ (sha256 : Digest) (leaf : ℕ → HashValue) (mt : MerkleTree) (n end : ℕ)
    (tree : IsTreeOf sha256 leaf mt n) (leaves : (i : ℕ) → length (leaf i) ≡ hash_size)
    (within : end ≤ n) (bound : n < 2 ^ 64) where
  abbrev pub AtNode : ℕ → ℕ → ℕ → HashValue → Type 0
  AtNode = IsNode sha256 leaf mt n end tree leaves within bound

  abbrev pub AtLast : ℕ → ℕ → Type 0
  AtLast = IsLast sha256 leaf mt n end tree leaves within bound

  -- What the loops come to from a level on: the generator appends `tail`, with which the evaluator
  -- reaches the hash of the subtree.
  pub record Meets (k fuel level start index last : ℕ) (r : HashValue) (proof : Bytes)
      : Type 0 where
    pub tail : Bytes
    pub root : HashValue
    pub generates :
        inclusion_loop sha256 mt fuel end level start index last proof ≡ ok (proof ++ tail)
    pub evaluates :
        (f : ℕ)
        → length tail ≤ f
        → evaluate_loop sha256 f (index - start) (last - start) r tail ≡ ok root
    pub is_root : Mth sha256 leaf (start * 2 ^ level) end root
    pub short : length tail ≤ hash_size * k

  -- On the level of the subtree both loops stop.
  Meets-top :
      (k fuel level start index last : ℕ) (r : HashValue) (proof : Bytes)
      → last ≤ start
      → start ≤ index
      → AtNode level last index r
      → Meets k (suc fuel) level start index last r proof
  Meets-top k fuel level start index last r proof done le (hi, m, inr (less, e)) =
      absurd (omega arith)
  Meets-top k fuel level start index last r proof done le (hi, m, inl (same, e)) = record {
    tail = [];
    root = r;
    generates =
        unfold inclusion_loop in rw (le→ltb start last done) (ap ok (sym (append-nil proof)));
    evaluates = λ f _. evaluate_done sha256 f (index - start) (last - start) r (omega arith);
    is_root = Mth-ends sha256 leaf (ap (λ t. t * 2 ^ level) (omega arith)) e m;
    short = omega arith;
  }

  module _ (k fuel level start index last : ℕ) (r : HashValue) (proof : Bytes) (less : start < last)
      (even : start % 2 ≡ 0) where
    fn_half : start ≤ index → (index - start) / 2 ≡ index / 2 - start / 2
    fn_half le = omega arith

    sn_half : (last - start) / 2 ≡ last / 2 - start / 2
    sn_half = omega arith

    -- The generator's round, with what it appends.
    loop_round :
        (proof' : Bytes)
        → add_neighbor sha256 mt end level index last proof ≡ ok proof'
        → inclusion_loop sha256 mt (suc fuel) end level start index last proof
          ≡ inclusion_loop sha256 mt fuel end (level + 1) (start / 2) (index / 2) (last / 2) proof'
    loop_round proof' e = unfold inclusion_loop in rw (lt→ltb start last less, e) refl

    start_up : start / 2 * 2 ^ (level + 1) ≡ start * 2 ^ level
    start_up = sym (shift-even start level even)

    -- A round in which a hash `h` is appended, and taken.
    Meets-hash :
        (h r' : HashValue)
        → start ≤ index
        → length h ≡ hash_size
        → add_neighbor sha256 mt end level index last proof ≡ ok (proof ++ h)
        → ((f : ℕ) (rest : Bytes)
            → length (h ++ rest) ≤ f
            → evaluate_loop sha256 f (index - start) (last - start) r (h ++ rest)
              ≡ evaluate_loop sha256 (f - 1) ((index - start) / 2) ((last - start) / 2) r' rest)
        → Meets k fuel (level + 1) (start / 2) (index / 2) (last / 2) r' (proof ++ h)
        → Meets (suc k) (suc fuel) level start index last r proof
    Meets-hash h r' le len added taken up = record {
      tail = h ++ up.tail;
      root = up.root;
      generates =
          loop_round (proof ++ h) added ∙ up.generates ∙ ap ok (append_assoc proof h up.tail);
      evaluates = λ f enough.
          taken f up.tail enough
          ∙ rw (fn_half le, sn_half)
              (up.evaluates (f - 1) (omega (arith, enough, len, length-append h up.tail)));
      is_root = Mth-ends sha256 leaf start_up refl up.is_root;
      short = omega (arith, up.short, len, length-append h up.tail);
    }

    -- A round with no neighbour: the evaluator waits for the next hash.
    Meets-none :
        index ≡ last
        → index % 2 ≡ 0
        → last < 2 ^ 64
        → add_neighbor sha256 mt end level index last proof ≡ ok proof
        → Meets k fuel (level + 1) (start / 2) (index / 2) (last / 2) r proof
        → Meets (suc k) (suc fuel) level start index last r proof
    Meets-none same even_index bound_last added up = record {
      tail = up.tail;
      root = up.root;
      generates = loop_round proof added ∙ up.generates;
      evaluates = λ f enough.
          evaluate_loop-climb sha256 f (index - start) (last - start) r up.tail (omega arith)
            (omega arith) (omega arith) (omega arith)
          ∙ rw (fn_half (omega arith), sn_half) (up.evaluates f enough);
      is_root = Mth-ends sha256 leaf start_up refl up.is_root;
      short = omega (arith, up.short);
    }

  -- From any node of a level inside the subtree, `k` levels below its root.
  pub meets :
      (k fuel level m start index last : ℕ) (r : HashValue) (proof : Bytes)
      → k < fuel
      → start ≡ m * 2 ^ k
      → start ≤ index
      → index ≤ last
      → last < start + 2 ^ k
      → last < 2 ^ 64
      → AtLast level last
      → AtNode level last index r
      → Meets k fuel level start index last r proof
  meets k zero level m start index last r proof f es lo hi lt small here node = absurd (omega arith)
  meets zero (suc fuel) level m start index last r proof f es lo hi lt small here node =
      Meets-top zero fuel level start index last r proof (omega arith) lo node
  meets (suc k) (suc fuel) level m start index last r proof f es lo hi lt small here node =
      let half : start / 2 ≡ m * 2 ^ k = omega (arith, mul-two-pow-suc m k) in
      let even : start % 2 ≡ 0 = omega (arith, mul-two-pow-suc m k) in
      let up : (r' : HashValue) (proof' : Bytes)
          → AtNode (level + 1) (last / 2) (index / 2) r'
          → Meets k fuel (level + 1) (start / 2) (index / 2) (last / 2) r' proof' =
        λ r' proof' node'.
          meets k fuel (level + 1) m (start / 2) (index / 2) (last / 2) r' proof' (omega arith) half
            (omega arith) (omega arith) (omega (arith, even, pow-suc 2 k)) (omega arith)
            (IsLast-next sha256 leaf mt n end tree leaves within bound level last here) node' in
      elim (dec_lt start last) [
        | no done ↦ Meets-top (suc k) fuel level start index last r proof (omega arith) lo node
        | yes less ↦ elim (parity index) [
          | inr odd ↦
              let (h, added, len, node') =
                neighbor_left sha256 leaf mt n end tree leaves within bound level last index r proof
                  here node hi odd in
              Meets-hash k fuel level start index last r proof less even h (hash_node sha256 h r) lo
                len added
                (λ g rest enough.
                  take_left sha256 g (index - start) (last - start) r h rest len (omega arith)
                    (omega (arith, even)) enough)
                (up (hash_node sha256 h r) (proof ++ h) node')
          | inl even_index ↦ elim (dec_lt index last) [
            | yes inner ↦
                let (h, added, len, node') =
                  neighbor_right sha256 leaf mt n end tree leaves within bound level last index r
                    proof here node inner even_index in
                Meets-hash k fuel level start index last r proof less even h (hash_node sha256 r h)
                  lo len added
                  (λ g rest enough.
                    take_right sha256 g (index - start) (last - start) r h rest len (omega arith)
                      (omega (arith, even)) enough)
                  (up (hash_node sha256 r h) (proof ++ h) node')
            | no edge ↦
                let same : index ≡ last = omega arith in
                let (added, node') =
                  neighbor_none sha256 leaf mt n end tree leaves within bound level last index r
                    proof node same even_index in
                Meets-none k fuel level start index last r proof less even same even_index small
                  added (up r proof node')
          ]
        ]
      ]
