-- ===== src/Policy/File/InRange.antt =====
-- The bounds of what a policy file of demo/verify.go asks for.
use merkle_tree_certs.Prelude.{
  ℕ, ℤ, ◌^◌, ◌<◌, ◌≤◌, ◌≡◌, refl, sym, ap, ◌∙◌, arith, List, [], ◌∷◌, length, All, Option, Bool,
  if◌then◌else◌, Bool-cases, inl, inr,
}
use merkle_tree_certs.Prelude.{
  Outcome, ok, ◌>>=◌, check, passed, found, >>=-eq-ok, ok_subst, lift_err-ok, bytes_eq, codes, ltb,
  ltb→lt, ◌==◌, ==_iff, ◌||◌, not, true, false,
}
use merkle_tree_certs.Log.Hash.{Bytes, hash_size}
use merkle_tree_certs.Config.FromText.{
  TextError, atoi, parse_digits, parse_uint, id_from_string, parse_serial,
}
use merkle_tree_certs.Config.Names.{algorithm_from_string}
use merkle_tree_certs.Cosign.{KeyLibrary, PolicyError}
use merkle_tree_certs.Policy.{Policy}
use merkle_tree_certs.Policy.Build.{Operation, apply, build}
use merkle_tree_certs.Policy.File.{
  FileError, without_comment, fields, text, in_range, group_number, cosigner_command, group_command,
  require_cosigners_command, revoke_range_command, trusted_subtree_command, parse_command,
  run_fields, parse_policy_file,
}

-- A group asks for one to all of its members; a trusted subtree has a log number of 16 bits,
-- coordinates of 48 bits and a hash of the digest's size; and no command adds a CA.
abbrev pub IsInRange : {Certificate : Type 0} → Operation Certificate → Type 0
IsInRange (Operation.cosigner id alg spki) = Unit {0}
IsInRange (Operation.group name num members) =
    (n : ℕ) × (num ≡ ℤ.pos n) × (0 < n) × (n ≤ length members)
IsInRange (Operation.require_for_ca id name) = Unit {0}
IsInRange (Operation.require_for_all name) = Unit {0}
IsInRange (Operation.revoke id lo hi) = Unit {0}
IsInRange (Operation.trust id log start end hash) =
    (log < 2 ^ 16) × (start < 2 ^ 48) × (end < 2 ^ 48) × (length hash ≡ hash_size)
IsInRange (Operation.ca certificate id alg spki lo hi) = ⊥

parse_uint_bound : (bits : ℕ) (s : Bytes) (v : ℕ) → parse_uint bits s ≡ ok v → v < 2 ^ bits
unfolding parse_uint
parse_uint_bound bits s v e =
    let (u, _, f) = >>=-eq-ok (check (not (length s == 0)) TextError.bad_number) _ e in
    let (w, _, g) = >>=-eq-ok (parse_digits 0 s) _ f in
    let (u', small, h) = >>=-eq-ok (check (ltb w (2 ^ bits)) TextError.bad_number) _ g in
    ok_subst (λ t. t < 2 ^ bits) h
      (ltb→lt w (2 ^ bits) (passed (ltb w (2 ^ bits)) TextError.bad_number small))

abbrev IsQuorum : ℕ → ℤ → Type 0
IsQuorum size num = (n : ℕ) × (num ≡ ℤ.pos n) × (0 < n) × (n ≤ size)

in_range-IsQuorum : (size : ℕ) (num n : ℤ) → in_range size num ≡ ok n → IsQuorum size n
in_range-IsQuorum size (ℤ.negsuc k) n e = cc
in_range-IsQuorum size (ℤ.pos k) n e =
    let fits = not (k == 0 || ltb size k) in
    let (u, c, f) = >>=-eq-ok (check fits FileError.bad_group_number) _ e in
    let fitting : fits ≡ true = passed fits FileError.bad_group_number c in
    ok_subst (IsQuorum size) f (k, refl, ground arith, ground arith)

group_number-IsQuorum :
    (num : Bytes) (size : ℕ) (n : ℤ) → 0 < size → group_number num size ≡ ok n → IsQuorum size n
unfolding group_number
group_number-IsQuorum num size n h e = elim (Bool-cases (bytes_eq num (codes "any"))) [
  | inl t ↦
      let e' : ok (ℤ.pos 1) ≡ ok n = rw t at e in
      ok_subst (IsQuorum size) e' (1, refl, omega arith, h)
  | inr f ↦
      let e1 = rw f at e in
      elim (Bool-cases (bytes_eq num (codes "all"))) [
        | inl t ↦
            let e' : ok (ℤ.pos size) ≡ ok n = rw t at e1 in
            ok_subst (IsQuorum size) e' (size, refl, h, omega arith)
        | inr f' ↦
            let e2 : (text (atoi num) >>= in_range size) ≡ ok n = rw f' at e1 in
            let (k, _, g) = >>=-eq-ok (text (atoi num)) _ e2 in in_range-IsQuorum size k n g
      ]
]

module _ (Certificate : Type 0) (base64 : Bytes → Option Bytes) where
  group_command-IsInRange :
      (args : List Bytes) (op : Operation Certificate)
      → group_command Certificate base64 args ≡ ok op
      → IsInRange op
  group_command-IsInRange [] op e = cc
  group_command-IsInRange (a ∷ []) op e = cc
  group_command-IsInRange (a ∷ b ∷ []) op e = cc
  group_command-IsInRange (name ∷ num ∷ m ∷ ms) op e =
      let (n, en, f) = >>=-eq-ok (group_number num (length (m ∷ ms))) _ e in
      ok_subst IsInRange f (group_number-IsQuorum num (length (m ∷ ms)) n (omega arith) en)

  text_bound : (bits : ℕ) (s : Bytes) (v : ℕ) → text (parse_uint bits s) ≡ ok v → v < 2 ^ bits
  text_bound bits s v e =
      parse_uint_bound bits s v (lift_err-ok FileError.bad_text (parse_uint bits s) v e)

  trusted_subtree_command-IsInRange :
      (args : List Bytes) (op : Operation Certificate)
      → trusted_subtree_command Certificate base64 args ≡ ok op
      → IsInRange op
  trusted_subtree_command-IsInRange [] op e = cc
  trusted_subtree_command-IsInRange (a ∷ []) op e = cc
  trusted_subtree_command-IsInRange (a ∷ b ∷ []) op e = cc
  trusted_subtree_command-IsInRange (a ∷ b ∷ c ∷ []) op e = cc
  trusted_subtree_command-IsInRange (a ∷ b ∷ c ∷ d ∷ []) op e = cc
  trusted_subtree_command-IsInRange (a ∷ b ∷ c ∷ d ∷ h ∷ x ∷ xs) op e = cc
  trusted_subtree_command-IsInRange (a ∷ b ∷ c ∷ d ∷ h ∷ []) op e =
      let (id, _, f) = >>=-eq-ok (text (id_from_string a)) _ e in
      let (log, el, g) = >>=-eq-ok (text (parse_uint 16 b)) _ f in
      let (start, es, i) = >>=-eq-ok (text (parse_uint 48 c)) _ g in
      let (end, ee, j) = >>=-eq-ok (text (parse_uint 48 d)) _ i in
      let (hash, _, k) = >>=-eq-ok (found FileError.bad_hash (base64 h)) _ j in
      let (u, size, l) = >>=-eq-ok (check (length hash == hash_size) FileError.bad_hash) _ k in
      ok_subst IsInRange l (
        text_bound 16 b log el,
        text_bound 48 c start es,
        text_bound 48 d end ee,
        (==_iff (length hash) hash_size).0
            (passed (length hash == hash_size) FileError.bad_hash size),
      )

  cosigner_command-IsInRange :
      (args : List Bytes) (op : Operation Certificate)
      → cosigner_command Certificate base64 args ≡ ok op
      → IsInRange op
  cosigner_command-IsInRange [] op e = cc
  cosigner_command-IsInRange (a ∷ []) op e = cc
  cosigner_command-IsInRange (a ∷ b ∷ []) op e = cc
  cosigner_command-IsInRange (a ∷ b ∷ c ∷ x ∷ xs) op e = cc
  cosigner_command-IsInRange (a ∷ b ∷ c ∷ []) op e =
      let (id, _, f) = >>=-eq-ok (text (id_from_string a)) _ e in
      let (alg, _, g) =
        >>=-eq-ok (found FileError.unknown_algorithm (algorithm_from_string b)) _ f in
      let (spki, _, h) = >>=-eq-ok (found FileError.bad_base64 (base64 c)) _ g in
      ok_subst IsInRange h tt

  require_cosigners_command-IsInRange :
      (args : List Bytes) (op : Operation Certificate)
      → require_cosigners_command Certificate base64 args ≡ ok op
      → IsInRange op
  require_cosigners_command-IsInRange [] op e = cc
  require_cosigners_command-IsInRange (a ∷ []) op e = cc
  require_cosigners_command-IsInRange (a ∷ b ∷ x ∷ xs) op e = cc
  require_cosigners_command-IsInRange (a ∷ b ∷ []) op e =
      elim (Bool-cases (bytes_eq a (codes "all"))) [
        | inl t ↦
            let e' : ok (Operation.require_for_all b) ≡ ok op = rw t at e in
            ok_subst IsInRange e' tt
        | inr n ↦
            let e' = rw n at e in
            let (id, _, f) = >>=-eq-ok (text (id_from_string a)) _ e' in ok_subst IsInRange f tt
      ]

  revoke_range_command-IsInRange :
      (args : List Bytes) (op : Operation Certificate)
      → revoke_range_command Certificate base64 args ≡ ok op
      → IsInRange op
  revoke_range_command-IsInRange [] op e = cc
  revoke_range_command-IsInRange (a ∷ []) op e = cc
  revoke_range_command-IsInRange (a ∷ b ∷ []) op e = cc
  revoke_range_command-IsInRange (a ∷ b ∷ c ∷ x ∷ xs) op e = cc
  revoke_range_command-IsInRange (a ∷ b ∷ c ∷ []) op e =
      let (id, _, f) = >>=-eq-ok (text (id_from_string a)) _ e in
      let (lo, _, g) = >>=-eq-ok (text (parse_serial b)) _ f in
      let (hi, _, h) = >>=-eq-ok (text (parse_serial c)) _ g in ok_subst IsInRange h tt

  -- Every command that an outcome may be is in range.
  abbrev AreInRange : Outcome FileError (Operation Certificate) → Type 0
  AreInRange m = (op : Operation Certificate) → m ≡ ok op → IsInRange op

  either_command :
      (b : Bool) (m n : Outcome FileError (Operation Certificate))
      → AreInRange m
      → AreInRange n
      → AreInRange (if b then m else n)
  either_command true m n h k = h
  either_command false m n h k = k

  parse_command-IsInRange :
      (cmd : Bytes) (args : List Bytes) → AreInRange (parse_command Certificate base64 cmd args)
  unfolding parse_command
  parse_command-IsInRange cmd args =
      either_command (bytes_eq cmd (codes "cosigner")) _ _ (cosigner_command-IsInRange args) (
        either_command (bytes_eq cmd (codes "group")) _ _ (group_command-IsInRange args) (
          either_command (bytes_eq cmd (codes "require-cosigners")) _ _
            (require_cosigners_command-IsInRange args)
            (either_command (bytes_eq cmd (codes "revoke-range")) _ _
              (revoke_range_command-IsInRange args)
              (either_command (bytes_eq cmd (codes "trusted-subtree")) _ _
                (trusted_subtree_command-IsInRange args) (λ op e. cc)))))

  module _ (keys : KeyLibrary) where
    line_made :
        (p q r : Policy keys Certificate) (fs : List Bytes)
        → run_fields Certificate base64 keys p fs ≡ ok r
        → (ops : List (Operation Certificate)) × All IsInRange ops
          × (build keys Certificate r ops ≡ ok q)
        → (ops : List (Operation Certificate)) × All IsInRange ops
          × (build keys Certificate p ops ≡ ok q)
    unfolding build
    line_made p q r [] h (ops, all, made) =
        let same : r ≡ p = ok_subst (λ t. t ≡ p) h refl in
        (ops, all, ap (λ t. build keys Certificate t ops) (sym same) ∙ made)
    line_made p q r (cmd ∷ args) h (ops, all, made) =
        let (op, eo, f) = >>=-eq-ok (parse_command Certificate base64 cmd args) _ h in
        let step = lift_err-ok FileError.rejected (apply keys Certificate p op) r f in
        (op ∷ ops, (parse_command-IsInRange cmd args op eo, all), rw step made)

    -- Whatever a policy file holds, where it is read, some operations in the given order make the
    -- policy that it leaves, and all of them are in range: a group asks for one to all of its
    -- members, a trusted subtree has a log number of 16 bits, coordinates of 48 bits and a hash of
    -- 32 bytes, and no operation adds a CA.
    pub parse_policy_file-IsInRange :
        (p q : Policy keys Certificate) (lines : List Bytes)
        → parse_policy_file Certificate base64 keys p lines ≡ ok q
        → (ops : List (Operation Certificate)) × All IsInRange ops
          × (build keys Certificate p ops ≡ ok q)
    unfolding parse_policy_file build
    parse_policy_file-IsInRange p q [] e = (
      [],
      tt,
      ok_subst (λ t. ◌≡◌ {A = Outcome PolicyError (Policy keys Certificate)} (ok p) (ok t)) e refl,
    )
    parse_policy_file-IsInRange p q (line ∷ lines) e =
        let (r, e1, f1) =
          >>=-eq-ok (run_fields Certificate base64 keys p (fields (without_comment line))) _ e in
        line_made p q r (fields (without_comment line)) e1
          (parse_policy_file-IsInRange r q lines f1)
