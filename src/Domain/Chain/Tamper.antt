-- ===== src/Domain/Chain/Tamper.antt =====
-- What the hash at the head of a verified chain says of the rows behind it.
use aegisops_ai.Base.{
  ◌≡◌, ◌≢◌, sym, ◌∙◌, ap, ◌⊎◌, inl, inr, true, Bool-cases, List, [], ◌∷◌, length, arith, All,
}
use aegisops_ai.Domain.Execution.{Bytes}
use aegisops_ai.Domain.Chain.{Format, AuditEntry, compute_hash, preimage, equal_bytes, verify_chain}
use aegisops_ai.Domain.Chain.Verified.{
  Links, Linked, last_hash, equal_bytes-eq, equal_bytes_refl, verify_chain_sound,
}
use aegisops_ai.Domain.Chain.Preimage.{SameContent, Storable, preimage_inj}

module _ (f : Format) where
  -- Two different texts with one hash, written out.
  pub record Collision : Type 0 where
    pub one : Bytes
    pub other : Bytes
    pub differ : one ≢ other
    pub collide : f.sha256 one ≡ f.sha256 other

  -- Row by row the same content.
  abbrev pub SameRows : List AuditEntry → List AuditEntry → Type 0
  SameRows [] [] = Unit
  SameRows [] (_ ∷ _) = ⊥
  SameRows (_ ∷ _) [] = ⊥
  SameRows (a ∷ as') (b ∷ bs) = SameContent f a b × SameRows as' bs

  -- One hash, one content, or a collision.
  link_back :
      (start start' : Bytes) (a b : AuditEntry)
      → length start ≡ length start'
      → Storable f a
      → Storable f b
      → Links f start a
      → Links f start' b
      → a.hash ≡ b.hash
      → ((start ≡ start') × SameContent f a b) ⊎ Collision
  unfolding compute_hash
  link_back start start' a b l sa sb la lb e =
      elim (Bool-cases (equal_bytes (preimage f start a) (preimage f start' b))) [
        | inl same ↦ inl (preimage_inj f start start' a b l sa sb (equal_bytes-eq _ _ same))
        | inr differs ↦ inr (record {
          one = preimage f start a;
          other = preimage f start' b;
          differ = λ p. cc (
            differs,
            ap (equal_bytes (preimage f start a)) p,
            equal_bytes_refl (preimage f start a),
          );
          collide = la.0 ∙ e ∙ sym lb.0;
        })
      ]

  hash_length :
      ((b : Bytes) → length (f.sha256 b) ≡ 32)
      → (start : Bytes) (a : AuditEntry) → Links f start a
      → length a.hash ≡ 32
  unfolding compute_hash
  hash_length n start a l = ap length (sym l.0) ∙ n (preimage f start a)

  chains_agree :
      ((b : Bytes) → length (f.sha256 b) ≡ 32)
      → (start start' : Bytes) (rows rows' : List AuditEntry) → length start ≡ length start'
      → length rows ≡ length rows'
      → All (Storable f) rows
      → All (Storable f) rows'
      → Linked f start rows
      → Linked f start' rows'
      → last_hash f start rows ≡ last_hash f start' rows'
      → ((start ≡ start') × SameRows rows rows') ⊎ Collision
  chains_agree n start start' [] [] l k s s' c c' e = inl (e, tt)
  chains_agree n start start' [] (_ ∷ _) l k s s' c c' e = absurd (omega arith)
  chains_agree n start start' (_ ∷ _) [] l k s s' c c' e = absurd (omega arith)
  chains_agree n start start' (a ∷ rows) (b ∷ rows') l k s s' c c' e =
      elim (chains_agree n a.hash b.hash rows rows'
        (hash_length n start a c.0 ∙ sym (hash_length n start' b c'.0)) (omega arith) s.1 s'.1 c.1
        c'.1 e) [
          | inr collision ↦ inr collision
          | inl (same, rest) ↦ elim (link_back start start' a b l s.0 s'.0 c.0 c'.0 same) [
            | inr collision ↦ inr collision
            | inl (starts, content) ↦ inl (starts, (content, rest))
          ]
        ]

  valid-Linked :
      (entries : List AuditEntry) (start : Bytes)
      → (verify_chain f entries start).valid ≡ true
      → Linked f start entries
  valid-Linked entries start v = elim (verify_chain_sound f entries start) [
    | inl good ↦ good.1
    | inr broken ↦ cc (v, broken.0)
  ]

  -- With a 32-byte hash, two runs of as many rows that VerifyChain both finds valid, and that end in
  -- the same hash, start from the same hash and agree row by row in all that the hash commits to; or
  -- a collision of the hash function can be written down. The fields are shorter than 2^64 bytes.
  pub tamper_evident :
      (entries entries' : List AuditEntry) (start start' : Bytes)
      → ((b : Bytes) → length (f.sha256 b) ≡ 32)
      → length start ≡ length start'
      → length entries ≡ length entries'
      → All (Storable f) entries
      → All (Storable f) entries'
      → (verify_chain f entries start).valid ≡ true
      → (verify_chain f entries' start').valid ≡ true
      → last_hash f start entries ≡ last_hash f start' entries'
      → ((start ≡ start') × SameRows entries entries') ⊎ Collision
  tamper_evident entries entries' start start' n l k s s' v v' e =
      chains_agree n start start' entries entries' l k s s' (valid-Linked entries start v)
        (valid-Linked entries' start' v') e
