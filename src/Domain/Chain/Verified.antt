-- ===== src/Domain/Chain/Verified.antt =====
-- What VerifyChain's answer says of the ledger.
use aegisops_ai.Base.{
  ℕ, ◌≡◌, refl, ◌⊎◌, inl, inr, Bool-cases, true, false, List, [], ◌∷◌, ◌++◌, arith, ap, length,
}
use aegisops_ai.Domain.Execution.{Bytes}
use aegisops_ai.Domain.Chain.{
  Format, AuditEntry, compute_hash, equal_bytes, ChainVerification, verify_from, verify_chain,
}

pub equal_bytes-eq : (a b : Bytes) → equal_bytes a b ≡ true → a ≡ b
unfolding equal_bytes
equal_bytes-eq [] [] h = refl
equal_bytes-eq [] (b ∷ bs) h = cc
equal_bytes-eq (a ∷ xs) [] h = cc
equal_bytes-eq (a ∷ xs) (b ∷ bs) h =
    let head : a ≡ b = ground arith in
    let tail = equal_bytes-eq xs bs (ground arith) in cc (head, tail)

pub equal_bytes_refl : (a : Bytes) → equal_bytes a a ≡ true
unfolding equal_bytes
equal_bytes_refl [] = refl
equal_bytes_refl (a ∷ xs) = let rest = equal_bytes_refl xs in ground arith

module _ (f : Format) where
  -- The entry continues the chain at `prev`.
  abbrev pub Links : Bytes → AuditEntry → Type 0
  Links prev e = (compute_hash f prev e ≡ e.hash) × (prev ≡ e.prev_hash)

  -- Every entry continues the chain where the one before it left it.
  abbrev pub Linked : Bytes → List AuditEntry → Type 0
  Linked prev [] = Unit
  Linked prev (e ∷ rest) = Links prev e × Linked e.hash rest

  -- The hash at which entries leave the chain.
  abbrev pub last_hash : Bytes → List AuditEntry → Bytes
  last_hash prev [] = prev
  last_hash prev (e ∷ rest) = last_hash e.hash rest

  -- Where a verification that fails points.
  pub record FirstBreak (start : Bytes) (entries : List AuditEntry) (v : ChainVerification)
      : Type 0 where
    pub before : List AuditEntry
    pub entry : AuditEntry
    pub after : List AuditEntry
    pub split : entries ≡ before ++ entry ∷ after
    pub good : Linked start before
    pub bad : ¬ Links (last_hash start before) entry
    pub told : v.broken_at_seq ≡ entry.seq

  verify_from_cases :
      (total : ℕ) (start : Bytes) (entries : List AuditEntry)
      → ((verify_from f total start entries).valid ≡ true × Linked start entries)
        ⊎ ((verify_from f total start entries).valid ≡ false
            × FirstBreak start entries (verify_from f total start entries))
  unfolding verify_from
  verify_from_cases total start [] = inl (refl, tt)
  verify_from_cases total start (e ∷ rest) =
      elim (Bool-cases (equal_bytes (compute_hash f start e) e.hash)) [
        | inr altered_ ↦ rw altered_ (
            inr (
              refl,
              record {
                before = [];
                entry = e;
                after = rest;
                split = refl;
                good = tt;
                bad = λ l. cc (
                  altered_,
                  ap (equal_bytes (compute_hash f start e)) l.0,
                  equal_bytes_refl (compute_hash f start e),
                );
                told = refl;
              },
            ))
        | inl same ↦ elim (Bool-cases (equal_bytes start e.prev_hash)) [
          | inr missing ↦
              rw (same, missing)
                (inr (
                  refl,
                  record {
                    before = [];
                    entry = e;
                    after = rest;
                    split = refl;
                    good = tt;
                    bad = λ l. cc (missing, ap (equal_bytes start) l.1, equal_bytes_refl start);
                    told = refl;
                  },
                ))
          | inl follows ↦
              rw (same, follows)
                (linked (equal_bytes-eq _ _ same, equal_bytes-eq _ _ follows)
                  (verify_from_cases total e.hash rest))
        ]
      ]
    where
      linked :
          Links start e
          → ((verify_from f total e.hash rest).valid ≡ true × Linked e.hash rest)
            ⊎ ((verify_from f total e.hash rest).valid ≡ false
                × FirstBreak e.hash rest (verify_from f total e.hash rest))
          → ((verify_from f total e.hash rest).valid ≡ true × Linked start (e ∷ rest))
            ⊎ ((verify_from f total e.hash rest).valid ≡ false
                × FirstBreak start (e ∷ rest) (verify_from f total e.hash rest))
      linked l (inl (v, more)) = inl (v, (l, more))
      linked l (inr (v, b)) = inr (
        v,
        record {
          before = e ∷ b.before;
          entry = b.entry;
          after = b.after;
          split = ap (λ es. e ∷ es) b.split;
          good = (l, b.good);
          bad = b.bad;
          told = b.told;
        },
      )

  -- VerifyChain answers valid only if each entry records the hash of the entry before it (the start
  -- hash for the first) and the hash computed from that and its own fields; otherwise it answers
  -- invalid and gives the sequence number of the first entry that does not.
  pub verify_chain_sound :
      (entries : List AuditEntry) (start : Bytes)
      → ((verify_chain f entries start).valid ≡ true × Linked start entries)
        ⊎ ((verify_chain f entries start).valid ≡ false
            × FirstBreak start entries (verify_chain f entries start))
  unfolding verify_chain
  verify_chain_sound entries start = verify_from_cases (length entries) start entries
