-- ===== src/Domain/Chain/Preimage.antt =====
-- What ComputeHash writes determines every field that it commits to.
use aegisops_ai.Base.{
  ℕ, ◌^◌, ◌<◌, ◌≡◌, refl, sym, ◌∙◌, List, [], ◌∷◌, ◌++◌, length, arith, All, ℤ, pos, negsuc,
}
use mathlib.Core.List.{append_assoc}
use aegisops_ai.Domain.Execution.{Bytes}
use aegisops_ai.Domain.Chain.{
  Format, AuditEntry, big_endian, write_field, write_fields, uint64_of, fields, preimage,
}

big_endian_inj : (m n : ℕ) → m < 2 ^ 64 → n < 2 ^ 64 → big_endian m ≡ big_endian n → m ≡ n
unfolding big_endian
big_endian_inj m n hm hn e = ground arith

append_split :
    (xs ys us vs : Bytes) → length xs ≡ length ys → xs ++ us ≡ ys ++ vs → (xs ≡ ys) × (us ≡ vs)
append_split [] [] us vs l e = (refl, e)
append_split [] (y ∷ ys) us vs l e = absurd (omega arith)
append_split (x ∷ xs) [] us vs l e = absurd (omega arith)
append_split (x ∷ xs) (y ∷ ys) us vs l e =
    let head : x ≡ y = cc in
    let tail : xs ++ us ≡ ys ++ vs = cc in
    let rest = append_split xs ys us vs (omega arith) tail in (cc (head, rest.0), rest.1)

-- A field that a length of 64 bits can count.
abbrev pub Fits : Bytes → Type 0
Fits s = length s < 2 ^ 64

write_field_split :
    (s t us vs : Bytes)
    → Fits s
    → Fits t
    → write_field s ++ us ≡ write_field t ++ vs
    → (s ≡ t) × (us ≡ vs)
unfolding write_field
write_field_split s t us vs hs ht e =
    let parts =
      append_split (big_endian (length s)) (big_endian (length t)) (s ++ us) (t ++ vs)
        (unfold big_endian in refl)
        (sym (append_assoc (big_endian (length s)) s us)
          ∙ e
          ∙ append_assoc (big_endian (length t)) t vs) in
    append_split s t us vs (big_endian_inj (length s) (length t) hs ht parts.0) parts.1

write_fields_inj :
    (ss ts : List Bytes)
    → length ss ≡ length ts
    → All Fits ss
    → All Fits ts
    → write_fields ss ≡ write_fields ts
    → ss ≡ ts
unfolding write_fields
write_fields_inj [] [] l hs ht e = refl
write_fields_inj [] (t ∷ ts) l hs ht e = absurd (omega arith)
write_fields_inj (s ∷ ss) [] l hs ht e = absurd (omega arith)
write_fields_inj (s ∷ ss) (t ∷ ts) l hs ht e =
    let parts = write_field_split s t (write_fields ss) (write_fields ts) hs.0 ht.0 e in
    let rest = write_fields_inj ss ts (omega arith) hs.1 ht.1 parts.1 in cc (parts.0, rest)

uint64_of-lt : (n : ℤ) → uint64_of n < 2 ^ 64
unfolding uint64_of
uint64_of-lt (pos n) = omega arith
uint64_of-lt (negsuc n) = omega arith

module _ (f : Format) where
  -- Two entries that agree on all that the hash commits to.
  pub record SameContent (a b : AuditEntry) : Type 0 where
    pub same_seq : uint64_of a.seq ≡ uint64_of b.seq
    pub same_fields : fields f a ≡ fields f b

  abbrev pub Storable : AuditEntry → Type 0
  Storable a = All Fits (fields f a)

  -- Behind hashes of one length, the same bytes come only from the same hash and the same content.
  pub preimage_inj :
      (prev prev' : Bytes) (a b : AuditEntry)
      → length prev ≡ length prev'
      → Storable a
      → Storable b
      → preimage f prev a ≡ preimage f prev' b
      → (prev ≡ prev') × SameContent a b
  unfolding preimage
  preimage_inj prev prev' a b l ha hb e =
      let outer =
        append_split prev prev' (big_endian (uint64_of a.seq) ++ write_fields (fields f a))
          (big_endian (uint64_of b.seq) ++ write_fields (fields f b)) l e in
      let inner =
        append_split (big_endian (uint64_of a.seq)) (big_endian (uint64_of b.seq))
          (write_fields (fields f a)) (write_fields (fields f b)) (unfold big_endian in refl)
          outer.1 in
      (
        outer.0,
        record {
          same_seq = big_endian_inj _ _ (uint64_of-lt a.seq) (uint64_of-lt b.seq) inner.0;
          same_fields =
              write_fields_inj (fields f a) (fields f b) (unfold fields in refl) ha hb inner.1;
        },
      )
