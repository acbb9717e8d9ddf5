-- ===== src/Migrate/Load/Contiguous.antt =====
-- What Load accepts.
use aegisops_ai.Base.{
  ℕ, suc, ◌≡◌, refl, inl, inr, ◌⊎◌, false, Bool-cases, String, List, [], ◌∷◌, none, Option-cases,
  ◌==◌, arith, All, All-sort_stable, is_blank, sort_stable, subst,
}
use aegisops_ai.Migrate.Load.{
  Migration, Entry, Pair, LoadError, load, from_pairs, in_order, checked, build, migration_of,
  first_gap, before, collect,
}

-- The versions are consecutive, from `k` on.
abbrev pub Numbered : ℕ → List Migration → Type 0
Numbered k [] = Unit
Numbered k (m ∷ ms) = (m.version ≡ k) × Numbered (suc k) ms

module _ (checksum_of : String → String) where
  abbrev pub IsReady : Migration → Type 0
  IsReady m = (is_blank m.up_sql ≡ false) × (m.checksum ≡ checksum_of m.up_sql)

  first_gap-Numbered :
      (k : ℕ) (ms : List Migration) → first_gap checksum_of k ms ≡ none → Numbered k ms
  unfolding first_gap
  first_gap-Numbered k [] h = tt
  first_gap-Numbered k (m ∷ ms) h = elim (Bool-cases (m.version == k)) [
    | inl fits ↦ (ground arith, first_gap-Numbered (suc k) ms (rw fits at h))
    | inr other ↦ cc (rw other at h)
  ]

  -- What `build` gives out.
  abbrev AllReady : List Migration ⊎ LoadError → Type 0
  AllReady (inl ms) = All IsReady ms
  AllReady (inr err) = Unit

  build-AllReady : (pairs : List Pair) → AllReady (build checksum_of pairs)
  unfolding build migration_of
  build-AllReady [] = tt
  build-AllReady (p ∷ pairs) =
      let rest = build-AllReady pairs in
      elim (Bool-cases (is_blank p.up_body)) [
        | inl blank ↦ rw (blank, build) tt
        | inr there ↦ rw (there, build) (more there (build checksum_of pairs) rest)
      ]
    where
      more :
          is_blank p.up_body ≡ false
          → (r : List Migration ⊎ LoadError) → AllReady r
          → AllReady (elim r [ inr err ↦ inr err | inl ms ↦ inl (migration_of checksum_of p ∷ ms) ])
      more there (inl ms) h = ((there, refl), h)
      more there (inr err) h = tt

  -- Loaded and in order.
  abbrev IsLoaded : List Migration ⊎ LoadError → Type 0
  IsLoaded (inl ms) = Numbered 1 ms × All IsReady ms
  IsLoaded (inr err) = Unit

  checked-IsLoaded : (ms : List Migration) → All IsReady ms → IsLoaded (checked checksum_of ms)
  unfolding checked
  checked-IsLoaded ms h = elim (Option-cases (first_gap checksum_of 1 ms)) [
    | inl none_ ↦ rw (none_, checked) (first_gap-Numbered 1 ms none_, h)
    | inr (err, found) ↦ rw (found, checked) tt
  ]

  in_order-IsLoaded :
      (r : List Migration ⊎ LoadError) → AllReady r → IsLoaded (in_order checksum_of r)
  unfolding in_order
  in_order-IsLoaded (inr err) h = tt
  in_order-IsLoaded (inl ms) h =
      checked-IsLoaded (sort_stable (before checksum_of) ms)
        (All-sort_stable (before checksum_of) IsReady ms h)

  from_pairs-IsLoaded : (r : List Pair ⊎ LoadError) → IsLoaded (from_pairs checksum_of r)
  unfolding from_pairs
  from_pairs-IsLoaded (inr err) = tt
  from_pairs-IsLoaded (inl pairs) =
      in_order-IsLoaded (build checksum_of pairs) (build-AllReady pairs)

  -- What Load accepts is numbered from 1 without a gap or a repetition, whatever the order of the
  -- files, and every migration has text to apply and the checksum of that text.
  pub load_contiguous :
      (entries : List Entry) (ms : List Migration)
      → load checksum_of entries ≡ inl ms
      → Numbered 1 ms × All IsReady ms
  unfolding load
  load_contiguous entries ms h = subst IsLoaded h (from_pairs-IsLoaded (collect entries []))
