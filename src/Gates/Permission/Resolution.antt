-- ===== src/Gates/Permission/Resolution.antt =====
-- The order of resolution, and what the gate grants, in terms of the rules as they are stored.
use aegisops_ai.Base.{
  ◌<◌, ◌≡◌, ◌⊎◌, inl, inr, true, false, none, some, Option-cases, arith, String, str_eq, str_eq_iff,
  List, All-In, ◌≢◌, In, In-keep, keep-In, In-of_sort_stable, In-sort_stable, sort_stable,
  sort_stable-IsSorted, find_first-In, find_first-none, find_first-first, keep,
}
use aegisops_ai.Domain.Rules.{Permission, permission_matches, permission_specificity}
use aegisops_ai.Gates.Permission.{
  is_deny, is_allow, precedes, compile_permissions, governing, allows,
}

precedes_irrefl : (a : Permission) → precedes a a ≡ false
unfolding precedes
precedes_irrefl a = ground arith

precedes-asymm : (a b : Permission) → precedes a b ≡ true → precedes b a ≡ false
unfolding precedes
precedes-asymm a b h = ground arith

precedes-neg_trans :
    (a b c : Permission) → precedes c b ≡ false → precedes b a ≡ false → precedes c a ≡ false
unfolding precedes
precedes-neg_trans a b c h k = ground arith

-- What it says of a rule that it does not come before one that allows.
precedes_at :
    (r s : Permission)
    → is_allow r.effect ≡ true
    → precedes s r ≡ false
    → (permission_specificity s < permission_specificity r)
      ⊎ ((permission_specificity s ≡ permission_specificity r) × (is_deny s.effect ≡ false))
unfolding precedes is_allow is_deny
precedes_at r s h k = ground arith

-- A rule of the list that is about this agent kind, tool and action.
pub record Applies (rules : List Permission) (agent_kind tool action : String) (r : Permission)
    : Type 0 where
  pub listed : In r rules
  pub for_kind : r.agent_kind ≡ agent_kind
  pub about : permission_matches r tool action ≡ true

module _ (rules : List Permission) (agent_kind tool action : String) where
  abbrev compiled : List Permission
  compiled = sort_stable precedes (keep (λ r. str_eq r.agent_kind agent_kind) rules)

  governing-Applies :
      {r : Permission}
      → governing (compile_permissions rules) agent_kind tool action ≡ some r
      → Applies rules agent_kind tool action r
  unfolding governing compile_permissions
  governing-Applies {r} h =
      let found = find_first-In (λ s. permission_matches s tool action) compiled {a = r} h in
      let kept =
        In-keep (λ s. str_eq s.agent_kind agent_kind) rules r
          (In-of_sort_stable precedes (keep (λ s. str_eq s.agent_kind agent_kind) rules) r
            found.0) in
      record {
        listed = kept.0;
        for_kind = (str_eq_iff r.agent_kind agent_kind).0 kept.1;
        about = found.1;
      }

  In-compiled : (r : Permission) → Applies rules agent_kind tool action r → In r compiled
  In-compiled r a = In-sort_stable precedes (keep (λ s. str_eq s.agent_kind agent_kind) rules) r (
      keep-In (λ s. str_eq s.agent_kind agent_kind) rules r a.listed
        ((str_eq_iff r.agent_kind agent_kind).1 a.for_kind))

  governing-first :
      {r : Permission}
      → governing (compile_permissions rules) agent_kind tool action ≡ some r
      → (s : Permission) → Applies rules agent_kind tool action s
      → precedes s r ≡ false
  unfolding governing compile_permissions
  governing-first {r} h s a =
      find_first-first precedes precedes_irrefl (λ t. permission_matches t tool action) compiled
        {a = r} (sort_stable-IsSorted precedes precedes-asymm precedes-neg_trans _) h s
        (In-compiled s a) a.about

  -- The gate says yes only on the strength of an allow rule for this agent kind, tool and action,
  -- than which no rule that applies is more specific, and no denial that applies as specific.
  pub allows_sound :
      (allows (compile_permissions rules) agent_kind tool action).0 ≡ true
      → (r : Permission) × Applies rules agent_kind tool action r
        × (is_allow r.effect ≡ true)
        × ((s : Permission)
            → Applies rules agent_kind tool action s
            → (permission_specificity s < permission_specificity r)
              ⊎ ((permission_specificity s ≡ permission_specificity r)
                  × (is_deny s.effect ≡ false)))
  unfolding allows
  allows_sound h =
      elim (Option-cases (governing (compile_permissions rules) agent_kind tool action)) [
        | inl nothing ↦ cc (rw nothing at h)
        | inr found ↦ (
          found.0,
          governing-Applies found.1,
          rw found.1 at h,
          λ s a. precedes_at found.0 s (rw found.1 at h) (governing-first found.1 s a),
        )
      ]

  -- With no rule that applies the gate says no.
  pub allows_default :
      ((r : Permission) → ¬ Applies rules agent_kind tool action r)
      → allows (compile_permissions rules) agent_kind tool action ≡ (false, none)
  unfolding allows
  allows_default h =
      elim (Option-cases (governing (compile_permissions rules) agent_kind tool action)) [
        | inl nothing ↦ rw nothing
        | inr found ↦ absurd (h found.0 (governing-Applies found.1))
      ]

governing-ne-none :
    (rules : List Permission) (agent_kind tool action : String) (r : Permission)
    → Applies rules agent_kind tool action r
    → governing (compile_permissions rules) agent_kind tool action ≢ none
unfolding governing compile_permissions
governing-ne-none rules agent_kind tool action r a h = cc (
  a.about,
  All-In (λ s. permission_matches s tool action ≡ false) r (compiled rules agent_kind tool action)
      (find_first-none (λ s. permission_matches s tool action)
        (compiled rules agent_kind tool action) h)
      (In-compiled rules agent_kind tool action r a),
)

-- A rule that comes no later than `r`, and is below it or an allow rule beside it, is an allow rule.
outranked :
    (r g : Permission)
    → precedes r g ≡ false
    → (permission_specificity g < permission_specificity r)
      ⊎ ((permission_specificity g ≡ permission_specificity r) × (is_allow g.effect ≡ true))
    → is_allow g.effect ≡ true
unfolding precedes is_allow is_deny
outranked r g h k = ground arith

-- The gate says yes whenever an allow rule applies, no more specific rule does, and every rule that
-- applies and is as specific allows too. A denial that is less specific does not count.
pub allows_complete :
    (rules : List Permission) (agent_kind tool action : String) (r : Permission)
    → Applies rules agent_kind tool action r
    → is_allow r.effect ≡ true
    → ((s : Permission)
        → Applies rules agent_kind tool action s
        → (permission_specificity s < permission_specificity r)
          ⊎ ((permission_specificity s ≡ permission_specificity r) × (is_allow s.effect ≡ true)))
    → (allows (compile_permissions rules) agent_kind tool action).0 ≡ true
unfolding allows
allows_complete rules agent_kind tool action r a yes_ top =
    elim (Option-cases (governing (compile_permissions rules) agent_kind tool action)) [
      | inl nothing ↦ absurd (governing-ne-none rules agent_kind tool action r a nothing)
      | inr found ↦ rw found.1 (
          outranked r found.0 (governing-first rules agent_kind tool action found.1 r a)
            (top found.0 (governing-Applies rules agent_kind tool action found.1)))
    ]
