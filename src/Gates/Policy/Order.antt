-- ===== src/Gates/Policy/Order.antt =====
-- The policy that governs an action, in terms of the policies as they are stored.
use aegisops_ai.Base.{
  ◌≡◌, false, true, some, arith, String, List, In, In-of_sort_stable, In-sort_stable, sort_stable,
  sort_stable-IsSorted, find_first-In, find_first-first, pos_part, neg_part, ◌≤◌, ◌<◌, ◌+◌, ◌⊎◌,
}
use aegisops_ai.Domain.ToolCall.{risk_rank}
use aegisops_ai.Domain.Rules.{Policy, policy_matches, policy_specificity}
use aegisops_ai.Gates.Policy.{policy_precedes, compile_policies, policy_for}

policy_precedes_irrefl : (a : Policy) → policy_precedes a a ≡ false
unfolding policy_precedes
policy_precedes_irrefl a = ground arith

policy_precedes-asymm : (a b : Policy) → policy_precedes a b ≡ true → policy_precedes b a ≡ false
unfolding policy_precedes
policy_precedes-asymm a b h = ground arith

policy_precedes-neg_trans :
    (a b c : Policy)
    → policy_precedes c b ≡ false
    → policy_precedes b a ≡ false
    → policy_precedes c a ≡ false
unfolding policy_precedes
policy_precedes-neg_trans a b c h k = ground arith

-- `a ≤ b` of two priorities.
abbrev pub PriorityLe : Policy → Policy → Type 0
PriorityLe a b =
    pos_part a.priority + neg_part b.priority ≤ pos_part b.priority + neg_part a.priority

-- What precedes another policy does not: by specificity, then priority, then tier.
pub AtMost : Policy → Policy → Type 0
AtMost s p =
    (policy_specificity s < policy_specificity p)
    ⊎ ((policy_specificity s ≡ policy_specificity p)
        × PriorityLe s p
        × (PriorityLe p s → risk_rank s.risk ≤ risk_rank p.risk))

not_precedes-AtMost : (s p : Policy) → policy_precedes s p ≡ false → AtMost s p
unfolding policy_precedes AtMost
not_precedes-AtMost s p h = ground arith

-- The policy that governs an action is one of those stored, is enabled and matches, and every
-- matching policy is at most as specific; as specific, at most as high in priority; and as specific
-- and as high, at most as risky.
pub policy_for_sound :
    (policies : List Policy) (tool action : String) {p : Policy}
    → policy_for (compile_policies policies) tool action ≡ some p
    → In p policies
      × (policy_matches p tool action ≡ true)
      × ((s : Policy) → In s policies → policy_matches s tool action ≡ true → AtMost s p)
unfolding policy_for compile_policies
policy_for_sound policies tool action {p} h =
    let matches = λ (q : Policy). policy_matches q tool action in
    let found = find_first-In matches (sort_stable policy_precedes policies) {a = p} h in
    (
      In-of_sort_stable policy_precedes policies p found.0,
      found.1,
      λ s listed m. not_precedes-AtMost s p (
          find_first-first policy_precedes policy_precedes_irrefl matches
            (sort_stable policy_precedes policies) {a = p}
            (sort_stable-IsSorted policy_precedes policy_precedes-asymm policy_precedes-neg_trans
              policies)
            h s (In-sort_stable policy_precedes policies s listed) m),
    )
