-- ===== src/Migrate/Runner/Newest.antt =====
-- The order in which Down goes through the migrations: sort.Slice by descending version.
use aegisops_ai.Base.{
  ℕ, suc, ◌<◌, ◌≡◌, refl, sym, ap, ◌∙◌, true, List, [], ◌∷◌, ◌++◌, arith, subst, All,
  All-sort_stable, sort_stable, insert_stable,
}
use aegisops_ai.Migrate.Load.{Migration}
use aegisops_ai.Migrate.Load.Contiguous.{Numbered}
use aegisops_ai.Migrate.Runner.{newer}
use aegisops_ai.Migrate.Runner.Rows.{append_assoc, append_nil}

-- The migrations in the other order.
unfoldable pub turned : List Migration → List Migration
turned [] = []
turned (m ∷ ms) = turned ms ++ m ∷ []

turned-append : (ms : List Migration) (m : Migration) → turned (ms ++ m ∷ []) ≡ m ∷ turned ms
unfolding turned
turned-append [] m = refl
turned-append (n ∷ ms) m = ap (λ l. l ++ n ∷ []) (turned-append ms m)

pub turned-turned : (ms : List Migration) → turned (turned ms) ≡ ms
unfolding turned
turned-turned [] = refl
turned-turned (m ∷ ms) = turned-append (turned ms) m ∙ ap (λ l. m ∷ l) (turned-turned ms)

pub turned_both : (xs ys : List Migration) → turned (xs ++ ys) ≡ turned ys ++ turned xs
unfolding turned
turned_both [] ys = sym (append_nil (turned ys))
turned_both (x ∷ xs) ys =
    ap (λ l. l ++ x ∷ []) (turned_both xs ys) ∙ append_assoc (turned ys) (turned xs) (x ∷ [])

-- What is older than all goes to the end.
insert_oldest :
    (m : Migration) (ms : List Migration)
    → All (λ n. newer n m ≡ true) ms
    → insert_stable newer m ms ≡ ms ++ m ∷ []
unfolding insert_stable
insert_oldest m [] h = refl
insert_oldest m (n ∷ ms) h = rw h.0 (ap (λ l. n ∷ l) (insert_oldest m ms h.1))

later_newer :
    (k j : ℕ) (m : Migration) (ms : List Migration)
    → m.version ≡ k
    → k < j
    → Numbered j ms
    → All (λ n. newer n m ≡ true) ms
unfolding newer
later_newer k j m [] e l n = tt
later_newer k j m (x ∷ ms) e l n =
    ((let v = n.0 in ground arith), later_newer k (suc j) m ms e (omega arith) n.1)

-- Sorting numbered migrations newest first turns them round.
pub sorted_newest : (k : ℕ) (ms : List Migration) → Numbered k ms → sort_stable newer ms ≡ turned ms
unfolding sort_stable turned
sorted_newest k [] n = refl
sorted_newest k (m ∷ ms) n =
    insert_oldest m (sort_stable newer ms) (
      All-sort_stable newer (λ x. newer x m ≡ true) ms
        (later_newer k (suc k) m ms n.0 (omega arith) n.1))
    ∙ ap (λ l. l ++ m ∷ []) (sorted_newest (suc k) ms n.1)

pub All-turned :
    (P : Migration → Type 0) (k : ℕ) (ms : List Migration)
    → Numbered k ms
    → All P ms
    → All P (turned ms)
All-turned P k ms n h = subst (All P) (sorted_newest k ms n) (All-sort_stable newer P ms h)
